-- ===== src/Text/Digits.antt =====
-- Digit runs of Text.antt: printing and reading are inverse, and the lengths of what is printed.
use tckr.Prelude.{
  ℕ, zero, suc, ◌+◌, ◌-◌, ◌*◌, ◌/◌, ◌%◌, ◌^◌, ◌≤◌, ◌<◌, ◌≡◌, refl, ◌∙◌, true, none, some, [], ◌∷◌,
  ◌++◌, arith, ltb, length, replicate, All-append, All-replicate, length-append, Bool-cases, ltb→lt,
  ltb_false→le, length-replicate, inl, inr, max,
}
use native.Mathlib.Nat.{pow-suc}
use tckr.Text.{
  Text, is_digit, all_digits, of_digits, to_digits_fuel, to_digits, pad_start, pad_end, index_of,
  IsDigits,
}

pub IsDigits-chars : (s : Text) → IsDigits s → all_digits s ≡ true
IsDigits-chars [] h = refl
IsDigits-chars (c ∷ s) (p, h) = ground (arith, IsDigits-chars s h)

pub of_digits-append :
    (acc : ℕ) (s t : Text) → of_digits acc (s ++ t) ≡ of_digits (of_digits acc s) t
unfolding of_digits
of_digits-append acc [] t = refl
of_digits-append acc (c ∷ s) t = of_digits-append (acc * 10 + (c - b'0')) s t

-- The digits read so far only shift left.
pub of_digits-acc : (acc : ℕ) (s : Text) → of_digits acc s ≡ acc * 10 ^ length s + of_digits 0 s
unfolding of_digits
of_digits-acc acc [] = omega arith
of_digits-acc acc (c ∷ s) =
    rw (pow-suc 10 (length s))
      (omega (arith, of_digits-acc (acc * 10 + (c - b'0')) s, of_digits-acc (0 + (c - b'0')) s))

pub of_digits-zeros : (n : ℕ) (s : Text) → of_digits 0 (replicate n b'0' ++ s) ≡ of_digits 0 s
unfolding of_digits
of_digits-zeros zero s = refl
of_digits-zeros (suc n) s = of_digits-zeros n s

pub of_digits-pad_start : (n : ℕ) (s : Text) → of_digits 0 (pad_start n s) ≡ of_digits 0 s
unfolding pad_start
of_digits-pad_start n s = of_digits-zeros (n - length s) s

of_digits-zeros_end : (n acc : ℕ) → of_digits acc (replicate n b'0') ≡ acc * 10 ^ n
unfolding of_digits
of_digits-zeros_end zero acc = omega arith
of_digits-zeros_end (suc n) acc =
    rw (pow-suc 10 n) (omega (arith, of_digits-zeros_end n (acc * 10 + 0)))

pub of_digits-pad_end :
    (n : ℕ) (s : Text) → of_digits 0 (pad_end n s) ≡ of_digits 0 s * 10 ^ (n - length s)
unfolding pad_end
of_digits-pad_end n s =
    of_digits-append 0 s (replicate (n - length s) b'0')
    ∙ of_digits-zeros_end (n - length s) (of_digits 0 s)

digit-lt : (c : ℕ) → is_digit c ≡ true → c - b'0' < 10
digit-lt c h = ground arith

digit-mul : (d k : ℕ) → d < 10 → d * k + k ≤ k * 10
digit-mul d k h = grind arith

-- A run of n digits is below 10 ^ n.
pub of_digits-lt : (s : Text) → IsDigits s → of_digits 0 s < 10 ^ length s
unfolding of_digits
of_digits-lt [] h = omega arith
of_digits-lt (c ∷ s) (p, h) = rw (pow-suc 10 (length s)) (
    omega (
      arith,
      of_digits-acc (0 + (c - b'0')) s,
      of_digits-lt s h,
      digit-mul (c - b'0') (10 ^ length s) (digit-lt c p),
    ))

of_digits-to_digits_fuel : (f n : ℕ) → n < f → of_digits 0 (to_digits_fuel f n) ≡ n
unfolding to_digits_fuel
of_digits-to_digits_fuel zero n h = elim h [ ]
of_digits-to_digits_fuel (suc f) n h = elim (Bool-cases (ltb n 10)) [
  | inl small ↦ rw small (unfold of_digits in omega arith)
  | inr big ↦
      let big' : 10 ≤ n = ltb_false→le n 10 big in
      rw (big, of_digits-append)
        (rw (of_digits-to_digits_fuel f (n / 10) (omega arith)) (unfold of_digits in omega arith))
]

-- Reading what `toString` printed gives the number back.
pub of_digits-to_digits : (n : ℕ) → of_digits 0 (to_digits n) ≡ n
unfolding to_digits
of_digits-to_digits n = of_digits-to_digits_fuel (suc n) n (omega arith)

is_digit-add : (d : ℕ) → d < 10 → is_digit (b'0' + d) ≡ true
is_digit-add d h = ground arith

to_digits_fuel-IsDigits : (f n : ℕ) → IsDigits (to_digits_fuel f n)
unfolding to_digits_fuel
to_digits_fuel-IsDigits zero n = tt
to_digits_fuel-IsDigits (suc f) n = elim (Bool-cases (ltb n 10)) [
  | inl small ↦ rw small (is_digit-add n (ltb→lt n 10 small), tt)
  | inr big ↦ rw big (
      All-append _ (to_digits_fuel f (n / 10)) _ (to_digits_fuel-IsDigits f (n / 10))
        (is_digit-add (n % 10) (omega arith), tt))
]

pub to_digits-IsDigits : (n : ℕ) → IsDigits (to_digits n)
unfolding to_digits
to_digits-IsDigits n = to_digits_fuel-IsDigits (suc n) n

length-to_digits_fuel_pos : (f n : ℕ) → 0 < length (to_digits_fuel (suc f) n)
unfolding to_digits_fuel
length-to_digits_fuel_pos f n = elim (Bool-cases (ltb n 10)) [
  | inl small ↦ rw small (omega arith)
  | inr big ↦
      rw big (omega (arith, length-append {0} (to_digits_fuel f (n / 10)) ((b'0' + n % 10) ∷ [])))
]

pub length-to_digits_pos : (n : ℕ) → 0 < length (to_digits n)
unfolding to_digits
length-to_digits_pos n = length-to_digits_fuel_pos n n

length-to_digits_fuel_le : (f n k : ℕ) → 0 < k → n < 10 ^ k → length (to_digits_fuel f n) ≤ k
unfolding to_digits_fuel
length-to_digits_fuel_le zero n k pos_k h = omega arith
length-to_digits_fuel_le (suc f) n zero pos_k h = elim pos_k [ ]
length-to_digits_fuel_le (suc f) n (suc k) pos_k h = elim (Bool-cases (ltb n 10)) [
  | inl small ↦ rw small (omega arith)
  | inr big ↦
      let h' : n < 10 ^ k * 10 = rw (pow-suc 10 k) at h in
      let big' : 10 ≤ n = ltb_false→le n 10 big in
      let some_left : 0 < k = pow-one_lt k (omega arith) in
      rw big (
        omega (
          arith,
          length-append {0} (to_digits_fuel f (n / 10)) ((b'0' + n % 10) ∷ []),
          length-to_digits_fuel_le f (n / 10) k some_left (omega arith),
        ))
]
  where
    pow-one_lt : (j : ℕ) → 1 < 10 ^ j → 0 < j
    pow-one_lt zero lt = omega arith
    pow-one_lt (suc j) lt = omega arith

-- A number below 10 ^ k prints at most k digits.
pub length-to_digits_le : (n k : ℕ) → 0 < k → n < 10 ^ k → length (to_digits n) ≤ k
unfolding to_digits
length-to_digits_le n k = length-to_digits_fuel_le (suc n) n k

pub IsDigits-pad_start : (n : ℕ) (s : Text) → IsDigits s → IsDigits (pad_start n s)
unfolding pad_start
IsDigits-pad_start n s h =
    All-append _ (replicate (n - length s) b'0') s (All-replicate _ (n - length s) b'0' refl) h

pub length-pad_start : (n : ℕ) (s : Text) → length (pad_start n s) ≡ max n (length s)
unfolding pad_start
length-pad_start n s = omega (
  arith,
  length-append {0} (replicate (n - length s) b'0') s,
  length-replicate {A = ℕ} (n - length s) b'0',
)

pub length-pad_end : (n : ℕ) (s : Text) → length (pad_end n s) ≡ max n (length s)
unfolding pad_end
length-pad_end n s = omega (
  arith,
  length-append {0} s (replicate (n - length s) b'0'),
  length-replicate {A = ℕ} (n - length s) b'0',
)

-- The first dot stands behind the leading digits.
pub index_of-digits : (s t : Text) → IsDigits s → index_of b'.' (s ++ b'.' ∷ t) ≡ some (length s)
unfolding index_of
index_of-digits [] t h = refl
index_of-digits (c ∷ s) t (p, h) = ground (arith, index_of-digits s t h)

pub index_of-digits_none : (s : Text) → IsDigits s → index_of b'.' s ≡ none
unfolding index_of
index_of-digits_none [] h = refl
index_of-digits_none (c ∷ s) (p, h) = ground (arith, index_of-digits_none s h)
