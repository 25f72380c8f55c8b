-- ===== src/ClosestInstruments/Edits.antt =====
-- What an edit distance is: the fewest edits that turn one text into another.
use mathlib.Core.Path.{subst}
use tckr.Prelude.{
  ℕ, suc, ◌+◌, ◌≤◌, ◌≡◌, refl, min, [], ◌∷◌, length, if◌then◌else◌, ◌==◌, ==_iff, Bool-cases, inl,
  inr, leb, leb→le, leb_false→lt, arith,
}
use tckr.Text.{Text}

-- A text turned into another one, character by character, with that many edits.
pub data Edits : Text → Text → ℕ → Type 0 where
  both_end : Edits [] [] 0
  keep : {x y : ℕ} {a b : Text} {n : ℕ} → x ≡ y → Edits a b n → Edits (x ∷ a) (y ∷ b) n
  replace : {x y : ℕ} {a b : Text} {n : ℕ} → Edits a b n → Edits (x ∷ a) (y ∷ b) (suc n)
  remove : {x : ℕ} {a b : Text} {n : ℕ} → Edits a b n → Edits (x ∷ a) b (suc n)
  insert : {y : ℕ} {a b : Text} {n : ℕ} → Edits a b n → Edits a (y ∷ b) (suc n)

abbrev pub IsDistance : Text → Text → ℕ → Type 0
IsDistance a b n = Edits a b n × ((m : ℕ) → Edits a b m → n ≤ m)

edits_to_nothing : (a : Text) → Edits a [] (length a)
edits_to_nothing [] = both_end
edits_to_nothing (x ∷ a) = remove (edits_to_nothing a)

edits_from_nothing : (b : Text) → Edits [] b (length b)
edits_from_nothing [] = both_end
edits_from_nothing (y ∷ b) = insert (edits_from_nothing b)

-- The lengths differ by at most the edits.
length-Edits :
    {a b : Text} {n : ℕ} → Edits a b n → (length a ≤ length b + n) × (length b ≤ length a + n)
length-Edits both_end = omega arith
length-Edits (keep e s) = omega (length-Edits s, arith)
length-Edits (replace s) = omega (length-Edits s, arith)
length-Edits (remove s) = omega (length-Edits s, arith)
length-Edits (insert s) = omega (length-Edits s, arith)

pub edits_to_nothing-IsDistance : (a : Text) → IsDistance a [] (length a)
edits_to_nothing-IsDistance a = (edits_to_nothing a, λ m s. omega (length-Edits s, arith))

pub edits_from_nothing-IsDistance : (b : Text) → IsDistance [] b (length b)
edits_from_nothing-IsDistance b = (edits_from_nothing b, λ m s. omega (length-Edits s, arith))

abbrev cost : ℕ → ℕ → ℕ
cost x y = if x == y then 0 else 1

Edits-min : (a b : Text) (m n : ℕ) → Edits a b m → Edits a b n → Edits a b (min m n)
Edits-min a b m n s t = elim (Bool-cases (leb m n)) [
  | inl le ↦ subst (λ k. Edits a b k) (omega (leb→le m n le, arith)) s
  | inr gt ↦ subst (λ k. Edits a b k) (omega (leb_false→lt m n gt, arith)) t
]

across_edits : (x y n : ℕ) (a b : Text) → Edits a b n → Edits (x ∷ a) (y ∷ b) (n + cost x y)
across_edits x y n a b s = elim (Bool-cases (x == y)) [
  | inl same ↦ subst (λ k. Edits (x ∷ a) (y ∷ b) k) (ground arith) (keep ((==_iff x y).0 same) s)
  | inr other ↦ subst (λ k. Edits (x ∷ a) (y ∷ b) k) (ground arith) (replace {x = x} {y = y} s)
]

cell_edits :
    (x y above left diagonal : ℕ) (a b : Text)
    → Edits a (y ∷ b) above
    → Edits (x ∷ a) b left
    → Edits a b diagonal
    → Edits (x ∷ a) (y ∷ b) (min (min (above + 1) (left + 1)) (diagonal + cost x y))
cell_edits x y above left diagonal a b up back across =
    let by_remove = subst (λ k. Edits (x ∷ a) (y ∷ b) k) (omega arith) (remove {x = x} up) in
    let by_insert = subst (λ k. Edits (x ∷ a) (y ∷ b) k) (omega arith) (insert {y = y} back) in
    Edits-min (x ∷ a) (y ∷ b) (min (above + 1) (left + 1)) (diagonal + cost x y)
      (Edits-min (x ∷ a) (y ∷ b) (above + 1) (left + 1) by_remove by_insert)
      (across_edits x y diagonal a b across)

cell_least :
    (x y above left diagonal m : ℕ) (a b : Text)
    → ((n : ℕ) → Edits a (y ∷ b) n → above ≤ n)
    → ((n : ℕ) → Edits (x ∷ a) b n → left ≤ n)
    → ((n : ℕ) → Edits a b n → diagonal ≤ n)
    → Edits (x ∷ a) (y ∷ b) m
    → min (min (above + 1) (left + 1)) (diagonal + cost x y) ≤ m
cell_least x y above left diagonal m a b up back across (keep e s) =
    let least = across m s in ground (arith, ==_iff x y)
cell_least x y above left diagonal m a b up back across (replace {n} s) =
    let least = across n s in ground arith
cell_least x y above left diagonal m a b up back across (remove {n} s) =
    let least = up n s in omega arith
cell_least x y above left diagonal m a b up back across (insert {n} s) =
    let least = back n s in omega arith

-- The distance of two texts from those of the texts without their first characters.
pub IsDistance-cell :
    (x y above left diagonal : ℕ) (a b : Text)
    → IsDistance a (y ∷ b) above
    → IsDistance (x ∷ a) b left
    → IsDistance a b diagonal
    → IsDistance (x ∷ a) (y ∷ b) (min (min (above + 1) (left + 1)) (diagonal + cost x y))
IsDistance-cell x y above left diagonal a b up back across = (
  cell_edits x y above left diagonal a b (up.0) (back.0) (across.0),
  λ m s. cell_least x y above left diagonal m a b (up.1) (back.1) (across.1) s,
)

-- The characters of a text one by one put in front of another.
unfoldable pub onto : Text → Text → Text
onto [] rest = rest
onto (c ∷ s) rest = onto s (c ∷ rest)

onto-onto : (s t : Text) → onto (onto s t) [] ≡ onto t s
unfolding onto
onto-onto [] t = refl
onto-onto (c ∷ s) t = onto-onto s (c ∷ t)

Edits-onto :
    {a b : Text} {n : ℕ}
    → Edits a b n
    → (c d : Text) (m : ℕ) → Edits c d m
    → Edits (onto a c) (onto b d) (n + m)
unfolding onto
Edits-onto both_end c d m t = subst (λ k. Edits c d k) (omega arith) t
Edits-onto {a = x ∷ a} {b = y ∷ b} {n} (keep e s) c d m t =
    Edits-onto s (x ∷ c) (y ∷ d) m (keep e t)
Edits-onto {a = x ∷ a} {b = y ∷ b} (replace {n} s) c d m t =
    subst (λ k. Edits (onto a (x ∷ c)) (onto b (y ∷ d)) k) (omega arith)
      (Edits-onto s (x ∷ c) (y ∷ d) (suc m) (replace t))
Edits-onto {a = x ∷ a} {b} (remove {n} s) c d m t =
    subst (λ k. Edits (onto a (x ∷ c)) (onto b d) k) (omega arith)
      (Edits-onto s (x ∷ c) d (suc m) (remove t))
Edits-onto {a} {b = y ∷ b} (insert {n} s) c d m t =
    subst (λ k. Edits (onto a c) (onto b (y ∷ d)) k) (omega arith)
      (Edits-onto s c (y ∷ d) (suc m) (insert t))

-- Texts written backwards have the same edits.
pub IsDistance-onto : (a b : Text) (n : ℕ) → IsDistance (onto a []) (onto b []) n → IsDistance a b n
unfolding onto
IsDistance-onto a b n (some_edits, least) = (
  subst (λ k. Edits a b k) (omega arith)
      (subst (λ t. Edits a t (n + 0)) (onto-onto b [])
        (subst (λ t. Edits t (onto (onto b []) []) (n + 0)) (onto-onto a [])
          (Edits-onto some_edits [] [] 0 both_end))),
  λ m s.
      least m (
        subst (λ k. Edits (onto a []) (onto b []) k) (omega arith) (Edits-onto s [] [] 0 both_end)),
)
