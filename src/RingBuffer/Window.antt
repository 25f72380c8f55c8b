-- ===== src/RingBuffer/Window.antt =====
-- The buffer of chart/ringBuffer.ts shows a sliding window: the last `capacity` points pushed.
use tckr.Prelude.{
  ℕ, zero, suc, ◌+◌, ◌-◌, ◌≤◌, ◌<◌, ◌≡◌, refl, ap, sym, ◌∙◌, some, List, [], ◌∷◌, ◌++◌, arith, ltb,
  if◌then◌else◌, length, set, replicate, ◌==◌, take, drop, length-set, length-take, length-drop,
  map, length-append, take_all, append-nil, append_assoc, Bool-cases, inl, inr, ltb→lt, false,
  ltb_false→le, length-replicate,
}
use native.Mathlib.Numerals.{add-one}
use tckr.RingBuffer.{RingBuffer, copy_within, new, push, clear, shown_times, shown_values}

-- The arrays keep the length that they were made with, and the buffer never overflows them.
pub record IsBuffer {ℓ} {T V : Type ℓ} (b : RingBuffer T V) : Type ℓ where
  pub some_capacity : 0 < b.capacity
  pub fits : b.count ≤ b.capacity
  pub times_length : length b.times ≡ b.capacity
  pub values_length : length b.values ≡ b.capacity

-- The window of at most `capacity` items that a push leaves.
abbrev pub slide {ℓ} : {A : Type ℓ} → ℕ → List A → A → List A
slide capacity xs x = if ltb (length xs) capacity then xs ++ x ∷ [] else drop 1 xs ++ x ∷ []

module _ {ℓ} {A : Type ℓ} where
  length-copy_within : (xs : List A) → length (copy_within xs) ≡ length xs
  length-copy_within [] = refl
  length-copy_within (x ∷ []) = refl
  length-copy_within (x ∷ y ∷ xs) = ap suc (length-copy_within (y ∷ xs))

  take-set_end :
      (n : ℕ) (xs : List A) (x : A)
      → n < length xs
      → take (suc n) (set xs n x) ≡ take n xs ++ x ∷ []
  take-set_end n [] x h = elim h [ ]
  take-set_end zero (y ∷ xs) x h = refl
  take-set_end (suc n) (y ∷ xs) x h = ap (λ t. y ∷ t) (take-set_end n xs x (omega arith))

  set-copy_within :
      (n : ℕ) (xs : List A) (x : A)
      → length xs ≡ suc n
      → set (copy_within xs) n x ≡ drop 1 xs ++ x ∷ []
  set-copy_within n [] x h = absurd (omega arith)
  set-copy_within zero (y ∷ []) x h = refl
  set-copy_within (suc n) (y ∷ []) x h = absurd (omega arith)
  set-copy_within zero (y ∷ z ∷ xs) x h = absurd (omega arith)
  set-copy_within (suc n) (y ∷ z ∷ xs) x h =
      ap (λ t. z ∷ t) (set-copy_within n (z ∷ xs) x (omega arith))

  -- One array of a buffer under `push`.
  push_view :
      (capacity count : ℕ) (xs : List A) (x : A)
      → 0 < capacity
      → count ≤ capacity
      → length xs ≡ capacity
      → (if ltb count capacity
          then take (count + 1) (set xs count x)
          else take count (set (copy_within xs) (capacity - 1) x))
        ≡ slide capacity (take count xs) x
  push_view capacity count xs x p q e =
      let l : length (take count xs) ≡ count = omega (arith, length-take {ℓ} count xs) in
      elim (Bool-cases (ltb count capacity)) [
        | inl room ↦
            let lt = ltb→lt count capacity room in
            rw (room, l, room, add-one count) (take-set_end count xs x (omega arith))
        | inr full ↦
            let ge = ltb_false→le count capacity full in
            rw (full, l, full)
              (ap (λ ys. take count ys) (set-copy_within (capacity - 1) xs x (omega arith))
                ∙ take_all count (drop 1 xs ++ x ∷ [])
                    (omega (arith, length-append {ℓ} (drop 1 xs) (x ∷ []), length-drop {ℓ} 1 xs))
                ∙ ap (λ ys. drop 1 ys ++ x ∷ []) (sym (take_all count xs (omega arith))))
      ]

  -- The last n items.
  abbrev pub last : ℕ → List A → List A
  last n xs = drop (length xs - n) xs

  abbrev slides : ℕ → List A → List A → List A
  slides capacity window [] = window
  slides capacity window (x ∷ xs) = slides capacity (slide capacity window x) xs

  drop-append_le : (n : ℕ) (xs ys : List A) → n ≤ length xs → drop n (xs ++ ys) ≡ drop n xs ++ ys
  drop-append_le zero xs ys h = refl
  drop-append_le (suc n) [] ys h = elim h [ ]
  drop-append_le (suc n) (x ∷ xs) ys h = drop-append_le n xs ys (omega arith)

  drop-drop : (n : ℕ) (xs : List A) → drop 1 (drop n xs) ≡ drop (suc n) xs
  drop-drop zero xs = refl
  drop-drop (suc n) [] = refl
  drop-drop (suc n) (x ∷ xs) = drop-drop n xs

  slide-last : (n : ℕ) (xs : List A) (x : A) → 0 < n → slide n (last n xs) x ≡ last n (xs ++ x ∷ [])
  slide-last n xs x h =
      let l : length (last n xs) ≡ length xs - (length xs - n) = length-drop (length xs - n) xs in
      let l' : length (xs ++ x ∷ []) ≡ length xs + 1 = length-append xs (x ∷ []) in
      elim (Bool-cases (ltb (length (last n xs)) n)) [
        | inl room ↦
            let lt = ltb→lt (length (last n xs)) n room in
            let none_dropped : length xs - n ≡ 0 = omega arith in
            let none_later : length (xs ++ x ∷ []) - n ≡ 0 = omega arith in
            rw room (rw (none_later, none_dropped))
        | inr full ↦
            let ge = ltb_false→le (length (last n xs)) n full in
            let next : length (xs ++ x ∷ []) - n ≡ suc (length xs - n) = omega arith in
            rw full (
              ap (λ ys. ys ++ x ∷ []) (drop-drop (length xs - n) xs)
              ∙ sym (drop-append_le (suc (length xs - n)) xs (x ∷ []) (omega arith))
              ∙ ap (λ k. drop k (xs ++ x ∷ [])) (sym next))
      ]

  slides-last : (n : ℕ) (ys xs : List A) → 0 < n → slides n (last n ys) xs ≡ last n (ys ++ xs)
  slides-last n ys [] h = ap (λ zs. last n zs) (sym (append-nil ys))
  slides-last n ys (x ∷ xs) h =
      ap (λ w. slides n w xs) (slide-last n ys x h)
      ∙ slides-last n (ys ++ x ∷ []) xs h
      ∙ ap (λ zs. last n zs) (append_assoc ys (x ∷ []) xs)

  drop-nil : (n : ℕ) → ◌≡◌ {A = List A} (drop n []) []
  drop-nil zero = refl
  drop-nil (suc n) = refl

  slides-fresh : (n : ℕ) (xs : List A) → 0 < n → slides n [] xs ≡ last n xs
  slides-fresh n xs h = ap (λ w. slides n w xs) (sym (drop-nil (0 - n))) ∙ slides-last n [] xs h

module _ {ℓ} {T V : Type ℓ} where
  pub push-IsBuffer : (b : RingBuffer T V) (t : T) (v : V) → IsBuffer b → IsBuffer (push b t v)
  unfolding push
  push-IsBuffer b t v h = elim (Bool-cases (ltb b.count b.capacity)) [
    | inl room ↦ rw room record {
      some_capacity = h.some_capacity;
      fits = omega (arith, ltb→lt b.count b.capacity room);
      times_length = length-set b.times b.count t ∙ h.times_length;
      values_length = length-set b.values b.count v ∙ h.values_length;
    }
    | inr full ↦ rw full record {
      some_capacity = h.some_capacity;
      fits = h.fits;
      times_length =
          length-set (copy_within b.times) (b.capacity - 1) t
          ∙ length-copy_within b.times
          ∙ h.times_length;
      values_length =
          length-set (copy_within b.values) (b.capacity - 1) v
          ∙ length-copy_within b.values
          ∙ h.values_length;
    }
  ]

  -- A push moves the window of points by one: while there is room the point is added, and once the
  -- buffer is full the oldest point makes room for it.
  pub push-slides :
      (b : RingBuffer T V) (t : T) (v : V)
      → IsBuffer b
      → (shown_times (push b t v) ≡ slide b.capacity (shown_times b) t)
        × (shown_values (push b t v) ≡ slide b.capacity (shown_values b) v)
  unfolding push
  push-slides b t v h = elim (Bool-cases (ltb b.count b.capacity)) [
    | inl room ↦ (
      rw room (
          rw room at
            (push_view b.capacity b.count b.times t h.some_capacity h.fits h.times_length)),
      rw room (
          rw room at
            (push_view b.capacity b.count b.values v h.some_capacity h.fits h.values_length)),
    )
    | inr full ↦ (
      rw full (
          rw full at
            (push_view b.capacity b.count b.times t h.some_capacity h.fits h.times_length)),
      rw full (
          rw full at
            (push_view b.capacity b.count b.values v h.some_capacity h.fits h.values_length)),
    )
  ]

  capacity-push : (b : RingBuffer T V) (t : T) (v : V) → (push b t v).capacity ≡ b.capacity
  unfolding push
  capacity-push b t v = ground arith

  abbrev pub push_all : RingBuffer T V → List (T × V) → RingBuffer T V
  push_all b [] = b
  push_all b ((t, v) ∷ ps) = push_all (push b t v) ps

  push_all-slides :
      (b : RingBuffer T V) (ps : List (T × V))
      → IsBuffer b
      → IsBuffer (push_all b ps)
        × (shown_times (push_all b ps) ≡ slides b.capacity (shown_times b) (map (λ p. p.0) ps))
        × (shown_values (push_all b ps) ≡ slides b.capacity (shown_values b) (map (λ p. p.1) ps))
  push_all-slides b [] h = (h, refl, refl)
  push_all-slides b ((t, v) ∷ ps) h =
      let (ok, times, values) = push_all-slides (push b t v) ps (push-IsBuffer b t v h) in
      let (time, value) = push-slides b t v h in
      (
        ok,
        times
            ∙ ap (λ c. slides c (shown_times (push b t v)) (map (λ p. p.0) ps))
                (capacity-push b t v)
            ∙ ap (λ w. slides b.capacity w (map (λ p. p.0) ps)) time,
        values
            ∙ ap (λ c. slides c (shown_values (push b t v)) (map (λ p. p.1) ps))
                (capacity-push b t v)
            ∙ ap (λ w. slides b.capacity w (map (λ p. p.1) ps)) value,
      )

  pub clear-IsBuffer : (b : RingBuffer T V) → IsBuffer b → IsBuffer (clear b)
  unfolding clear
  clear-IsBuffer b h = record {
    some_capacity = h.some_capacity;
    fits = omega arith;
    times_length = h.times_length;
    values_length = h.values_length;
  }

  -- A positive capacity makes an empty, well-formed buffer of that capacity.
  pub new-IsBuffer :
      (t : T) (v : V) (capacity : ℕ)
      → 0 < capacity
      → (b : RingBuffer T V) × (new t v capacity ≡ some b)
        × IsBuffer b
        × (b.capacity ≡ capacity)
        × (shown_times b ≡ [])
        × (shown_values b ≡ [])
  unfolding new
  new-IsBuffer t v capacity h =
      let positive : (capacity == 0) ≡ false = ground arith in
      (
        record {
          times = replicate capacity t;
          values = replicate capacity v;
          capacity = capacity;
          count = 0;
        },
        rw positive,
        record {
          some_capacity = h;
          fits = omega arith;
          times_length = length-replicate capacity t;
          values_length = length-replicate capacity v;
        },
        refl,
        refl,
        refl,
      )

  -- Of whatever points are pushed after `clear`, in whatever number, the buffer shows the last
  -- `capacity`, oldest first.
  pub push_all-last :
      (b : RingBuffer T V) (ps : List (T × V))
      → IsBuffer b
      → (shown_times (push_all (clear b) ps) ≡ last b.capacity (map (λ p. p.0) ps))
        × (shown_values (push_all (clear b) ps) ≡ last b.capacity (map (λ p. p.1) ps))
  unfolding clear
  push_all-last b ps h =
      let (ok, times, values) = push_all-slides (clear b) ps (clear-IsBuffer b h) in
      (
        times ∙ slides-fresh b.capacity (map (λ p. p.0) ps) h.some_capacity,
        values ∙ slides-fresh b.capacity (map (λ p. p.1) ps) h.some_capacity,
      )
