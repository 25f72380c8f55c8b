-- ===== src/Board/Order.antt =====
-- pages/useBoardSort.ts and boardColumns.tsx: the order that the sorted board is in.
use Prim.{tt}
use mathlib.Core.Path.{subst}
use tckr.Prelude.{
  suc, ◌≡◌, refl, ap, ◌∙◌, arith, String, Bool, true, false, ◌||◌, Option, none, some, List, [],
  ◌∷◌, length, leb, Bool-cases, inl, inr,
}
use tckr.Prelude.Int.{ℤ, pos, is_neg, ◌-ℤ◌, ltb_ℤ}
use tckr.Text.{Text}
use tckr.Contracts.{SymbolDefinition}
use tckr.Decimal.{compare, sign_of}
use tckr.Store.{SymbolView}
use tckr.ClosestInstruments.{sort, insert_sorted, filter}
use tckr.Board.{
  SortColumn, by_symbol, by_name, by_price, by_change, by_change_percent, by_volume, by_value,
  SortDirection, ascending, descending, SortState, sign_value, compare_values, is_first, compare_by,
  comes_before, sorted, all_comparable,
}

-- No item comes before the one in front of it.
abbrev pub IsOrdered : (SymbolDefinition → SymbolDefinition → Bool) → List SymbolDefinition → Type 0
IsOrdered before [] = Unit
IsOrdered before (a ∷ []) = Unit
IsOrdered before (a ∷ b ∷ items) = (before b a ≡ false) × IsOrdered before (b ∷ items)

module _ (before : SymbolDefinition → SymbolDefinition → Bool)
    (one_way : (a b : SymbolDefinition) → before a b ≡ true → before b a ≡ false) where
  insert_sorted-IsOrdered :
      (a : SymbolDefinition) (items : List SymbolDefinition)
      → IsOrdered before items
      → IsOrdered before (insert_sorted before a items)
  unfolding insert_sorted
  insert_sorted-IsOrdered a [] h = tt
  insert_sorted-IsOrdered a (b ∷ []) h = elim (Bool-cases (before b a)) [
    | inl first ↦ rw first (one_way b a first, tt)
    | inr last ↦ rw last (last, tt)
  ]
  insert_sorted-IsOrdered a (b ∷ c ∷ items) (le, h) =
      let more = insert_sorted-IsOrdered a (c ∷ items) h in
      elim (Bool-cases (before b a)) [
        | inl first ↦ rw first (elim (Bool-cases (before c a)) [
          | inl second ↦ rw second (le, rw second at more)
          | inr between ↦ rw between (one_way b a first, rw between at more)
        ])
        | inr last ↦ rw last (last, (le, h))
      ]

  sort-IsOrdered : (items : List SymbolDefinition) → IsOrdered before (sort before items)
  unfolding sort
  sort-IsOrdered [] = tt
  sort-IsOrdered (a ∷ items) = insert_sorted-IsOrdered a (sort before items) (sort-IsOrdered items)

  count-insert_sorted :
      (p : SymbolDefinition → Bool) (a : SymbolDefinition) (items : List SymbolDefinition)
      → length (filter p (insert_sorted before a items)) ≡ length (filter p (a ∷ items))
  unfolding insert_sorted filter
  count-insert_sorted p a [] = refl
  count-insert_sorted p a (b ∷ items) =
      let rest = count-insert_sorted p a items in
      elim (Bool-cases (before b a)) [
        | inl first ↦ rw first (ground arith)
        | inr last ↦ rw last refl
      ]

  count-sort :
      (p : SymbolDefinition → Bool) (items : List SymbolDefinition)
      → length (filter p (sort before items)) ≡ length (filter p items)
  unfolding sort filter
  count-sort p [] = refl
  count-sort p (a ∷ items) =
      let rest = count-sort p items in
      count-insert_sorted p a (sort before items)
      ∙ (elim (Bool-cases (p a)) [ inl held ↦ rw held (ap suc rest) | inr failed ↦ rw failed rest ])

some_injective : {a b : List SymbolDefinition} → some a ≡ some b → a ≡ b
some_injective h = cc

no_rows : {P : Type 0} {rows : List SymbolDefinition} → none ≡ some rows → P
no_rows h = cc

-- The sign of a comparison turns with its sides.
abbrev pub IsOpposite : Option ℤ → Option ℤ → Type 0
IsOpposite none none = Unit
IsOpposite none (some b) = ⊥
IsOpposite (some a) none = ⊥
IsOpposite (some a) (some b) = (is_neg a ≡ ltb_ℤ (pos 0) b) × (ltb_ℤ (pos 0) a ≡ is_neg b)

pub difference-IsOpposite : (a b : ℤ) → IsOpposite (some (a -ℤ b)) (some (b -ℤ a))
unfolding ◌-ℤ◌
difference-IsOpposite a b = (ground arith, ground arith)

sign_of-IsOpposite :
    (a b : ℤ)
    → IsOpposite (some (sign_value (sign_of (a -ℤ b)))) (some (sign_value (sign_of (b -ℤ a))))
unfolding ◌-ℤ◌
sign_of-IsOpposite a b = (ground arith, ground arith)

is_first-one_way :
    (direction : SortDirection) (a b : Option ℤ)
    → IsOpposite a b
    → is_first direction a ≡ true
    → is_first direction b ≡ false
is_first-one_way direction none none h first = refl
is_first-one_way direction none (some b) h first = elim h [ ]
is_first-one_way ascending (some a) none h first = elim h [ ]
is_first-one_way descending (some a) none h first = elim h [ ]
is_first-one_way ascending (some a) (some b) h first = ground arith
is_first-one_way descending (some a) (some b) h first = ground arith

compare_values-IsOpposite :
    (a b : Option Text) → IsOpposite (compare_values a b) (compare_values b a)
unfolding compare
compare_values-IsOpposite none none = tt
compare_values-IsOpposite none (some b) = tt
compare_values-IsOpposite (some a) none = tt
compare_values-IsOpposite (some a) (some b) = sign_of-IsOpposite _ _

module _ (locale_compare : Text → Text → ℤ)
    (opposite : (x y : Text) → IsOpposite (some (locale_compare x y)) (some (locale_compare y x)))
    (paced : String → Option SymbolView) where
  pub compare_by-IsOpposite :
      (column : SortColumn) (a b : SymbolDefinition)
      → IsOpposite
          (compare_by locale_compare paced column a b)
          (compare_by locale_compare paced column b a)
  unfolding compare_by compare
  compare_by-IsOpposite by_symbol a b = opposite _ _
  compare_by-IsOpposite by_name a b = opposite _ _
  compare_by-IsOpposite by_price a b = sign_of-IsOpposite _ _
  compare_by-IsOpposite by_change a b = sign_of-IsOpposite _ _
  compare_by-IsOpposite by_change_percent a b = difference-IsOpposite _ _
  compare_by-IsOpposite by_volume a b = difference-IsOpposite _ _
  compare_by-IsOpposite by_value a b = compare_values-IsOpposite _ _

  comes_before-one_way :
      (state : SortState) (a b : SymbolDefinition)
      → comes_before locale_compare paced state a b ≡ true
      → comes_before locale_compare paced state b a ≡ false
  unfolding comes_before
  comes_before-one_way state a b =
      is_first-one_way state.direction _ _ (compare_by-IsOpposite state.column a b)

  -- A sort that returns has no row right after one that it comes before, and has each row as often as the
  -- filtered list.
  pub sorted-IsOrdered :
      (state : SortState) (filtered rows : List SymbolDefinition)
      → sorted locale_compare paced (some state) filtered ≡ some rows
      → IsOrdered (comes_before locale_compare paced state) rows
        × ((p : SymbolDefinition → Bool) → length (filter p rows) ≡ length (filter p filtered))
  unfolding sorted comes_before
  sorted-IsOrdered state filtered rows h =
      let before = comes_before locale_compare paced state in
      elim (Bool-cases
        (leb (length filtered) 1 || all_comparable locale_compare paced state.column filtered)) [
          | inl held ↦
              let same = some_injective (rw held at h) in
              subst
                (λ r.
                  IsOrdered before r
                  × ((p : SymbolDefinition → Bool)
                      → length (filter p r) ≡ length (filter p filtered)))
                same
                (
                  sort-IsOrdered before (comes_before-one_way state) filtered,
                  λ p. count-sort before (comes_before-one_way state) p filtered,
                )
          | inr failed ↦ no_rows (rw failed at h)
        ]
