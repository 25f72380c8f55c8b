-- ===== src/JsMap.antt =====
-- JavaScript's `Map` with string keys, and `Set`: entries in insertion order, which is the order of
-- iteration; writing to a key that is there keeps its place.
use tckr.Prelude.{
  suc, ◌≡◌, refl, ◌∙◌, Bool, true, false, Option, none, some, List, [], ◌∷◌, ◌++◌, String, str_eq,
  eq_iff, arith, length, if◌then◌else◌, Bool-cases, inl, inr,
}

abbrev pub JsMap {ℓ} : Type ℓ → Type ℓ
JsMap V = List (String × V)

module _ {ℓ} {V : Type ℓ} where
  -- `map.get(k)`
  unfoldable pub lookup : String → JsMap V → Option V
  lookup k [] = none
  lookup k ((j, v) ∷ m) = if str_eq j k then some v else lookup k m

  -- `map.set(k, v)`
  unfoldable pub insert : String → V → JsMap V → JsMap V
  insert k v [] = (k, v) ∷ []
  insert k v ((j, w) ∷ m) = if str_eq j k then (j, v) ∷ m else (j, w) ∷ insert k v m

  -- `map.delete(k)`
  unfoldable pub remove : String → JsMap V → JsMap V
  remove k [] = []
  remove k ((j, v) ∷ m) = if str_eq j k then m else (j, v) ∷ remove k m

  -- `map.values()`
  abbrev pub values : JsMap V → List V
  values [] = []
  values ((j, v) ∷ m) = v ∷ values m

  -- `map.keys()`
  abbrev pub keys : JsMap V → List String
  keys [] = []
  keys ((j, v) ∷ m) = j ∷ keys m

  -- A read after a write.
  pub lookup-insert :
      (written wanted : String) (value : V) (entries : JsMap V)
      → lookup wanted (insert written value entries)
        ≡ (if str_eq written wanted then some value else lookup wanted entries)
  unfolding insert lookup
  lookup-insert written wanted value [] = refl
  lookup-insert written wanted value ((key, old) ∷ entries) =
      let rest = lookup-insert written wanted value entries in
      ground (arith, eq_iff key written, eq_iff key wanted, eq_iff written wanted)

  -- A write adds a key only where it was missing.
  pub length-insert :
      (k : String) (v : V) (m : JsMap V)
      → length (insert k v m) ≡ elim (lookup k m) [ none ↦ suc (length m) | some _ ↦ length m ]
  unfolding lookup insert
  length-insert k v [] = refl
  length-insert k v ((j, w) ∷ m) = ground (arith, length-insert k v m)

  -- No key stands twice.
  abbrev pub HasDistinctKeys : JsMap V → Type ℓ
  HasDistinctKeys [] = Unit
  HasDistinctKeys ((j, v) ∷ m) = (lookup j m ≡ none) × HasDistinctKeys m

  pub insert-HasDistinctKeys :
      (k : String) (v : V) (m : JsMap V) → HasDistinctKeys m → HasDistinctKeys (insert k v m)
  unfolding insert lookup
  insert-HasDistinctKeys k v [] h = (refl, tt)
  insert-HasDistinctKeys k v ((j, w) ∷ m) (p, h) = elim (Bool-cases (str_eq j k)) [
    | inl same ↦ rw same (p, h)
    | inr other ↦ rw other (
      lookup-insert k j v m ∙ ground (arith, eq_iff k j, eq_iff j k),
      insert-HasDistinctKeys k v m h,
    )
  ]

pub str_eq_refl : (s : String) → str_eq s s ≡ true
str_eq_refl s = (eq_iff s s).1 refl

-- `Set`: its items in insertion order.
module _ where
  unfoldable pub has : String → List String → Bool
  has k [] = false
  has k (j ∷ m) = if str_eq j k then true else has k m

  -- `set.add(k)`
  unfoldable pub add : String → List String → List String
  unfolding has
  add k m = if has k m then m else m ++ k ∷ []

  -- `set.delete(k)`
  unfoldable pub delete : String → List String → List String
  delete k [] = []
  delete k (j ∷ m) = if str_eq j k then delete k m else j ∷ delete k m
