-- ===== src/Charts/Tags.antt =====
-- chart/chartScale.ts: where the two tags of the price axis are placed.
use tckr.Prelude.{◌≤◌, ◌≡◌, refl, arith, Option, none, some, Bool-cases, inl, inr}
use tckr.Prelude.Int.{ℤ, abs, ◌+ℤ◌, ◌-ℤ◌, ltb_ℤ}
use tckr.Charts.{axis_tag_height_px, is_clear, stepped_aside, place_axis_tags}

-- Two tags that are both shown keep a tag's height apart.
abbrev pub AreApart : (Option ℤ × Option ℤ) → Type 0
AreApart (none, ref) = Unit
AreApart (some last, none) = Unit
AreApart (some last, some ref) = axis_tag_height_px ≤ abs (ref -ℤ last)

-- The reference stays on its side of the last price.
abbrev pub KeepsSide : ℤ → ℤ → (Option ℤ × Option ℤ) → Type 0
KeepsSide last ref (shown, none) = ⊥
KeepsSide last ref (shown, some moved) = ltb_ℤ moved last ≡ ltb_ℤ ref last

stepped_aside-apart :
    (last ref : ℤ)
    → (axis_tag_height_px ≤ abs (stepped_aside last ref -ℤ last))
      × (ltb_ℤ (stepped_aside last ref) last ≡ ltb_ℤ ref last)
unfolding ◌+ℤ◌ ◌-ℤ◌
stepped_aside-apart last ref = (ground arith, ground arith)

-- Where both tags are shown, they are placed a tag's height apart: the last price at its own position,
-- and the reference at its own if it is far enough, or else on the side of the last price where it lies.
pub place_axis_tags-AreApart :
    (last ref : ℤ)
    → let tags = place_axis_tags (some last) (some ref) in
      AreApart tags
      × (tags.0 ≡ some last)
      × KeepsSide last ref tags
      × (axis_tag_height_px ≤ abs (ref -ℤ last) → tags.1 ≡ some ref)
unfolding place_axis_tags
place_axis_tags-AreApart last ref = elim (Bool-cases (is_clear ref last)) [
  | inl clear_of ↦ rw (clear_of, place_axis_tags) (ground arith, refl, refl, λ h. refl)
  | inr close ↦
      let (apart, side) = stepped_aside-apart last ref in
      rw (close, place_axis_tags) (apart, refl, side, λ h. ground arith)
]
