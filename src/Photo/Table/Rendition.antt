-- ===== src/Photo/Table/Rendition.antt =====
-- Which thumbnail a photograph shows first.
use foto.Base.{
  ◌≡◌, ◌⊎◌, inl, inr, refl, sym, ap, ◌∙◌, subst, arith, true, false, Bool-cases, List, [], ◌∷◌, All,
  is_empty, ltb, if◌then◌else◌,
}
use foto.Base.Int.{ℤ, pos, negsuc, ◌≤ℤ◌, ltb_ℤ}
use foto.Photo.Messages.{PhotoRendition}
use foto.Photo.Subject.{valid_photo_ref}
use foto.Photo.Table.{edge_of, better_edge, smallest_rendition, named, valid_renditions}

abbrev pub IsSized : PhotoRendition → Type 0
IsSized r = ltb_ℤ (pos 0) (edge_of r) ≡ true

-- In the list.
abbrev pub IsIn : PhotoRendition → List PhotoRendition → Type 0
IsIn r [] = ⊥
IsIn r (s ∷ rs) = (r ≡ s) ⊎ IsIn r rs

better_edge-cases :
    (a b : ℤ)
    → ltb_ℤ (pos 0) a ≡ true
    → ltb_ℤ (pos 0) b ≡ true
    → ((better_edge a b ≡ true) × (a ≤ℤ b)) ⊎ ((better_edge a b ≡ false) × (b ≤ℤ a))
unfolding better_edge
better_edge-cases (pos m) (pos n) h k = elim (Bool-cases (ltb m n)) [
  | inl p ↦ inl (ground arith, ground arith)
  | inr p ↦ inr (ground arith, ground arith)
]
better_edge-cases (negsuc m) b h k = absurd (ground arith)
better_edge-cases (pos m) (negsuc n) h k = absurd (ground arith)

≤ℤ-trans : (a b c : ℤ) → a ≤ℤ b → b ≤ℤ c → a ≤ℤ c
≤ℤ-trans a b c h k = omega arith

-- What is chosen is in the list, and no rendition in it is smaller.
pub record IsSmallest (chosen best : PhotoRendition) (rs : List PhotoRendition) : Type 0 where
  pub member : IsIn chosen (best ∷ rs)
  pub first : edge_of chosen ≤ℤ edge_of best
  pub least : All (λ r. edge_of chosen ≤ℤ edge_of r) rs

-- Among renditions whose sizes are positive, the thumbnail is one of them with the shortest longest
-- edge.
pub smallest_rendition-least :
    (best : PhotoRendition) (rs : List PhotoRendition)
    → IsSized best
    → All IsSized rs
    → IsSmallest (smallest_rendition best rs) best rs
unfolding smallest_rendition
smallest_rendition-least best [] b h = record { member = inl refl; first = omega arith; least = tt }
smallest_rendition-least best (r ∷ rs) b (p, h) =
    elim (better_edge-cases (edge_of r) (edge_of best) p b) [
      | inl (e, le) ↦
          let ih = smallest_rendition-least r rs p h in
          rw e (record {
            member = elim ih.member [ inl q ↦ inr (inl q) | inr q ↦ inr (inr q) ];
            first =
                ≤ℤ-trans (edge_of (smallest_rendition r rs)) (edge_of r) (edge_of best) ih.first le;
            least = (ih.first, ih.least);
          })
      | inr (e, le) ↦
          let ih = smallest_rendition-least best rs b h in
          rw e (record {
            member = elim ih.member [ inl q ↦ inl q | inr q ↦ inr (inr q) ];
            first = ih.first;
            least = (
              ≤ℤ-trans (edge_of (smallest_rendition best rs)) (edge_of best) (edge_of r) ih.first
                  le,
              ih.least,
            );
          })
    ]

named-keeps : (r : PhotoRendition) → ((named r).ref ≡ r.ref) × (is_empty (named r).name ≡ false)
unfolding named
named-keeps r = elim (Bool-cases (is_empty r.name)) [
  | inl e ↦ rw e (refl, refl)
  | inr e ↦ rw e (refl, e)
]

-- The renditions that are kept are those with a ref that is a content hash, and each has a name.
pub valid_renditions-All :
    (rs : List PhotoRendition)
    → All (λ r. (valid_photo_ref r.ref ≡ true) × (is_empty r.name ≡ false)) (valid_renditions rs)
unfolding valid_renditions
valid_renditions-All [] = tt
valid_renditions-All (r ∷ rs) = elim (Bool-cases (valid_photo_ref r.ref)) [
  | inl e ↦
      let (ref, name) = named-keeps r in
      subst (All _)
        (ap (λ b. if b then named r ∷ valid_renditions rs else valid_renditions rs) (sym e))
        ((ap valid_photo_ref ref ∙ e, name), valid_renditions-All rs)
  | inr e ↦ rw e (valid_renditions-All rs)
]
