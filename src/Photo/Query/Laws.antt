-- ===== src/Photo/Query/Laws.antt =====
-- Which refs may be served.
use foto.Base.{
  ◌≡◌, ◌⊎◌, inl, inr, ap, ◌∙◌, true, Bool-cases, none, some, Option-cases, List, [], ◌∷◌, Bytes,
  bytes_eq, bytes_eq_iff, ok,
}
use foto.Photo.Messages.{PhotoRendition}
use foto.Photo.Subject.{valid_photo_ref}
use foto.Photo.Sql.{Formats, decode_renditions}
use foto.Photo.Table.{Row}
use foto.Photo.Query.{Reader, find_rendition, find_candidate, servable}

-- Some element has it.
abbrev pub Exists {ℓ} : {A : Type ℓ} → (A → Type 0) → List A → Type 0
Exists P [] = ⊥
Exists P (x ∷ xs) = P x ⊎ Exists P xs

-- The display image of the row, or one of its renditions.
abbrev pub Shows : Formats → Bytes → Row → Type 0
Shows formats ref row =
    (row.ref ≡ ref) ⊎ Exists (λ r. r.ref ≡ ref) (decode_renditions formats row.renditions)

abbrev TextShows : Formats → Bytes → Bytes → Type 0
TextShows formats ref text = Exists (λ r. r.ref ≡ ref) (decode_renditions formats text)

-- What the database promises: a display image found is that of a row with the ref, every candidate text
-- is the column of a row, and no row that has the ref for its display image is missed.
pub record IsReader (rows : List Row) (reader : Reader) : Type 1 where
  pub display_row :
      (ref kind : Bytes)
      → reader.display ref ≡ some (some kind)
      → Exists (λ row. (row.ref ≡ ref) × (row.content_type ≡ kind)) rows
  pub display_all :
      (ref : Bytes) → reader.display ref ≡ some none → Exists (λ row. row.ref ≡ ref) rows → ⊥
  pub candidate_rows :
      (ref : Bytes) (texts : List Bytes) (P : Bytes → Type 0)
      → reader.candidates ref ≡ some texts
      → Exists P texts
      → Exists (λ row. P row.renditions) rows

Exists-map :
    {A : Type 0} (P Q : A → Type 0) (xs : List A)
    → ((a : A) → P a → Q a)
    → Exists P xs
    → Exists Q xs
Exists-map P Q [] f h = h
Exists-map P Q (x ∷ xs) f (inl p) = inl (f x p)
Exists-map P Q (x ∷ xs) f (inr h) = inr (Exists-map P Q xs f h)

find_rendition-Exists :
    (ref : Bytes) (rs : List PhotoRendition) (kind : Bytes)
    → find_rendition ref rs ≡ some kind
    → Exists (λ r. r.ref ≡ ref) rs
unfolding find_rendition
find_rendition-Exists ref [] kind h = cc
find_rendition-Exists ref (r ∷ rs) kind h = elim (Bool-cases (bytes_eq r.ref ref)) [
  | inl e ↦ inl ((bytes_eq_iff r.ref ref).0 e)
  | inr e ↦ inr (find_rendition-Exists ref rs kind (rw e at h))
]

find_candidate-Exists :
    (formats : Formats) (ref : Bytes) (texts : List Bytes) (kind : Bytes)
    → find_candidate formats ref texts ≡ some kind
    → Exists (TextShows formats ref) texts
unfolding find_candidate
find_candidate-Exists formats ref [] kind h = cc
find_candidate-Exists formats ref (text ∷ texts) kind h =
    elim (Option-cases (find_rendition ref (decode_renditions formats text))) [
      | inl e ↦ inr (find_candidate-Exists formats ref texts kind (rw (find_candidate, e) at h))
      | inr (k, e) ↦ inl (find_rendition-Exists ref (decode_renditions formats text) k e)
    ]

-- A ref that may be served is a content hash, and some row shows it: as its display image or among its
-- renditions. A ref that is only some row's original is never served.
pub servable-Shows :
    (formats : Formats) (rows : List Row) (reader : Reader) (ref kind : Bytes)
    → IsReader rows reader
    → servable formats (some reader) ref ≡ ok kind
    → (valid_photo_ref ref ≡ true) × Exists (Shows formats ref) rows
unfolding servable
servable-Shows formats rows reader ref kind law h = elim (Bool-cases (valid_photo_ref ref)) [
  | inr v ↦ absurd (cc (rw v at h))
  | inl v ↦
      let h1 = rw v at h in
      elim (Option-cases (reader.display ref)) [
        | inl d ↦ absurd (cc (rw d at h1))
        | inr (found, d) ↦ elim (Option-cases found) [
          | inr (k, f) ↦ (
            v,
            Exists-map _ (Shows formats ref) rows (λ row p. inl p.0)
                (law.display_row ref k (d ∙ ap some f)),
          )
          | inl f ↦
              let h2 = rw (d, f) at h1 in
              elim (Option-cases (reader.candidates ref)) [
                | inl c ↦ absurd (cc (rw c at h2))
                | inr (texts, c) ↦ elim (Option-cases (find_candidate formats ref texts)) [
                  | inl g ↦ absurd (cc (rw (c, g) at h2))
                  | inr (k, g) ↦ (
                    v,
                    Exists-map _ (Shows formats ref) rows (λ row p. inr p)
                        (law.candidate_rows ref texts (TextShows formats ref) c
                          (find_candidate-Exists formats ref texts k g)),
                  )
                ]
              ]
        ]
      ]
]
