-- ===== src/Photo/Table/Laws.antt =====
-- What the handlers make of an event.
use foto.Base.{
  ℕ, ◌≤◌, ◌≡◌, ◌≢◌, ◌⊎◌, inl, inr, refl, subst, arith, true, false, Bool-cases, Option, none, some,
  Option-cases, List, [], ◌∷◌, Bytes, All, is_empty, length, length-take, ok, >>=-eq-ok,
  ok-injective,
}
use foto.Photo.Messages.{PatruljePhotographed, PatruljePhotoPurged, PhotoOriginal, no_original}
use foto.Photo.Subject.{subject_year, subject_team_id, valid_photo_ref}
use foto.Photo.Sql.{Formats, encode_renditions}
use foto.Photo.Table.{
  Row, upsert, Message, or_else, encoded, valid_renditions, photographed_row, handle_photographed,
  valid_refs, truncate, original_of, source_of,
}

pub List-cases : (l : List Bytes) → (l ≡ []) ⊎ ((r : Bytes) × (rs : List Bytes) × (l ≡ r ∷ rs))
List-cases [] = inl refl
List-cases (r ∷ rs) = inr (r, rs, refl)

-- What a row that is written has.
pub record IsRecorded (msg : Message) (body : PatruljePhotographed) (row : Row) : Type 0 where
  pub decoded : msg.photographed ≡ some body
  pub year : row.year ≡ or_else body.year (subject_year msg.subject)
  pub team : row.team_id ≡ or_else body.team_id (subject_team_id msg.subject)
  pub year_filled : is_empty row.year ≡ false
  pub team_filled : is_empty row.team_id ≡ false
  pub ref : row.ref ≡ body.ref
  pub kind : row.kind ≡ body.kind
  pub bytes : row.bytes ≡ body.bytes
  pub ref_valid : valid_photo_ref row.ref ≡ true
  pub original_valid : (row.original ≡ no_original) ⊎ (valid_photo_ref row.original.ref ≡ true)
  pub url_short : length row.source_url ≤ 999

length-truncate : (s : Bytes) (n : ℕ) → length (truncate s n) ≤ n
unfolding truncate
length-truncate s n = ground (arith, length-take n s)

original_of-valid :
    (o : Option PhotoOriginal)
    → (original_of o ≡ no_original) ⊎ (valid_photo_ref (original_of o).ref ≡ true)
unfolding original_of
original_of-valid none = inl refl
original_of-valid (some o) = elim (Bool-cases (valid_photo_ref o.ref)) [
  | inl e ↦ rw e (inr e)
  | inr e ↦ rw e (inl refl)
]

upsert-injective : {a b : Row} → upsert a ≡ upsert b → a ≡ b
upsert-injective h = cc

-- The row of an event has the year and the team of the body or else of the subject, neither of them
-- empty; its ref is a content hash, its original is one too or is left out, and its URL fits the column.
pub handle_photographed-IsRecorded :
    (formats : Formats) (msg : Message) (row : Row)
    → handle_photographed formats msg ≡ ok (upsert row)
    → (body : PatruljePhotographed) × IsRecorded msg body row
unfolding handle_photographed photographed_row
handle_photographed-IsRecorded formats msg row h = elim (Option-cases msg.photographed) [
  | inl e ↦ absurd (cc (rw e at h))
  | inr (body, e) ↦
      let h1 = rw e at h in
      elim (Bool-cases (is_empty (or_else body.team_id (subject_team_id msg.subject)))) [
        | inl t ↦ absurd (cc (rw t at h1))
        | inr t ↦ elim (Bool-cases (is_empty (or_else body.year (subject_year msg.subject)))) [
          | inl y ↦ absurd (cc (rw (t, y) at h1))
          | inr y ↦ elim (Bool-cases (valid_photo_ref body.ref)) [
            | inr v ↦ absurd (cc (rw (t, y, v) at h1))
            | inl v ↦
                let (text, _, q) =
                  >>=-eq-ok (encoded (encode_renditions formats (valid_renditions body.renditions)))
                    _ (rw (t, y, v) at h1) in
                (
                  body,
                  subst (IsRecorded msg body) (upsert-injective (ok-injective q)) (record {
                    decoded = e;
                    year = refl;
                    team = refl;
                    year_filled = y;
                    team_filled = t;
                    ref = refl;
                    kind = refl;
                    bytes = refl;
                    ref_valid = v;
                    original_valid = original_of-valid body.original;
                    url_short = length-truncate (source_of body.source).url 999;
                  }),
                )
          ]
        ]
      ]
]

-- What a purge that deletes anything has: a year and a team, and at least one ref, all content hashes.
pub record IsPurge (msg : Message) (body : PatruljePhotoPurged) (year team_id : Bytes)
    (refs : List Bytes) : Type 0 where
  pub decoded : msg.purged ≡ some body
  pub year_is : year ≡ or_else body.year (subject_year msg.subject)
  pub team_is : team_id ≡ or_else body.team_id (subject_team_id msg.subject)
  pub year_filled : is_empty year ≡ false
  pub team_filled : is_empty team_id ≡ false
  pub refs_are : refs ≡ valid_refs body.refs
  pub refs_valid : All (λ r. valid_photo_ref r ≡ true) refs
  pub some_ref : refs ≢ []
