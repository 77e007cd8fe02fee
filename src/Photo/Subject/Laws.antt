-- ===== src/Photo/Subject/Laws.antt =====
-- Subjects keep a year and a team apart.
use foto.Base.{
  ℕ, ◌≡◌, ◌↔◌, refl, ap, subst, arith, true, false, none, some, List, [], ◌∷◌, Bytes, is_empty, any,
  get_elem?, ok, >>=-eq-ok, ok-injective,
}
use foto.Blob.Ref.{Sha256, compute_ref, compute_ref-lower}
use foto.Base.Split.{join, has_sep, split-join}
use foto.Photo.Subject.{
  Subject, is_forbidden, valid_subject_token, entity_subject, stream_domain, entity_token,
  photographed_subject, photographed_verb, purge_subject, purged_verb, parts, subject_part,
  subject_year, subject_team_id, valid_photo_ref,
}

forbidden-dot : (s : Bytes) → any is_forbidden s ≡ false → has_sep b'.' s ≡ false
forbidden-dot [] h = refl
forbidden-dot (c ∷ s) h = ground (arith, forbidden-dot s)

valid_subject_token-ok :
    (s : Bytes)
    → valid_subject_token s ≡ ok tt
    → (is_empty s ≡ false) × (any is_forbidden s ≡ false)
unfolding valid_subject_token
valid_subject_token-ok s h = ground arith

part_of : ℕ → List Bytes → Bytes
part_of i l = elim (get_elem? l i) [ none ↦ [] | some part ↦ part ]

entity_subject-parts :
    (year team_id verb : Bytes) (s : Subject)
    → has_sep b'.' verb ≡ false
    → entity_subject year team_id verb ≡ ok s
    → parts s ≡ stream_domain ∷ year ∷ entity_token ∷ team_id ∷ verb ∷ []
unfolding entity_subject
entity_subject-parts year team_id verb s v h =
    let (_, y, h1) = >>=-eq-ok (valid_subject_token year) _ h in
    let (_, t, h2) = >>=-eq-ok (valid_subject_token team_id) _ h1 in
    let year_dot = forbidden-dot year (valid_subject_token-ok year y).1 in
    let team_dot = forbidden-dot team_id (valid_subject_token-ok team_id t).1 in
    subst (λ u. parts u ≡ stream_domain ∷ year ∷ entity_token ∷ team_id ∷ verb ∷ [])
      (ok-injective h2)
      (split-join b'.' stream_domain (year ∷ entity_token ∷ team_id ∷ verb ∷ [])
        (refl, (year_dot, (refl, (team_dot, (v, tt))))))

-- The subject of an event has five parts, of which the second and the fourth are the year and the team
-- that it was built from: no year and no team can shift the parts of a subject that is built.
pub photographed_subject-parts :
    (year team_id : Bytes) (s : Subject)
    → photographed_subject year team_id ≡ ok s
    → (parts s ≡ stream_domain ∷ year ∷ entity_token ∷ team_id ∷ photographed_verb ∷ [])
      × (subject_year s ≡ year)
      × (subject_team_id s ≡ team_id)
unfolding photographed_subject subject_year subject_team_id subject_part part_of
photographed_subject-parts year team_id s h =
    let e = entity_subject-parts year team_id photographed_verb s refl h in
    (e, ap (part_of 1) e, ap (part_of 3) e)

-- A purge's subject has the same year and team at the same places.
pub purge_subject-parts :
    (year team_id : Bytes) (s : Subject)
    → purge_subject year team_id ≡ ok s
    → (parts s ≡ stream_domain ∷ year ∷ entity_token ∷ team_id ∷ purged_verb ∷ [])
      × (subject_year s ≡ year)
      × (subject_team_id s ≡ team_id)
unfolding purge_subject subject_year subject_team_id subject_part part_of
purge_subject-parts year team_id s h =
    let e = entity_subject-parts year team_id purged_verb s refl h in
    (e, ap (part_of 1) e, ap (part_of 3) e)

-- A subject is built exactly when neither the year nor the team is empty or holds a dot, a blank or a
-- wildcard.
pub photographed_subject_iff :
    (year team_id : Bytes)
    → ((s : Subject) × (photographed_subject year team_id ≡ ok s)) ↔ (
        (is_empty year ≡ false)
        × (any is_forbidden year ≡ false)
        × (is_empty team_id ≡ false)
        × (any is_forbidden team_id ≡ false))
unfolding photographed_subject entity_subject valid_subject_token
photographed_subject_iff year team_id = (
  (λ p. let (s, h) = p in (ground arith, ground arith, ground arith, ground arith)),
  λ h.
      let (a, b, c, d) = h in
      (
        join b'.' (stream_domain ∷ year ∷ entity_token ∷ team_id ∷ photographed_verb ∷ []),
        rw (a, b, c, d) refl,
      ),
)

-- A purge's subject is built for the same years and teams.
pub purge_subject_iff :
    (year team_id : Bytes)
    → ((s : Subject) × (purge_subject year team_id ≡ ok s)) ↔ (
        (is_empty year ≡ false)
        × (any is_forbidden year ≡ false)
        × (is_empty team_id ≡ false)
        × (any is_forbidden team_id ≡ false))
unfolding purge_subject entity_subject valid_subject_token
purge_subject_iff year team_id = (
  (λ p. let (s, h) = p in (ground arith, ground arith, ground arith, ground arith)),
  λ h.
      let (a, b, c, d) = h in
      (
        join b'.' (stream_domain ∷ year ∷ entity_token ∷ team_id ∷ purged_verb ∷ []),
        rw (a, b, c, d) refl,
      ),
)

-- Every ref that the blob store computes passes the read model's check, which is spelled out anew here.
pub compute_ref-valid_photo_ref :
    (sha : Sha256) (content : Bytes) → valid_photo_ref (compute_ref sha content) ≡ true
unfolding valid_photo_ref
compute_ref-valid_photo_ref sha content =
    let (size, lower) = compute_ref-lower sha content in ground (arith, size, lower)
