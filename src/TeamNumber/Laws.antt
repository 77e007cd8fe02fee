-- ===== src/TeamNumber/Laws.antt =====
-- What `TeamIDByNumber` answers on a table of teams.
use foto.Base.{
  ◌≤◌, ◌≡◌, ◌↔◌, ◌⊎◌, inl, inr, ◌∙◌, refl, sym, ap, subst, arith, Bool, true, false, Bool-cases,
  ◌&&◌, some, List, [], ◌∷◌, Bytes, length, take, is_empty, if◌then◌else◌, ok, err, ok-injective,
}
use foto.Base.Text.{trim_space}
use foto.TeamNumber.{empty_year, team_not_found, ambiguous, Reader, pick, team_id_by_number}

-- A row of the table `patrulje`.
pub record Team : Type 0 where
  pub year : Bytes
  pub number : Bytes
  pub id : Bytes

module _ (same : Bytes → Bytes → Bool) where
  -- The ids of the rows with a year and a number, under the database's comparison of texts.
  pub matching : List Team → Bytes → Bytes → List Bytes
  matching [] year number = []
  matching (t ∷ teams) year number =
      let rest = matching teams year number in
      if same t.year year && same t.number number then t.id ∷ rest else rest

  -- The database answers `SELECT teamId FROM patrulje WHERE year = ? AND teamNumber = ? LIMIT 2`.
  abbrev pub Answers : List Team → Reader → Type 0
  Answers teams query =
      (year number : Bytes) → query year number ≡ some (take 2 (matching teams year number))

pick-ok :
    (ids : List Bytes) (id : Bytes)
    → pick (take 2 ids) ≡ ok id
    → (ids ≡ id ∷ []) × (is_empty (trim_space id) ≡ false)
unfolding pick
pick-ok [] id h = absurd (cc h)
pick-ok (a ∷ []) id h = elim (Bool-cases (is_empty (trim_space a))) [
  | inl e ↦ absurd (cc (rw e at h))
  | inr e ↦
      let p = ok-injective (rw e at h) in
      (ap (λ x. x ∷ []) p, subst (λ x. is_empty (trim_space x) ≡ false) p e)
]
pick-ok (a ∷ b ∷ ids) id h = absurd (cc h)

pick-ambiguous : (ids : List Bytes) → (pick (take 2 ids) ≡ err ambiguous) ↔ (2 ≤ length ids)
unfolding pick
pick-ambiguous [] = ground arith
pick-ambiguous (a ∷ []) = ground arith
pick-ambiguous (a ∷ b ∷ ids) = ground arith

module _ (same : Bytes → Bytes → Bool) (teams : List Team) (query : Reader)
    (year number : Bytes) where
  abbrev found : List Bytes
  found = matching same teams (trim_space year) (trim_space number)

  resolved :
      Answers same teams query
      → is_empty (trim_space year) ≡ false
      → is_empty (trim_space number) ≡ false
      → team_id_by_number (some query) year number ≡ pick (take 2 found)
  unfolding team_id_by_number
  resolved answers y n = rw (y, n, answers (trim_space year) (trim_space number)) refl

  -- Blank values are refused before the database is asked.
  blank :
      (is_empty (trim_space year) ≡ true) ⊎ (is_empty (trim_space number) ≡ true)
      → (team_id_by_number (some query) year number ≡ err empty_year)
        ⊎ (team_id_by_number (some query) year number ≡ err team_not_found)
  unfolding team_id_by_number
  blank h = ground arith

  -- A lookup returns an id exactly when year and number are not blank and one row alone has them, and
  -- that row's id is not blank; year and number are compared without the white space around them.
  pub team_id_by_number_ok :
      (id : Bytes)
      → Answers same teams query
      → (team_id_by_number (some query) year number ≡ ok id) ↔ (
          (is_empty (trim_space year) ≡ false)
          × (is_empty (trim_space number) ≡ false)
          × (found ≡ id ∷ [])
          × (is_empty (trim_space id) ≡ false))
  unfolding pick
  team_id_by_number_ok id answers = (
    (λ h. elim (Bool-cases (is_empty (trim_space year))) [
      | inl y ↦ absurd (elim (blank (inl y)) [ inl e ↦ cc | inr e ↦ cc ])
      | inr y ↦ elim (Bool-cases (is_empty (trim_space number))) [
        | inl n ↦ absurd (elim (blank (inr n)) [ inl e ↦ cc | inr e ↦ cc ])
        | inr n ↦
            let (one, named) = pick-ok found id (sym (resolved answers y n) ∙ h) in
            (y, n, one, named)
      ]
    ]),
    λ h. resolved answers h.0 h.1 ∙ rw (h.2, h.3) refl,
  )

  -- For a year and a number that are not blank, the lookup reports an ambiguity exactly when two rows
  -- or more have them.
  pub team_id_by_number_ambiguous :
      Answers same teams query
      → is_empty (trim_space year) ≡ false
      → is_empty (trim_space number) ≡ false
      → (team_id_by_number (some query) year number ≡ err ambiguous) ↔ (2 ≤ length found)
  team_id_by_number_ambiguous answers y n = rw (resolved answers y n) (pick-ambiguous found)
