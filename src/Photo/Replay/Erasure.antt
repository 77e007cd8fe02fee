-- ===== src/Photo/Replay/Erasure.antt =====
-- What every row of the table is.
use foto.Base.{
  ◌≡◌, ◌≢◌, ◌&&◌, inl, inr, refl, sym, ap, ◌∙◌, subst, arith, Bool, true, false, Bool-cases, Option,
  none, some, Option-cases, List, [], ◌∷◌, Bytes, bytes_eq_iff, is_empty, ok, >>=-eq-ok,
  ok-injective, Result-cases,
}
use foto.Photo.Subject.{Subject, valid_photo_ref, photographed_verb, purged_verb, match_pattern}
use foto.Photo.Sql.{Formats}
use foto.Photo.Table.{
  Row, Statement, upsert, delete_refs, Message, handle_photographed, handle_purged, handle_message,
}
use foto.Photo.Table.Laws.{handle_photographed-IsRecorded}
use foto.Photo.Replay.{
  Engine, Key, key_of, same_text, key_eq, is_named, kept, Rows, apply, Database, IsDatabase,
  statement_of, deliver, replay,
}

-- What holds of a row wherever it lies.
pub record IsRow (engine : Engine) (k : Key) (row : Row) : Type 0 where
  pub own_key : key_eq engine (key_of row) k ≡ true
  pub ref_valid : valid_photo_ref row.ref ≡ true
  pub year_filled : is_empty row.year ≡ false
  pub team_filled : is_empty row.team_id ≡ false

abbrev pub AreRows : Engine → Rows → Type 0
AreRows engine rows = (k : Key) (row : Row) → rows k ≡ some row → IsRow engine k row

kept-IsRow :
    (engine : Engine) (k : Key) (o : Option Row) (row : Row)
    → ((old : Row) → o ≡ some old → IsRow engine k old)
    → IsRow engine k row
    → IsRow engine k (kept o row)
kept-IsRow engine k none row h own = own
kept-IsRow engine k (some old) row h own =
    let before = h old refl in
    record {
      own_key = before.own_key;
      ref_valid = before.ref_valid;
      year_filled = before.year_filled;
      team_filled = before.team_filled;
    }

pub &&-true-right : (a b : Bool) → a && b ≡ true → b ≡ true
&&-true-right a b h = ground arith

some-injective {ℓ} : {A : Type ℓ} {a b : A} → some a ≡ some b → a ≡ b
some-injective h = cc

-- Two keys that are one to the primary key have refs that are one to the collation.
pub key_eq-ref :
    (engine : Engine) (a b : Key)
    → key_eq engine a b ≡ true
    → engine.weight a.ref ≡ engine.weight b.ref
unfolding key_eq same_text
key_eq-ref engine a b h = (bytes_eq_iff (engine.weight a.ref) (engine.weight b.ref)).0 (
    &&-true-right (same_text engine a.kind b.kind) _ (
      &&-true-right (same_text engine a.team_id b.team_id) _
        (&&-true-right (same_text engine a.year b.year) _ h)))

-- The rows under one key have one ref.
pub IsRow-same_ref :
    (db : Database)
    → IsDatabase db
    → (k : Key) (a b : Row) → IsRow db.engine k a
    → IsRow db.engine k b
    → a.ref ≡ b.ref
IsRow-same_ref db law k a b p q = law.tells a.ref b.ref p.ref_valid q.ref_valid (
    key_eq-ref db.engine (key_of a) k p.own_key ∙ sym (key_eq-ref db.engine (key_of b) k q.own_key))

module _ (formats : Formats) (matches : Subject → Bytes → Bool) where
  statement_of-handed :
      (msg : Message) (st : Statement)
      → statement_of formats matches msg ≡ some st
      → handle_message formats matches msg ≡ ok (some st)
  unfolding statement_of
  statement_of-handed msg st h = elim (Result-cases (handle_message formats matches msg)) [
    | inl (o, e) ↦ e ∙ ap ok (rw e at h)
    | inr (x, e) ↦ absurd (cc (rw e at h))
  ]

  handle_purged-upsert : (msg : Message) (row : Row) → handle_purged msg ≢ ok (some (upsert row))
  unfolding handle_purged
  handle_purged-upsert msg row h = ground arith

  pub statement_of-photographed :
      (msg : Message) (row : Row)
      → statement_of formats matches msg ≡ some (upsert row)
      → handle_photographed formats msg ≡ ok (upsert row)
  unfolding handle_message
  statement_of-photographed msg row h =
      let handed = statement_of-handed msg (upsert row) h in
      elim (Bool-cases (matches msg.subject (match_pattern photographed_verb))) [
        | inl e ↦
            let (st, q, same) = >>=-eq-ok (handle_photographed formats msg) _ (rw e at handed) in
            q ∙ ap ok (some-injective (ok-injective same))
        | inr e ↦ elim (Bool-cases (matches msg.subject (match_pattern purged_verb))) [
          | inl f ↦ absurd (handle_purged-upsert msg row (rw (e, f) at handed))
          | inr f ↦ absurd (cc (rw (e, f) at handed))
        ]
      ]

  module _ (db : Database) (law : IsDatabase db) where
    pub upsert-IsRow :
        (msg : Message) (row : Row) (k : Key)
        → statement_of formats matches msg ≡ some (upsert row)
        → key_eq db.engine (key_of row) k ≡ true
        → IsRow db.engine k row
    upsert-IsRow msg row k h own =
        let (body, facts) =
          handle_photographed-IsRecorded formats msg row (statement_of-photographed msg row h) in
        record {
          own_key = own;
          ref_valid = facts.ref_valid;
          year_filled = facts.year_filled;
          team_filled = facts.team_filled;
        }

    pub apply-AreRows :
        (msg : Message) (st : Statement) (rows : Rows)
        → statement_of formats matches msg ≡ some st
        → AreRows db.engine rows
        → AreRows db.engine (apply db.engine st rows)
    unfolding apply
    apply-AreRows msg (upsert row) rows h good k r q =
        elim (Bool-cases (db.engine.takes row && key_eq db.engine (key_of row) k)) [
          | inl e ↦ subst (IsRow db.engine k) (some-injective (rw e at q)) (
              kept-IsRow db.engine k (rows k) row (good k)
                (upsert-IsRow msg row k h (&&-true-right _ _ e)))
          | inr e ↦ good k r (rw e at q)
        ]
    apply-AreRows msg (delete_refs year team_id refs) rows h good k r q =
        elim (Bool-cases (is_named db.engine year team_id refs k)) [
          | inl e ↦ absurd (cc (rw e at q))
          | inr e ↦ good k r (rw e at q)
        ]

    -- Every row of the table, after any log, lies under its own key, has the ref of a content for its
    -- display image, and names a year and a team, if the rows before did.
    pub replay-AreRows :
        (log : List Message) (s : db.State)
        → AreRows db.engine (db.row_at s)
        → AreRows db.engine (db.row_at (replay formats matches db log s))
    unfolding replay deliver
    replay-AreRows [] s good = good
    replay-AreRows (msg ∷ log) s good = elim (Option-cases (statement_of formats matches msg)) [
      | inl e ↦ rw (replay, deliver, e) (replay-AreRows log s good)
      | inr (st, e) ↦
          rw (replay, deliver, e)
            (replay-AreRows log (db.consume st s) (λ k row q.
              apply-AreRows msg st (db.row_at s) e good k row (sym (law.runs st s k) ∙ q)))
    ]
