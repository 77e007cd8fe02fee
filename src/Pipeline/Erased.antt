-- ===== src/Pipeline/Erased.antt =====
-- A purge that is published erases, whatever the log held before.
use foto.Base.{
  ◌≡◌, refl, sym, ap, ◌∙◌, inl, inr, Bool, true, false, Bool-cases, none, some, List, [], ◌∷◌, ◌++◌,
  Bytes, bytes_eq, bytes_eq_iff, bytes_eq_refl, any, ok, Result-cases,
}
use foto.Photo.Messages.{PatruljePhotoPurged, Time}
use foto.Photo.Subject.{
  Subject, purge_subject, photographed_verb, purged_verb, valid_photo_ref, subject_year,
  subject_team_id,
}
use foto.Photo.Subject.Laws.{purge_subject_iff, purge_subject-parts}
use foto.Photo.Sql.{Formats}
use foto.Photo.Commands.{purged, Broker, Log, purge}
use foto.Photo.Commands.Laws.{publish_event-cases}
use foto.Photo.Table.{delete_refs, valid_refs, handle_purged, handle_message}
use foto.Photo.Replay.{Engine, Key, same_text, is_named, Database, IsDatabase, statement_of, replay}
use foto.Photo.Replay.Laws.{settle, verdict, last_word-last, replay-last_word}
use foto.Photo.Table.Laws.{List-cases}
use foto.Pipeline.{message_of, history, IsMatch}
use foto.Pipeline.Recorded.{or_else_filled}

-- The event of a purge.
abbrev pub purge_event : Bytes → Bytes → Bytes → List Bytes → Time → PatruljePhotoPurged
purge_event year team_id reason refs now = record {
  team_id = team_id;
  year = year;
  refs = refs;
  reason = reason;
  purged_at = now;
}

purge-ok :
    (broker : Broker) (year team_id reason : Bytes) (refs : List Bytes) (now : Time) (log : Log)
    → (purge (some broker) year team_id reason refs now log).0 ≡ ok tt
    → (s : Subject) × (purge_subject year team_id ≡ ok s)
      × ((purge (some broker) year team_id reason refs now log).1
          ≡ (s, purged (purge_event year team_id reason refs now)) ∷ log)
unfolding purge
purge-ok broker year team_id reason [] now log h = absurd (cc h)
purge-ok broker year team_id reason (r ∷ refs) now log h =
    elim (Result-cases (purge_subject year team_id)) [
      | inr (e, q) ↦ absurd (cc (rw (purge, q) at h))
      | inl (s, q) ↦
          elim (publish_event-cases broker s
            (purged (purge_event year team_id reason (r ∷ refs) now)) log) [
              | inl (done, after) ↦ (s, q, rw (purge, q) after)
              | inr (failed, _) ↦ absurd (failed (rw (purge, q) at h))
            ]
    ]

-- A ref that is a content hash is among the refs that a purge keeps.
valid_refs-any :
    (ref : Bytes) (refs : List Bytes)
    → valid_photo_ref ref ≡ true
    → any (λ r. bytes_eq ref r) refs ≡ true
    → any (λ r. bytes_eq ref r) (valid_refs refs) ≡ true
unfolding valid_refs
valid_refs-any ref [] v h = h
valid_refs-any ref (r ∷ refs) v h = elim (Bool-cases (bytes_eq ref r)) [
  | inl e ↦
      let same : valid_photo_ref r ≡ true =
        ap valid_photo_ref (sym ((bytes_eq_iff ref r).0 e)) ∙ v in
      rw (same, e) refl
  | inr e ↦
      let rest = valid_refs-any ref refs v (rw e at h) in
      elim (Bool-cases (valid_photo_ref r)) [ inl w ↦ rw (w, e) rest | inr w ↦ rw w rest ]
]

-- Texts that are the same are one to any collation.
same_text_refl : (engine : Engine) (a b : Bytes) → a ≡ b → same_text engine a b ≡ true
unfolding same_text
same_text_refl engine a b h =
    (bytes_eq_iff (engine.weight a) (engine.weight b)).1 (ap engine.weight h)

any-same_text :
    (engine : Engine) (ref : Bytes) (refs : List Bytes)
    → any (λ r. bytes_eq ref r) refs ≡ true
    → any (λ r. same_text engine ref r) refs ≡ true
any-same_text engine ref [] h = h
any-same_text engine ref (r ∷ refs) h = elim (Bool-cases (bytes_eq ref r)) [
  | inl e ↦ rw (same_text_refl engine ref r ((bytes_eq_iff ref r).0 e)) refl
  | inr e ↦ elim (Bool-cases (same_text engine ref r)) [
    | inl f ↦ rw f refl
    | inr f ↦ rw f (any-same_text engine ref refs (rw e at h))
  ]
]

purged_other : bytes_eq purged_verb photographed_verb ≡ false
unfolding bytes_eq
purged_other = refl

module _ (formats : Formats) (matches : Subject → Bytes → Bool) (bus : IsMatch matches) where
  statement_of-purge :
      (year team_id reason : Bytes) (refs : List Bytes) (now : Time) (s : Subject) (ref : Bytes)
      → purge_subject year team_id ≡ ok s
      → valid_photo_ref ref ≡ true
      → any (λ r. bytes_eq ref r) refs ≡ true
      → (kept : List Bytes) × (any (λ r. bytes_eq ref r) kept ≡ true)
        × (statement_of formats matches
              (message_of (s, purged (purge_event year team_id reason refs now)))
            ≡ some (delete_refs year team_id kept))
  unfolding statement_of handle_message handle_purged
  statement_of-purge year team_id reason refs now s ref built v h =
      let (year_filled, _, team_filled, _) = (purge_subject_iff year team_id).0 (s, built) in
      let (five, _, _) = purge_subject-parts year team_id s built in
      let other = bus s year team_id purged_verb photographed_verb (inl refl) five in
      let own =
        bus s year team_id purged_verb purged_verb (inr refl) five ∙ bytes_eq_refl purged_verb in
      let kept = valid_refs-any ref refs v h in
      elim (List-cases (valid_refs refs)) [
        | inl none_left ↦ absurd (cc (rw none_left at kept))
        | inr (r, rs, e) ↦ (
          r ∷ rs,
          rw e at kept,
          rw
              (
                other ∙ purged_other,
                own,
                e,
                or_else_filled team_id (subject_team_id s) team_filled,
                or_else_filled year (subject_year s) year_filled,
                team_filled,
                year_filled,
              )
              refl,
        )
      ]

  -- A purge that succeeds erases: on the replay of the log that it leaves, on any table, no row of that
  -- year and team has a ref that is a content hash and was named, whatever the log held before. The database
  -- and the bus behave as documented.
  pub purge-erases :
      (db : Database) (law : IsDatabase db) (broker : Broker) (year team_id reason : Bytes)
      (refs : List Bytes) (now : Time) (log : Log) (d : db.State) (k : Key)
      → (purge (some broker) year team_id reason refs now log).0 ≡ ok tt
      → k.year ≡ year
      → k.team_id ≡ team_id
      → valid_photo_ref k.ref ≡ true
      → any (λ r. bytes_eq k.ref r) refs ≡ true
      → db.row_at
          (replay formats matches db
            (history (purge (some broker) year team_id reason refs now log).1)
            d)
          k
        ≡ none
  unfolding history verdict is_named
  purge-erases db law broker year team_id reason refs now log d k done same_year same_team v named =
      let (s, built, logged) = purge-ok broker year team_id reason refs now log done in
      let (kept, still, st) =
        statement_of-purge year team_id reason refs now s k.ref built v named in
      let msg = message_of (s, purged (purge_event year team_id reason refs now)) in
      ap (λ l. db.row_at (replay formats matches db (history l) d) k) logged
      ∙ (replay-last_word formats matches db law (history log ++ msg ∷ []) d k
          ∙ (ap (λ v. settle v (db.row_at d k))
                (last_word-last formats matches db.engine (history log) msg k)
              ∙ rw
                  (
                    st,
                    same_text_refl db.engine k.year year same_year,
                    same_text_refl db.engine k.team_id team_id same_team,
                    any-same_text db.engine k.ref kept still,
                  )
                  refl))
