-- ===== src/Concurrent/Rows.antt =====
-- Every row of the read model has its bytes, whatever the calls of the webhook do to one another.
use foto.Base.{
  ℕ, ◌≡◌, inl, inr, refl, sym, ap, ◌∙◌, subst, Bool, ◌&&◌, Bool-cases, Option, none, some,
  Option-cases, List, [], ◌∷◌, All, All-append, Bytes,
}
use foto.Blob.Ref.{Sha256}
use foto.Blob.Store.{Store, IsStore, IsCollisionFree, IsAddressed}
use foto.Photo.Subject.{Subject}
use foto.Photo.Sql.{Formats}
use foto.Photo.Commands.{Event, photographed, purged, Log}
use foto.Photo.Table.{Row, Statement, upsert, delete_refs, Message}
use foto.Photo.Table.Laws.{handle_photographed-IsRecorded}
use foto.Photo.Replay.{
  Key, key_of, key_eq, is_named, Rows, kept, apply, Database, IsDatabase, statement_of, deliver,
  replay,
}
use foto.Photo.Replay.Erasure.{
  &&-true-right, IsRow, AreRows, IsRow-same_ref, statement_of-photographed, upsert-IsRow,
  apply-AreRows,
}
use foto.Ingest.Storing.Laws.{Holds}
use foto.Pipeline.{message_of, history}
use foto.Concurrent.{Call, arrived, System, run}
use foto.Concurrent.Invariant.{IsKept, IsComplete}
use foto.Concurrent.Invariant.Schedule.{AreCorpus, run-IsSettled}

some-injective {ℓ} : {A : Type ℓ} {a b : A} → some a ≡ some b → a ≡ b
some-injective h = cc

module _ (formats : Formats) (matches : Subject → Bytes → Bool) (S : Store) (s : S.State) where
  -- The display image of the row lies in the store, in the size that the row has.
  abbrev pub IsShowable : Row → Type 0
  IsShowable row = Holds S s row.ref row.bytes

  abbrev AreShowable : Rows → Type 0
  AreShowable rows = (k : Key) (row : Row) → rows k ≡ some row → IsShowable row

  -- A row that the message writes is showable.
  abbrev Writes : Message → Type 0
  Writes msg = (row : Row) → statement_of formats matches msg ≡ some (upsert row) → IsShowable row

  message-Writes : (entry : Subject × Event) → IsKept S s entry → Writes (message_of entry)
  message-Writes (subject, photographed event) h row e =
      let (body, facts) =
        handle_photographed-IsRecorded formats (message_of (subject, photographed event)) row (
          statement_of-photographed formats matches (message_of (subject, photographed event)) row
            e) in
      let same = some-injective facts.decoded in
      subst (λ r. Holds S s r row.bytes) (ap (λ b. b.ref) same ∙ sym facts.ref)
        (subst (Holds S s event.ref) (ap (λ b. b.bytes) same ∙ sym facts.bytes) h.display)
  message-Writes (subject, purged event) h row e =
      let (body, facts) =
        handle_photographed-IsRecorded formats (message_of (subject, purged event)) row
          (statement_of-photographed formats matches (message_of (subject, purged event)) row e) in
      absurd (cc facts.decoded)

  history-Writes : (log : Log) → IsComplete S s log → All Writes (history log)
  unfolding history
  history-Writes [] h = tt
  history-Writes (entry ∷ log) (h, hs) =
      All-append Writes (history log) (message_of entry ∷ []) (history-Writes log hs)
        (message-Writes entry h, tt)

  module _ (db : Database) (law : IsDatabase db) where
    -- A row that takes the place of another is about the same content.
    kept-IsShowable :
        (k : Key) (o : Option Row) (row : Row)
        → ((old : Row) → o ≡ some old → IsRow db.engine k old)
        → IsRow db.engine k row
        → IsShowable row
        → IsShowable (kept o row)
    kept-IsShowable k none row before own h = h
    kept-IsShowable k (some old) row before own h =
        subst (λ r. Holds S s r row.bytes) (IsRow-same_ref db law k row old own (before old refl)) h

    apply-AreShowable :
        (msg : Message) (st : Statement) (rows : Rows)
        → statement_of formats matches msg ≡ some st
        → Writes msg
        → AreRows db.engine rows
        → AreShowable rows
        → AreShowable (apply db.engine st rows)
    unfolding apply
    apply-AreShowable msg (upsert row) rows h writes own good k r q =
        elim (Bool-cases (db.engine.takes row && key_eq db.engine (key_of row) k)) [
          | inl e ↦ subst IsShowable (some-injective (rw e at q)) (
              kept-IsShowable k (rows k) row (own k)
                (upsert-IsRow formats matches db law msg row k h (&&-true-right _ _ e))
                (writes row h))
          | inr e ↦ good k r (rw e at q)
        ]
    apply-AreShowable msg (delete_refs year team_id refs) rows h writes own good k r q =
        elim (Bool-cases (is_named db.engine year team_id refs k)) [
          | inl e ↦ absurd (cc (rw e at q))
          | inr e ↦ good k r (rw e at q)
        ]

    replay-AreShowable :
        (log : List Message) (d : db.State)
        → All Writes log
        → AreRows db.engine (db.row_at d)
        → AreShowable (db.row_at d)
        → AreShowable (db.row_at (replay formats matches db log d))
    unfolding replay deliver
    replay-AreShowable [] d writes own good = good
    replay-AreShowable (msg ∷ log) d (first, writes) own good =
        elim (Option-cases (statement_of formats matches msg)) [
          | inl e ↦ rw (replay, deliver, e) (replay-AreShowable log d writes own good)
          | inr (st, e) ↦
              rw (replay, deliver, e)
                (replay-AreShowable log (db.consume st d) writes
                  (λ k row q.
                    apply-AreRows formats matches db law msg st (db.row_at d) e own k row
                      (sym (law.runs st d k) ∙ q))
                  (λ k row q.
                    apply-AreShowable msg st (db.row_at d) e first own good k row
                      (sym (law.runs st d k) ∙ q)))
        ]

module _ (formats : Formats) (matches : Subject → Bytes → Bool) (db : Database)
    (law : IsDatabase db) (sha : Sha256) (contents : Bytes → Type 0) (S : Store)
    (store : IsStore sha S) (free : IsCollisionFree sha contents) (calls : ℕ → Call S) where
  -- However the calls of the webhook interleave, no row points at a photograph that is not there: at every
  -- moment, in the table that the log of that moment is replayed on, the display image of every row
  -- lies in the store, in the size that the row has. The database runs statements as documented and its
  -- table is empty before; the store keeps its contract and is addressed by content, no two of the contents
  -- that the calls of the schedule store collide, the log at the start has the bytes of its photographs in the store,
  -- and the calls have just arrived.
  pub run-rows-IsShowable :
      (schedule : List ℕ) (system : System S) (d : db.State) (k : Key) (row : Row)
      → AreCorpus sha contents S store free calls schedule
      → IsAddressed sha contents S system.objects
      → IsComplete S system.objects system.log
      → ((i : ℕ) → system.phases i ≡ arrived)
      → ((k : Key) → db.row_at d k ≡ none)
      → db.row_at (replay formats matches db (history (run calls schedule system).log) d) k
        ≡ some row
      → IsShowable formats matches S (run calls schedule system).objects row
  run-rows-IsShowable schedule system d k row corpus a complete fresh blank found =
      let end = run calls schedule system in
      let settled =
        run-IsSettled sha contents S store free calls schedule system corpus a complete fresh in
      replay-AreShowable formats matches S end.objects db law (history end.log) d
        (history-Writes formats matches S end.objects end.log settled.complete)
        (λ k row q. absurd (cc (sym (blank k) ∙ q))) (λ k row q. absurd (cc (sym (blank k) ∙ q))) k
        row found
