-- ===== src/Pipeline/Lasting.antt =====
-- A purge lasts: what the projection of go/nathejk/table/photo/table.go makes of the events behind one.
use foto.Base.{
  ◌≡◌, refl, sym, ap, ◌∙◌, inl, inr, Bool, true, false, Bool-cases, none, some, Option-cases, List,
  [], ◌∷◌, ◌++◌, All, Bytes, bytes_eq, any, ok,
}
use foto.Photo.Messages.{PatruljePhotographed, Time}
use foto.Photo.Subject.{Subject, valid_photo_ref, subject_year, subject_team_id}
use foto.Photo.Sql.{Formats}
use foto.Photo.Commands.{Event, photographed, purged, Broker, Log, purge}
use foto.Photo.Table.{Row, upsert, delete_refs, Message, or_else}
use foto.Photo.Table.Laws.{handle_photographed-IsRecorded}
use foto.Photo.Replay.{
  Engine, Key, key_of, key_eq, is_named, apply, Database, IsDatabase, statement_of, deliver, replay,
}
use foto.Photo.Replay.Erasure.{statement_of-photographed}
use foto.Pipeline.{message_of, history, IsMatch}
use foto.Pipeline.Erased.{purge-erases}

-- The key of the photograph that an event is about, in the body or else in the subject.
abbrev pub event_key : Subject → PatruljePhotographed → Key
event_key s body = record {
  year = or_else body.year (subject_year s);
  team_id = or_else body.team_id (subject_team_id s);
  kind = body.kind;
  ref = body.ref;
}

-- The entry of the log is not the event of the photograph with the key.
abbrev pub IsOther : Engine → Key → Subject × Event → Type 0
IsOther engine k (s, photographed body) = key_eq engine (event_key s body) k ≡ false
IsOther engine k (s, purged body) = Unit

some-injective {ℓ} : {A : Type ℓ} {a b : A} → some a ≡ some b → a ≡ b
some-injective h = cc

module _ (formats : Formats) (matches : Subject → Bytes → Bool) (bus : IsMatch matches)
    (db : Database) (law : IsDatabase db) where
  replay-append :
      (log more : List Message) (d : db.State)
      → replay formats matches db (log ++ more) d
        ≡ replay formats matches db more (replay formats matches db log d)
  unfolding replay
  replay-append [] more d = refl
  replay-append (msg ∷ log) more d = replay-append log more (deliver formats matches db msg d)

  row-IsOther :
      (engine : Engine) (k : Key) (entry : Subject × Event) (row : Row)
      → IsOther engine k entry
      → statement_of formats matches (message_of entry) ≡ some (upsert row)
      → key_eq engine (key_of row) k ≡ false
  row-IsOther engine k (s, photographed event) row other h =
      let (body, facts) =
        handle_photographed-IsRecorded formats (message_of (s, photographed event)) row
          (statement_of-photographed formats matches (message_of (s, photographed event)) row h) in
      let same = some-injective facts.decoded in
      let keys : key_of row ≡ event_key s body =
        rw (facts.year, facts.team, facts.kind, facts.ref) refl in
      ap (λ key. key_eq engine key k) (keys ∙ ap (event_key s) (sym same)) ∙ other
  row-IsOther engine k (s, purged event) row other h =
      let (body, facts) =
        handle_photographed-IsRecorded formats (message_of (s, purged event)) row
          (statement_of-photographed formats matches (message_of (s, purged event)) row h) in
      absurd (cc facts.decoded)

  -- A key without a row has none behind the event of another photograph.
  deliver-none :
      (entry : Subject × Event) (d : db.State) (k : Key)
      → IsOther db.engine k entry
      → db.row_at d k ≡ none
      → db.row_at (deliver formats matches db (message_of entry) d) k ≡ none
  unfolding deliver apply
  deliver-none entry d k other gone =
      elim (Option-cases (statement_of formats matches (message_of entry))) [
        | inl e ↦ rw (deliver, e) gone
        | inr (upsert row, e) ↦
            let apart = row-IsOther db.engine k entry row other e in
            elim (Bool-cases (db.engine.takes row)) [
              | inl f ↦ rw (deliver, e) (law.runs (upsert row) d k ∙ rw (f, apart) gone)
              | inr f ↦ rw (deliver, e) (law.runs (upsert row) d k ∙ rw f gone)
            ]
        | inr (delete_refs year team_id refs, e) ↦
            rw (deliver, e)
              (law.runs (delete_refs year team_id refs) d k
                ∙ elim (Bool-cases (is_named db.engine year team_id refs k)) [
                  | inl f ↦ rw f refl
                  | inr f ↦ rw f gone
                ])
      ]

  -- A purge that succeeds lasts: whatever the log held before and whatever is published later, on the
  -- replay of the log, on any table, there is no row of that year and team with a ref that is a content
  -- hash and was named, as long as no later event is that of the very same photograph. The database and
  -- the bus behave as documented.
  pub purge-lasts :
      (broker : Broker) (year team_id reason : Bytes) (refs : List Bytes) (now : Time)
      (log later : Log) (d : db.State) (k : Key)
      → (purge (some broker) year team_id reason refs now log).0 ≡ ok tt
      → k.year ≡ year
      → k.team_id ≡ team_id
      → valid_photo_ref k.ref ≡ true
      → any (λ r. bytes_eq k.ref r) refs ≡ true
      → All (IsOther db.engine k) later
      → db.row_at
          (replay formats matches db
            (history (later ++ (purge (some broker) year team_id reason refs now log).1))
            d)
          k
        ≡ none
  unfolding history replay
  purge-lasts broker year team_id reason refs now log [] d k done y t v named others =
      purge-erases formats matches bus db law broker year team_id reason refs now log d k done y t v
        named
  purge-lasts broker year team_id reason refs now log (entry ∷ later) d k done y t v named
        (other, others) =
      let all = later ++ (purge (some broker) year team_id reason refs now log).1 in
      ap (λ s. db.row_at s k) (replay-append (history all) (message_of entry ∷ []) d)
      ∙ deliver-none entry (replay formats matches db (history all) d) k other
          (purge-lasts broker year team_id reason refs now log later d k done y t v named others)
