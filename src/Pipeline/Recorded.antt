-- ===== src/Pipeline/Recorded.antt =====
-- A photograph that the webhook accepts becomes a row of the read model.
use foto.Base.{
  ◌≡◌, refl, sym, ap, ◌∙◌, subst, inl, inr, Bool, true, false, Option, none, some, List, [], ◌∷◌,
  ◌++◌, Bytes, bytes_eq_refl, is_empty, ok, ok-injective,
}
use foto.Blob.Ref.{Sha256}
use foto.Blob.Store.{Store, IsStore, IsCollisionFree, IsAddressed}
use foto.Photo.Messages.{PhotoRendition, Photographed}
use foto.Photo.Subject.{
  Subject, photographed_subject, photographed_verb, match_pattern, valid_photo_ref, subject_year,
  subject_team_id,
}
use foto.Photo.Subject.Laws.{photographed_subject_iff, photographed_subject-parts}
use foto.Photo.Sql.{Formats, encode_renditions}
use foto.Photo.Commands.{photographed, Log, event_of}
use foto.Photo.Commands.Laws.{IsPublished}
use foto.Photo.Table.{
  Row, upsert, or_else, valid_renditions, photographed_row, handle_photographed, handle_message,
}
use foto.Photo.Replay.{
  Engine, Key, key_of, same_text, key_eq, is_within, kept, Database, IsDatabase, statement_of,
  replay,
}
use foto.Photo.Replay.Laws.{
  settle, present, verdict, later-settle, last_word, last_word-last, replay-last_word,
}
use foto.Photo.Replay.Erasure.{AreRows, key_eq-ref, replay-AreRows}
use foto.Ingest.Webhook.{Application, KameraPayload, IngestResponse, command, response, ingest}
use foto.Ingest.Webhook.Laws.{IsCorpus, IsAnnounced, ingest-IsCall}
use foto.Pipeline.{message_of, history, IsMatch, IsMarshal}

encode_renditions-some :
    (formats : Formats) (l : List PhotoRendition)
    → IsMarshal formats
    → (text : Bytes) × (encode_renditions formats l ≡ some text)
unfolding encode_renditions
encode_renditions-some formats [] good = ([], refl)
encode_renditions-some formats (r ∷ l) good = good (r ∷ l)

-- The row of a command.
pub record IsRowOf (cmd : Photographed) (row : Row) : Type 0 where
  pub year : row.year ≡ cmd.year
  pub team_id : row.team_id ≡ cmd.team_id
  pub kind : row.kind ≡ cmd.kind
  pub team_number : row.team_number ≡ cmd.team_number
  pub ref : row.ref ≡ cmd.display.ref
  pub content_type : row.content_type ≡ cmd.display.content_type
  pub bytes : row.bytes ≡ cmd.display.bytes

pub or_else_filled : (field part : Bytes) → is_empty field ≡ false → or_else field part ≡ field
or_else_filled field part h = rw h refl

handle_photographed-event :
    (formats : Formats) (cmd : Photographed) (s : Subject)
    → IsMarshal formats
    → photographed_subject cmd.year cmd.team_id ≡ ok s
    → valid_photo_ref cmd.display.ref ≡ true
    → (row : Row) × IsRowOf cmd row
      × (handle_photographed formats (message_of (s, photographed (event_of cmd)))
          ≡ ok (upsert row))
unfolding handle_photographed event_of photographed_row
handle_photographed-event formats cmd s good built valid =
    let (year, _, team, _) = (photographed_subject_iff cmd.year cmd.team_id).0 (s, built) in
    let (text, e) = encode_renditions-some formats (valid_renditions cmd.renditions) good in
    (
      photographed_row formats cmd.year cmd.team_id (event_of cmd) text,
      record {
        year = refl;
        team_id = refl;
        kind = refl;
        team_number = refl;
        ref = refl;
        content_type = refl;
        bytes = refl;
      },
      rw
          (
            or_else_filled cmd.team_id (subject_team_id s) team,
            or_else_filled cmd.year (subject_year s) year,
            team,
            year,
            valid,
            e,
          )
          refl,
    )

key_eq_refl : (engine : Engine) (k : Key) → key_eq engine k k ≡ true
unfolding key_eq same_text
key_eq_refl engine k =
    rw
      (
        bytes_eq_refl (engine.weight k.year),
        bytes_eq_refl (engine.weight k.team_id),
        bytes_eq_refl (engine.weight k.kind),
        bytes_eq_refl (engine.weight k.ref),
      )
      refl

-- The key of a command's row.
abbrev key_of_command : Photographed → Key
key_of_command cmd = record {
  year = cmd.year;
  team_id = cmd.team_id;
  kind = cmd.kind;
  ref = cmd.display.ref;
}

key_of-command :
    (cmd : Photographed) (row : Row) → IsRowOf cmd row → key_of row ≡ key_of_command cmd
key_of-command cmd row h = rw (h.year, h.team_id, h.kind, h.ref) refl

kept-team_number : (o : Option Row) (row : Row) → (kept o row).team_number ≡ row.team_number
kept-team_number none row = refl
kept-team_number (some old) row = refl

module _ (formats : Formats) (matches : Subject → Bytes → Bool) (good : IsMarshal formats)
    (bus : IsMatch matches) where
  statement_of-event :
      (cmd : Photographed) (s : Subject)
      → photographed_subject cmd.year cmd.team_id ≡ ok s
      → valid_photo_ref cmd.display.ref ≡ true
      → (row : Row) × IsRowOf cmd row
        × (statement_of formats matches (message_of (s, photographed (event_of cmd)))
            ≡ some (upsert row))
  unfolding statement_of handle_message
  statement_of-event cmd s built valid =
      let (row, is_row, e) = handle_photographed-event formats cmd s good built valid in
      let (five, _, _) = photographed_subject-parts cmd.year cmd.team_id s built in
      let m : matches s (match_pattern photographed_verb) ≡ true =
        bus s cmd.year cmd.team_id photographed_verb photographed_verb (inl refl) five
        ∙ bytes_eq_refl photographed_verb in
      (row, is_row, rw (m, e) refl)

  module _ (db : Database) (law : IsDatabase db) where
    -- The columns of the table hold the row of the newest event.
    abbrev pub IsHeld : Log → Type 0
    IsHeld [] = Unit
    IsHeld (event ∷ log) =
        (row : Row)
        → statement_of formats matches (message_of event) ≡ some (upsert row)
        → is_within db.engine row ≡ true

    -- The event of a command that was published last is in the row of its key, whatever the log held before.
    pub published-row :
        (cmd : Photographed) (log after : Log) (d : db.State)
        → IsPublished cmd log after
        → IsHeld after
        → (row : Row) × (row.team_number ≡ cmd.team_number)
          × (db.row_at (replay formats matches db (history after) d) (key_of_command cmd)
              ≡ some row)
    unfolding history verdict
    published-row cmd log after d p held =
        let (row, is_row, st) = statement_of-event cmd p.subject p.built p.ref_valid in
        let msg = message_of (p.subject, photographed (event_of cmd)) in
        let k = key_of_command cmd in
        let word = last_word formats matches db.engine (history log) k in
        let fits : is_within db.engine row ≡ true = subst IsHeld p.logged held row st in
        let own : key_eq db.engine (key_of row) k ≡ true =
          ap (λ key. key_eq db.engine key k) (key_of-command cmd row is_row)
          ∙ key_eq_refl db.engine k in
        (
          kept (settle word (db.row_at d k)) row,
          kept-team_number (settle word (db.row_at d k)) row ∙ is_row.team_number,
          ap (λ l. db.row_at (replay formats matches db (history l) d) k) p.logged
              ∙ (replay-last_word formats matches db law (history log ++ msg ∷ []) d k
                  ∙ (ap (λ v. settle v (db.row_at d k))
                        (last_word-last formats matches db.engine (history log) msg k)
                      ∙ rw (st, law.holds row fits, own)
                          (sym (later-settle word (present row) (db.row_at d k))))),
        )

    module _ (sha : Sha256) (contents : Bytes → Type 0) (S : Store) (store : IsStore sha S)
        (free : IsCollisionFree sha contents) (app : Application S) (payload : KameraPayload)
        (corpus : IsCorpus contents app payload) where
      -- The key of the photograph of an answer.
      abbrev pub key_of_answer : IngestResponse → Key
      key_of_answer res = record {
        year = res.year;
        team_id = res.team_id;
        kind = payload.kind;
        ref = res.ref;
      }

      -- What an accepted photograph leaves behind: the row under its key, and its display image in the
      -- store. Year, team and kind of the row are those of the key up to the collation.
      pub record IsKeptPhoto (res : IngestResponse) (objects : S.State) (d : db.State)
          : Type 0 where
        pub row : Row
        pub found : db.row_at d (key_of_answer res) ≡ some row
        pub keyed : key_eq db.engine (key_of row) (key_of_answer res) ≡ true
        pub ref : row.ref ≡ res.ref
        pub season : res.year ≡ app.event_year
        pub team_number : row.team_number ≡ payload.team_number
        pub ref_valid : valid_photo_ref row.ref ≡ true
        pub content : Bytes
        pub stored : S.view objects row.ref ≡ some content

      announced-kept :
          (objects : S.State) (log after : Log) (res : IngestResponse) (d : db.State)
          → AreRows db.engine (db.row_at d)
          → IsHeld after
          → IsAnnounced sha contents S store free app payload corpus objects log after res
          → IsKeptPhoto res objects (replay formats matches db (history after) d)
      unfolding command response
      announced-kept objects log after res d rows held a =
          let cmd = command app a.team_id payload a.stored in
          let (row, number, found) = published-row cmd log after d a.published held in
          let end = replay formats matches db (history after) d in
          let facts =
            replay-AreRows formats matches db law (history after) d rows (key_of_command cmd) row
              found in
          let ref : row.ref ≡ cmd.display.ref =
            law.tells row.ref cmd.display.ref facts.ref_valid a.published.ref_valid
              (key_eq-ref db.engine (key_of row) (key_of_command cmd) facts.own_key) in
          let (content, stored, _) = a.display in
          subst (λ r. IsKeptPhoto r objects end) (sym a.answered)
            (record {
              row = row;
              found = found;
              keyed = facts.own_key;
              ref = ref;
              season = refl;
              team_number = number;
              ref_valid = facts.ref_valid;
              content = content;
              stored = ap (S.view objects) ref ∙ stored;
            })

      -- A photograph that the webhook accepts is recorded: the replay of the log that the call leaves,
      -- on any table of photographs, has a row under the year, the team and the ref of the answer and the kind
      -- of the payload, with that ref and the number of the payload, if the columns hold the row, and the
      -- store has the display image under that ref.
      pub ingest-IsKeptPhoto :
          (s : S.State) (log : Log) (res : IngestResponse) (d : db.State)
          → IsAddressed sha contents S s
          → AreRows db.engine (db.row_at d)
          → IsHeld (ingest app payload s log).log
          → (ingest app payload s log).outcome ≡ ok res
          → IsKeptPhoto res
              (ingest app payload s log).objects
              (replay formats matches db (history (ingest app payload s log).log) d)
      ingest-IsKeptPhoto s log res d addressed rows held accepted =
          elim (ingest-IsCall sha contents S store free app payload corpus s log
            addressed).outcome [
              | inl (rejection, refused, _, _) ↦ absurd (cc (sym refused ∙ accepted))
              | inr (answer, e, announced) ↦
                  announced-kept (ingest app payload s log).objects log
                    (ingest app payload s log).log res d rows held
                    (subst
                      (λ a.
                        IsAnnounced sha contents S store free app payload corpus
                          (ingest app payload s log).objects log (ingest app payload s log).log a)
                      (ok-injective (sym e ∙ accepted)) announced)
            ]
