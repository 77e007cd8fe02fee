-- ===== src/Photo/Replay/Laws.antt =====
-- What a replay leaves in the table.
use foto.Base.{
  ◌≡◌, inl, inr, refl, sym, ap, ◌∙◌, Bool, Bool-cases, ◌&&◌, Option, none, some, Option-cases, List,
  [], ◌∷◌, ◌++◌, Bytes, if◌then◌else◌,
}
use foto.Photo.Subject.{Subject}
use foto.Photo.Sql.{Formats}
use foto.Photo.Table.{Row, Statement, upsert, delete_refs, Message}
use foto.Photo.Replay.{
  Engine, Key, key_of, key_eq, is_named, Rows, rekey, kept, apply, Database, IsDatabase,
  statement_of, deliver, replay,
}

-- What an event says of one key.
pub data Verdict : Type 0 where
  silent : Verdict
  gone : Verdict
  present : Row → Verdict
  anew : Row → Verdict

unfoldable pub verdict : Engine → Statement → Key → Verdict
verdict engine (upsert row) k =
    if engine.takes row && key_eq engine (key_of row) k then present row else silent
verdict engine (delete_refs year team_id refs) k =
    if is_named engine year team_id refs k then gone else silent

-- What two words come to, the earlier one first.
abbrev pub later : Verdict → Verdict → Verdict
later v silent = v
later v gone = gone
later v (anew row) = anew row
later silent (present row) = present row
later gone (present row) = anew row
later (present old) (present row) = present (rekey old row)
later (anew old) (present row) = anew (rekey old row)

abbrev pub settle : Verdict → Option Row → Option Row
settle silent o = o
settle gone o = none
settle (present row) o = some (kept o row)
settle (anew row) o = some row

apply-settle :
    (engine : Engine) (st : Statement) (rows : Rows) (k : Key)
    → apply engine st rows k ≡ settle (verdict engine st k) (rows k)
unfolding apply verdict
apply-settle engine (upsert row) rows k =
    elim (Bool-cases (engine.takes row && key_eq engine (key_of row) k)) [
      | inl e ↦ rw e refl
      | inr e ↦ rw e refl
    ]
apply-settle engine (delete_refs year team_id refs) rows k =
    elim (Bool-cases (is_named engine year team_id refs k)) [
      | inl e ↦ rw e refl
      | inr e ↦ rw e refl
    ]

pub later-settle : (v w : Verdict) (o : Option Row) → settle w (settle v o) ≡ settle (later v w) o
later-settle v silent o = refl
later-settle v gone o = refl
later-settle v (anew row) o = refl
later-settle silent (present row) o = refl
later-settle gone (present row) o = refl
later-settle (present old) (present row) none = refl
later-settle (present old) (present row) (some r) = refl
later-settle (anew old) (present row) o = refl

later_assoc : (u v w : Verdict) → later u (later v w) ≡ later (later u v) w
later_assoc u v silent = refl
later_assoc u v gone = refl
later_assoc u v (anew row) = refl
later_assoc u silent (present row) = refl
later_assoc u gone (present row) = refl
later_assoc u (anew old) (present row) = refl
later_assoc silent (present old) (present row) = refl
later_assoc gone (present old) (present row) = refl
later_assoc (present r) (present old) (present row) = refl
later_assoc (anew r) (present old) (present row) = refl

silent-later : (v : Verdict) → later silent v ≡ v
silent-later silent = refl
silent-later gone = refl
silent-later (present row) = refl
silent-later (anew row) = refl

settle-settle : (v : Verdict) (o : Option Row) → settle v (settle v o) ≡ settle v o
settle-settle silent o = refl
settle-settle gone o = refl
settle-settle (present row) none = refl
settle-settle (present row) (some r) = refl
settle-settle (anew row) o = refl

module _ (formats : Formats) (matches : Subject → Bytes → Bool) (engine : Engine) where
  abbrev pub verdict_of : Option Statement → Key → Verdict
  verdict_of none k = silent
  verdict_of (some st) k = verdict engine st k

  -- The last word of a log on a key.
  unfoldable pub last_word : List Message → Key → Verdict
  last_word [] k = silent
  last_word (msg ∷ log) k =
      later (verdict_of (statement_of formats matches msg) k) (last_word log k)

  pub last_word-append :
      (log more : List Message) (k : Key)
      → last_word (log ++ more) k ≡ later (last_word log k) (last_word more k)
  unfolding last_word
  last_word-append [] more k = sym (silent-later (last_word more k))
  last_word-append (msg ∷ log) more k =
      ap (later (verdict_of (statement_of formats matches msg) k)) (last_word-append log more k)
      ∙ later_assoc (verdict_of (statement_of formats matches msg) k) (last_word log k)
          (last_word more k)

  -- The last message has the last word, if it has one.
  pub last_word-last :
      (log : List Message) (msg : Message) (k : Key)
      → last_word (log ++ msg ∷ []) k
        ≡ later (last_word log k) (verdict_of (statement_of formats matches msg) k)
  unfolding last_word
  last_word-last log msg k = last_word-append log (msg ∷ []) k

module _ (formats : Formats) (matches : Subject → Bytes → Bool) (db : Database)
    (law : IsDatabase db) where
  deliver-settle :
      (msg : Message) (s : db.State) (k : Key)
      → db.row_at (deliver formats matches db msg s) k
        ≡ settle
            (verdict_of formats matches db.engine (statement_of formats matches msg) k)
            (db.row_at s k)
  unfolding deliver
  deliver-settle msg s k = elim (Option-cases (statement_of formats matches msg)) [
    | inl e ↦ rw (deliver, e) refl
    | inr (st, e) ↦ rw (deliver, e) (law.runs st s k ∙ apply-settle db.engine st (db.row_at s) k)
  ]

  -- A replay implements the abstract reading of its log: at each key the table has what the last event
  -- on that key says, the row of a photograph or nothing after a purge, and where no event speaks of
  -- the key, what it had before.
  pub replay-last_word :
      (log : List Message) (s : db.State) (k : Key)
      → db.row_at (replay formats matches db log s) k
        ≡ settle (last_word formats matches db.engine log k) (db.row_at s k)
  unfolding replay last_word
  replay-last_word [] s k = refl
  replay-last_word (msg ∷ log) s k =
      replay-last_word log (deliver formats matches db msg s) k
      ∙ (ap (settle (last_word formats matches db.engine log k)) (deliver-settle msg s k)
          ∙ later-settle (verdict_of formats matches db.engine (statement_of formats matches msg) k)
              (last_word formats matches db.engine log k) (db.row_at s k))

  -- The table that a log was replayed on is unchanged by replaying the whole log again, as every start
  -- of the service does: no purged photograph comes back and none is doubled.
  pub replay-replay :
      (log : List Message) (s : db.State) (k : Key)
      → db.row_at (replay formats matches db log (replay formats matches db log s)) k
        ≡ db.row_at (replay formats matches db log s) k
  replay-replay log s k =
      replay-last_word log (replay formats matches db log s) k
      ∙ (ap (settle (last_word formats matches db.engine log k)) (replay-last_word log s k)
          ∙ (settle-settle (last_word formats matches db.engine log k) (db.row_at s k)
              ∙ sym (replay-last_word log s k)))
