-- ===== src/Photo/Replay.antt =====
-- The projection over a log: `HandleMessage` of go/nathejk/table/photo/table.go on one message after the
-- other, on a database whose table has the primary key and the columns of go/nathejk/table/photo/table.sql.
-- The database is a parameter: it runs a statement, compares texts by a collation of its own, and refuses
-- an INSERT of a row that its columns do not hold, as a server in strict mode does.
pub mod Laws
pub mod Erasure
use foto.Base.{
  ℕ, ◌≡◌, Bool, true, leb, length, false, ◌&&◌, Option, none, some, List, [], ◌∷◌, Bytes, bytes_eq,
  any, if◌then◌else◌, Result, ok, err,
}
use foto.Base.Int.{ℤ, pos, negsuc, leb_ℤ}
use foto.Photo.Messages.{Time}
use foto.Photo.Subject.{Subject, valid_photo_ref}
use foto.Photo.Sql.{Formats}
use foto.Photo.Table.{Row, Statement, upsert, delete_refs, Message, TableError, handle_message}

-- PRIMARY KEY (year, teamId, type, ref)
pub record Key : Type 0 where
  pub year : Bytes
  pub team_id : Bytes
  pub kind : Bytes
  pub ref : Bytes

-- A signed INT of four bytes.
unfoldable pub fits_int : ℤ → Bool
fits_int n = leb_ℤ (negsuc 2147483647) n && leb_ℤ n (pos 2147483647)

abbrev pub key_of : Row → Key
key_of row = record { year = row.year; team_id = row.team_id; kind = row.kind; ref = row.ref }

-- What the schema leaves to the server: the collation, by the weight that texts are compared by, the
-- character set, the dates that a DATETIME takes, and the rows that an INSERT takes.
pub record Engine : Type 0 where
  pub weight : Bytes → Bytes
  pub readable : Bytes → Bool
  pub datable : Time → Bool
  pub takes : Row → Bool

module _ (engine : Engine) where
  -- Two texts are one to the collation.
  unfoldable pub same_text : Bytes → Bytes → Bool
  same_text a b = bytes_eq (engine.weight a) (engine.weight b)

  -- Two keys are one to the primary key.
  unfoldable pub key_eq : Key → Key → Bool
  unfolding same_text
  key_eq a b =
      same_text a.year b.year
      && (same_text a.team_id b.team_id && (same_text a.kind b.kind && same_text a.ref b.ref))

  -- The rows that a DELETE matches.
  unfoldable pub is_named : Bytes → Bytes → List Bytes → Key → Bool
  unfolding same_text
  is_named year team_id refs k =
      same_text k.year year && (same_text k.team_id team_id && any (λ r. same_text k.ref r) refs)

  -- A text that a column of so many characters holds: no text has more characters than bytes.
  unfoldable pub fits_text : ℕ → Bytes → Bool
  fits_text limit text = leb (length text) limit && engine.readable text

  -- The columns of the table hold the row.
  unfoldable pub is_within : Row → Bool
  unfolding fits_text
  is_within row =
      fits_text 99 row.year
      && fits_text 99 row.team_id
      && fits_text 64 row.ref
      && fits_text 99 row.kind
      && fits_text 99 row.team_number
      && fits_text 99 row.content_type
      && fits_int row.bytes
      && fits_int row.width
      && fits_int row.height
      && fits_text 65535 row.renditions
      && fits_text 64 row.thumb_ref
      && fits_text 64 row.original.ref
      && fits_text 99 row.original.content_type
      && fits_int row.original.bytes
      && fits_int row.original.width
      && fits_int row.original.height
      && fits_int row.original.orientation
      && fits_text 999 row.source_url
      && fits_text 99 row.source_kind
      && engine.datable row.captured_at

-- A table by its rows: the one under each key, if there is one.
abbrev pub Rows : Type 0
Rows = Key → Option Row

-- ON DUPLICATE KEY UPDATE leaves the columns of the key as they are, in the spelling of the old row.
abbrev pub rekey : Row → Row → Row
rekey old row = record row {
  year = old.year;
  team_id = old.team_id;
  kind = old.kind;
  ref = old.ref;
}

abbrev pub kept : Option Row → Row → Row
kept none row = row
kept (some old) row = rekey old row

-- What a statement makes of the rows. An INSERT of a row that is not taken changes nothing.
unfoldable pub apply : Engine → Statement → Rows → Rows
unfolding key_eq is_named
apply engine (upsert row) rows k =
    if engine.takes row && key_eq engine (key_of row) k then some (kept (rows k) row) else rows k
apply engine (delete_refs year team_id refs) rows k =
    if is_named engine year team_id refs k then none else rows k

pub record Database : Type 1 where
  pub State : Type 0
  pub engine : Engine
  pub row_at : State → Rows
  pub consume : Statement → State → State

-- The database runs the statements as its manual has it: it takes every row that the columns hold, and
-- no collation takes two digits or two lower-case letters of ASCII for one.
pub record IsDatabase (db : Database) : Type 0 where
  pub runs :
      (st : Statement) (s : db.State) (k : Key)
      → db.row_at (db.consume st s) k ≡ apply db.engine st (db.row_at s) k
  pub holds : (row : Row) → is_within db.engine row ≡ true → db.engine.takes row ≡ true
  pub tells :
      (a b : Bytes)
      → valid_photo_ref a ≡ true
      → valid_photo_ref b ≡ true
      → db.engine.weight a ≡ db.engine.weight b
      → a ≡ b

-- The statement that a handler hands on, if it hands one on.
abbrev pub handed_on : Result TableError (Option Statement) → Option Statement
handed_on (ok st) = st
handed_on (err e) = none

module _ (formats : Formats) (matches : Subject → Bytes → Bool) where
  unfoldable pub statement_of : Message → Option Statement
  statement_of msg = handed_on (handle_message formats matches msg)

  unfoldable pub deliver : (db : Database) → Message → db.State → db.State
  unfolding statement_of
  deliver db msg s = elim (statement_of msg) [ none ↦ s | some st ↦ db.consume st s ]

  -- The messages of a log in their order.
  unfoldable pub replay : (db : Database) → List Message → db.State → db.State
  unfolding deliver
  replay db [] s = s
  replay db (msg ∷ log) s = replay db log (deliver db msg s)
