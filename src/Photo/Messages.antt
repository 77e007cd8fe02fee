-- ===== src/Photo/Messages.antt =====
-- The bodies of the events, go/nathejk/table/photo/messages.go, and the command of commands.go. A
-- `time.Time` is its number of seconds since some moment before all others, `none` for the zero time.
use foto.Base.{ℕ, Bool, Option, none, List, [], Bytes}
use foto.Base.Int.{ℤ, pos}

abbrev pub Time : Type 0
Time = Option ℕ

pub record PhotoRendition : Type 0 where
  pub name : Bytes
  pub ref : Bytes
  pub content_type : Bytes
  pub bytes : ℤ
  pub width : ℤ
  pub height : ℤ

pub record PhotoOriginal : Type 0 where
  pub ref : Bytes
  pub content_type : Bytes
  pub bytes : ℤ
  pub width : ℤ
  pub height : ℤ
  pub orientation : ℤ

pub record PhotoSource : Type 0 where
  pub url : Bytes
  pub kind : Bytes
  pub fetched_at : Time

pub record PatruljePhotographed : Type 0 where
  pub team_id : Bytes
  pub year : Bytes
  pub team_number : Bytes
  pub kind : Bytes
  pub attention : Bool
  pub ref : Bytes
  pub content_type : Bytes
  pub bytes : ℤ
  pub width : ℤ
  pub height : ℤ
  pub renditions : List PhotoRendition
  pub original : Option PhotoOriginal
  pub source : Option PhotoSource
  pub captured_at : Time

pub record PatruljePhotoPurged : Type 0 where
  pub team_id : Bytes
  pub year : Bytes
  pub refs : List Bytes
  pub reason : Bytes
  pub purged_at : Time

-- The command `Photographed`.
pub record Photographed : Type 0 where
  pub year : Bytes
  pub team_id : Bytes
  pub team_number : Bytes
  pub kind : Bytes
  pub attention : Bool
  pub display : PhotoRendition
  pub renditions : List PhotoRendition
  pub original : Option PhotoOriginal
  pub source : Option PhotoSource
  pub captured_at : Time

-- Go's zero values.
abbrev pub no_original : PhotoOriginal
no_original = record {
  ref = [];
  content_type = [];
  bytes = pos 0;
  width = pos 0;
  height = pos 0;
  orientation = pos 0;
}

abbrev pub no_source : PhotoSource
no_source = record { url = []; kind = []; fetched_at = none }
