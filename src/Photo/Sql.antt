-- ===== src/Photo/Sql.antt =====
-- Literals of SQL, and the renditions' column: go/nathejk/table/photo/sql.go. Package `encoding/json` and
-- `Format` of package `time` are parameters.
pub mod Literal
use foto.Base.{
  ℕ, Bool, true, false, ◌&&◌, ◌||◌, Option, none, some, List, [], ◌∷◌, ◌++◌, Bytes, codes, is_empty,
  ◌==◌, if◌then◌else◌,
}
use foto.Base.Text.{trim_space}
use foto.Photo.Messages.{Time, PhotoRendition}

-- The `switch` on one byte.
unfoldable pub escape : ℕ → Bytes
escape c =
    if c == 39
    then 92 ∷ 39 ∷ []
    else if c == 34
    then 92 ∷ 34 ∷ []
    else if c == 92
    then 92 ∷ 92 ∷ []
    else if c == 0
    then 92 ∷ b'0' ∷ []
    else if c == 10
    then 92 ∷ b'n' ∷ []
    else if c == 13
    then 92 ∷ b'r' ∷ []
    else if c == 26
    then 92 ∷ b'Z' ∷ []
    else c ∷ []

unfoldable pub escape_all : Bytes → Bytes
unfolding escape
escape_all [] = []
escape_all (c ∷ s) = escape c ++ escape_all s

unfoldable pub quote : Bytes → Bytes
unfolding escape_all
quote s = 39 ∷ escape_all s ++ 39 ∷ []

-- `json.Marshal` and `json.Unmarshal` of a list of renditions, and the UTC format of a time.
pub record Formats : Type 0 where
  pub marshal : List PhotoRendition → Option Bytes
  pub unmarshal : Bytes → Option (List PhotoRendition)
  pub format_time : ℕ → Bytes

unfoldable pub datetime : Formats → Time → Bytes
unfolding quote
datetime formats none = codes "NULL"
datetime formats (some t) = quote (formats.format_time t)

-- `none` is an error.
unfoldable pub encode_renditions : Formats → List PhotoRendition → Option Bytes
encode_renditions formats [] = some []
encode_renditions formats (r ∷ renditions) = formats.marshal (r ∷ renditions)

unfoldable pub decode_renditions : Formats → Bytes → List PhotoRendition
decode_renditions formats encoded =
    if is_empty (trim_space encoded)
    then []
    else elim (formats.unmarshal encoded) [ none ↦ [] | some renditions ↦ renditions ]
