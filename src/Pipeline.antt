-- ===== src/Pipeline.antt =====
-- From the webhook to the read model and back out: an event that go/cmd/api/callback.go publishes, as
-- go/nathejk/table/photo/table.go receives it and go/cmd/api/photos.go answers from it. The bus between
-- them is a parameter: it hands every message of the log over in order, and matches subjects.
pub mod Recorded
pub mod Erased
pub mod Lasting
pub mod Shown
pub mod Told
pub mod Addressed
use foto.Base.{◌≡◌, ◌⊎◌, Bool, Option, none, some, List, [], ◌∷◌, ◌++◌, Bytes, bytes_eq}
use foto.Photo.Messages.{PhotoRendition}
use foto.Photo.Subject.{
  Subject, parts, stream_domain, entity_token, photographed_verb, purged_verb, match_pattern,
}
use foto.Photo.Sql.{Formats}
use foto.Photo.Commands.{Event, photographed, purged, Log}
use foto.Photo.Table.{Message}

-- The message that brings an event of the log: its body decodes to what was encoded.
abbrev pub message_of : Subject × Event → Message
message_of (subject, photographed body) = record {
  subject = subject;
  photographed = some body;
  purged = none;
}
message_of (subject, purged body) = record {
  subject = subject;
  photographed = none;
  purged = some body;
}

-- The messages of a log, the oldest first.
unfoldable pub history : Log → List Message
history [] = []
history (event ∷ log) = history log ++ message_of event ∷ []

-- `Match` of package cqrs with "NATHEJK.*.patrulje.*.<verb>": a subject with two parts in the places of
-- the wildcards matches the pattern of its own verb and not that of the other.
abbrev pub IsMatch : (Subject → Bytes → Bool) → Type 0
IsMatch matches =
    (s : Subject) (year team_id verb other : Bytes)
    → (other ≡ photographed_verb) ⊎ (other ≡ purged_verb)
    → parts s ≡ stream_domain ∷ year ∷ entity_token ∷ team_id ∷ verb ∷ []
    → matches s (match_pattern other) ≡ bytes_eq verb other

-- `json.Marshal` takes every list of renditions.
abbrev pub IsMarshal : Formats → Type 0
IsMarshal formats = (l : List PhotoRendition) → (text : Bytes) × (formats.marshal l ≡ some text)
