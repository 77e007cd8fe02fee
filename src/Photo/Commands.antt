-- ===== src/Photo/Commands.antt =====
-- `Publish` and `Purge` of go/nathejk/table/photo/commands.go. The publisher of package cqrs is a
-- parameter: it builds a message for a subject or has none, and sets a body and publishes or fails.
pub mod Laws
use foto.Base.{
  Bool, true, false, not, Option, none, some, List, [], ◌∷◌, Bytes, if◌then◌else◌, Result, ok, err,
  ◌>>=◌,
}
use foto.Photo.Messages.{
  PhotoRendition, Photographed, PatruljePhotographed, PatruljePhotoPurged, Time,
}
use foto.Photo.Subject.{Subject, SubjectError, photographed_subject, purge_subject, valid_photo_ref}

pub data CommandError : Type 0 where
  no_publisher : CommandError
  bad_subject : SubjectError → CommandError
  bad_display : CommandError
  no_refs : CommandError
  body_failed : CommandError
  publish_failed : CommandError

pub data Event : Type 0 where
  photographed : PatruljePhotographed → Event
  purged : PatruljePhotoPurged → Event

-- What the publisher does at one call: `MessageFunc` returns a message that is not nil, `SetBody`
-- succeeds, `Publish` succeeds.
pub record Broker : Type 0 where
  pub has_message : Bool
  pub sets_body : Bool
  pub publishes : Bool

-- What is published: the events under their subjects, the latest first.
abbrev pub Log : Type 0
Log = List (Subject × Event)

unfoldable pub publish_event : Broker → Subject → Event → Log → Result CommandError (Unit {0}) × Log
publish_event broker subject event log =
    if not broker.has_message
    then (err no_publisher, log)
    else if not broker.sets_body
    then (err body_failed, log)
    else if not broker.publishes
    then (err publish_failed, log)
    else (ok tt, (subject, event) ∷ log)

-- The body of the event of a command. `UTC` does not change the moment.
unfoldable pub event_of : Photographed → PatruljePhotographed
event_of cmd = record {
  team_id = cmd.team_id;
  year = cmd.year;
  team_number = cmd.team_number;
  kind = cmd.kind;
  attention = cmd.attention;
  ref = cmd.display.ref;
  content_type = cmd.display.content_type;
  bytes = cmd.display.bytes;
  width = cmd.display.width;
  height = cmd.display.height;
  renditions = cmd.renditions;
  original = cmd.original;
  source = cmd.source;
  captured_at = cmd.captured_at;
}

-- `none` is a table that is nil or has no publisher.
unfoldable pub publish : Option Broker → Photographed → Log → Result CommandError (Unit {0}) × Log
unfolding publish_event event_of
publish none cmd log = (err no_publisher, log)
publish (some broker) cmd log = elim (photographed_subject cmd.year cmd.team_id) [
  | err e ↦ (err (bad_subject e), log)
  | ok subject ↦
      if not (valid_photo_ref cmd.display.ref)
      then (err bad_display, log)
      else publish_event broker subject (photographed (event_of cmd)) log
]

unfoldable pub purge :
    Option Broker
    → Bytes
    → Bytes
    → Bytes
    → List Bytes
    → Time
    → Log
    → Result CommandError (Unit {0}) × Log
unfolding publish_event
purge none year team_id reason refs now log = (err no_publisher, log)
purge (some broker) year team_id reason [] now log = (err no_refs, log)
purge (some broker) year team_id reason (r ∷ refs) now log = elim (purge_subject year team_id) [
  | err e ↦ (err (bad_subject e), log)
  | ok subject ↦
      publish_event broker subject
        (purged (record {
          team_id = team_id;
          year = year;
          refs = r ∷ refs;
          reason = reason;
          purged_at = now;
        }))
        log
]
