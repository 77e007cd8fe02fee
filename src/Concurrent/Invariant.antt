-- ===== src/Concurrent/Invariant.antt =====
-- Bytes before event, whatever the calls of the webhook do to one another.
pub mod Keeping
pub mod Stored
pub mod Steps
pub mod Schedule
use foto.Base.{ℕ, ◌≡◌, List, [], ◌∷◌, Bytes, All, Option, some, Result, ok, err}
use foto.Blob.Ref.{Ref, Sha256}
use foto.Blob.Store.{Store, IsAddressed}
use foto.Imaging.Prepare.{Rendition}
use foto.Imaging.Prepare as Prepare
use foto.Photo.Messages.{PhotoRendition, PhotoOriginal, PatruljePhotographed}
use foto.Photo.Subject.{Subject}
use foto.Photo.Commands.{Event, photographed, purged, Log}
use foto.Photo.Query.Laws.{Exists}
use foto.Ingest.Storing.{StoredPhoto}
use foto.Ingest.Storing.Laws.{Keeps, Holds, HoldsRendition}
use foto.Ingest.Webhook.{KameraPayload, IngestResponse, Answer, unauthorized, rejected, accepted}
use foto.Concurrent.{
  Call, Phase, arrived, storing_original, storing_display, storing_thumbs, publishing, answered,
  System,
}

-- The event of an answer.
abbrev pub Tells : IngestResponse → Subject × Event → Type 0
Tells res (subject, photographed event) =
    (event.ref ≡ res.ref)
    × (event.bytes ≡ res.bytes)
    × (event.team_id ≡ res.team_id)
    × (event.year ≡ res.year)
Tells res (subject, purged event) = ⊥

module _ (S : Store) where
  -- The store has every object that the event names, in the size that it names.
  pub record IsBacked (s : S.State) (event : PatruljePhotographed) : Type 0 where
    pub display : Holds S s event.ref event.bytes
    pub renditions : All (HoldsRendition S s) event.renditions
    pub original : (o : PhotoOriginal) → event.original ≡ some o → Holds S s o.ref o.bytes

  abbrev pub IsKept : S.State → Subject × Event → Type 0
  IsKept s (subject, photographed event) = IsBacked s event
  IsKept s (subject, purged event) = Unit

  -- Every photograph of a log has its bytes.
  abbrev pub IsComplete : S.State → Log → Type 0
  IsComplete s log = All (IsKept s) log

  module _ (contents : Bytes → Type 0) where
    abbrev pub AreContents : List Rendition → Type 0
    AreContents = All (λ r. contents r.bytes)

    -- What holds of a call at a phase: what it has stored lies in the store, and an answer that accepts is
    -- that of an event in the log.
    abbrev pub IsPhase : S.State → Log → Phase → Type 0
    IsPhase s log arrived = Unit
    IsPhase s log (storing_original team_id payload raw prepared) =
        contents raw × contents prepared.display.bytes × AreContents prepared.thumbs
    IsPhase s log (storing_display team_id payload prepared original) =
        Holds S s original.ref original.bytes
        × contents prepared.display.bytes
        × AreContents prepared.thumbs
    IsPhase s log (storing_thumbs team_id payload original display n thumbs renditions) =
        Holds S s original.ref original.bytes
        × HoldsRendition S s display
        × All (HoldsRendition S s) renditions
        × AreContents thumbs
    IsPhase s log (publishing team_id payload stored) =
        Holds S s stored.original.ref stored.original.bytes
        × HoldsRendition S s stored.display
        × All (HoldsRendition S s) stored.renditions
    IsPhase s log (answered unauthorized) = Unit
    IsPhase s log (answered (rejected rejection)) = Unit
    IsPhase s log (answered (accepted res)) = Exists (Tells res) log

    -- All calls at one moment.
    pub record IsOrderly (sha : Sha256) (system : System S) : Type 0 where
      pub addressed : IsAddressed sha contents S system.objects
      pub complete : IsComplete system.objects system.log
      pub phases : (i : ℕ) → IsPhase system.objects system.log (system.phases i)
