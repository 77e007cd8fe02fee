-- ===== src/Concurrent/Invariant/Keeping.antt =====
-- What a call has stored and told stays so while others go on.
use foto.Base.{List, Bytes, All, All-map}
use foto.Blob.Store.{Store}
use foto.Photo.Messages.{PhotoRendition}
use foto.Photo.Subject.{Subject}
use foto.Photo.Commands.{Event, photographed, purged, Log}
use foto.Photo.Query.Laws.{Exists}
use foto.Ingest.Storing.Laws.{Keeps, HoldsRendition, Holds-Keeps}
use foto.Ingest.Webhook.{IngestResponse, unauthorized, rejected, accepted}
use foto.Concurrent.{
  Phase, arrived, storing_original, storing_display, storing_thumbs, publishing, answered,
}
use foto.Concurrent.Invariant.{Tells, IsKept, IsComplete, IsPhase}

-- No event of the log is lost.
abbrev pub Grows : Log → Log → Type 0
Grows log more = (res : IngestResponse) → Exists (Tells res) log → Exists (Tells res) more

module _ (S : Store) where
  pub renditions-Keeps :
      (s t : S.State) (rs : List PhotoRendition)
      → Keeps S s t
      → All (HoldsRendition S s) rs
      → All (HoldsRendition S t) rs
  renditions-Keeps s t rs keeps =
      All-map (HoldsRendition S s) (HoldsRendition S t) rs
        (λ r. Holds-Keeps S s t r.ref r.bytes keeps)

  IsKept-Keeps :
      (s t : S.State) (entry : Subject × Event) → Keeps S s t → IsKept S s entry → IsKept S t entry
  IsKept-Keeps s t (subject, photographed event) keeps h = record {
    display = Holds-Keeps S s t event.ref event.bytes keeps h.display;
    renditions = renditions-Keeps s t event.renditions keeps h.renditions;
    original = λ o e. Holds-Keeps S s t o.ref o.bytes keeps (h.original o e);
  }
  IsKept-Keeps s t (subject, purged event) keeps h = tt

  pub IsComplete-Keeps :
      (s t : S.State) (log : Log) → Keeps S s t → IsComplete S s log → IsComplete S t log
  IsComplete-Keeps s t log keeps =
      All-map (IsKept S s) (IsKept S t) log (λ entry. IsKept-Keeps s t entry keeps)

  module _ (contents : Bytes → Type 0) where
    -- What the others do does not disturb a call.
    pub phase-Keeps :
        (s t : S.State) (log more : Log) (phase : Phase)
        → Keeps S s t
        → Grows log more
        → IsPhase S contents s log phase
        → IsPhase S contents t more phase
    phase-Keeps s t log more arrived keeps grows h = tt
    phase-Keeps s t log more (storing_original team_id payload raw prepared) keeps grows h = h
    phase-Keeps s t log more (storing_display team_id payload prepared original) keeps grows h =
        (Holds-Keeps S s t original.ref original.bytes keeps h.0, h.1, h.2)
    phase-Keeps s t log more (storing_thumbs team_id payload original display n thumbs rs) keeps
          grows h =
        (
          Holds-Keeps S s t original.ref original.bytes keeps h.0,
          Holds-Keeps S s t display.ref display.bytes keeps h.1,
          renditions-Keeps s t rs keeps h.2,
          h.3,
        )
    phase-Keeps s t log more (publishing team_id payload stored) keeps grows h = (
      Holds-Keeps S s t stored.original.ref stored.original.bytes keeps h.0,
      Holds-Keeps S s t stored.display.ref stored.display.bytes keeps h.1,
      renditions-Keeps s t stored.renditions keeps h.2,
    )
    phase-Keeps s t log more (answered unauthorized) keeps grows h = tt
    phase-Keeps s t log more (answered (rejected rejection)) keeps grows h = tt
    phase-Keeps s t log more (answered (accepted res)) keeps grows h = grows res h
