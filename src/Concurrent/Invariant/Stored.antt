-- ===== src/Concurrent/Invariant/Stored.antt =====
-- The steps of a call up to its last `Put` keep the bytes before the events.
use foto.Base.{ℕ, inl, inr, Bool-cases, List, [], ◌∷◌, Bytes, All-append, is_empty, Result-cases}
use foto.Blob.Ref.{Sha256}
use foto.Blob.Store.{Store, IsStore, IsCollisionFree, IsAddressed}
use foto.Fetcher.Fetch.{fetch}
use foto.Imaging.Prepare.{Rendition, prepare, dimensions}
use foto.Imaging.Prepare as Prepare
use foto.TeamNumber.{team_id_by_number}
use foto.Photo.Messages.{PhotoRendition, PhotoOriginal}
use foto.Photo.Commands.{Log}
use foto.Ingest.Storing.{recorded}
use foto.Ingest.Storing.Laws.{
  Keeps, HoldsRendition, Holds-Keeps, put-IsAddressed, put-Keeps, put-Holds,
}
use foto.Ingest.Webhook.{
  KameraPayload, Application, ready, display_edge, thumbnail_edges, jpeg_quality,
}
use foto.Ingest.Webhook.Laws.{IsCorpus}
use foto.Concurrent.{
  Phase, storing_original, storing_display, storing_thumbs, Moment, begin, put_original,
  put_display, put_thumb,
}
use foto.Concurrent.Invariant.{IsComplete, IsPhase}
use foto.Concurrent.Invariant.Keeping.{Grows, IsComplete-Keeps, phase-Keeps}

module _ (sha : Sha256) (contents : Bytes → Type 0) (S : Store) where
  -- What a step of one call leaves behind.
  pub record IsStep (s : S.State) (log : Log) (m : Moment S) : Type 0 where
    pub addressed : IsAddressed sha contents S m.1
    pub keeps : Keeps S s m.1
    pub grows : Grows log m.2
    pub complete : IsComplete S m.1 m.2
    pub phase : IsPhase S contents m.1 m.2 m.0

  -- A step that publishes nothing.
  pub quiet :
      (s t : S.State) (log : Log) (phase : Phase)
      → IsAddressed sha contents S t
      → Keeps S s t
      → IsComplete S s log
      → IsPhase S contents t log phase
      → IsStep s log (phase, t, log)
  quiet s t log phase a k c h = record {
    addressed = a;
    keeps = k;
    grows = λ res e. e;
    complete = IsComplete-Keeps S s t log k c;
    phase = h;
  }

module _ (sha : Sha256) (contents : Bytes → Type 0) (S : Store) (law : IsStore sha S)
    (free : IsCollisionFree sha contents) where
  module _ (app : Application S) where
    pub begin-IsPhase :
        (payload : KameraPayload) (s : S.State) (log : Log)
        → IsCorpus contents app payload
        → IsPhase S contents s log (begin app payload)
    unfolding begin
    begin-IsPhase payload s log corpus = elim (Bool-cases (ready app)) [
      | inr n ↦ rw (begin, n) tt
      | inl y ↦ elim (Bool-cases (is_empty payload.image_url)) [
        | inl u ↦ rw (begin, y, u) tt
        | inr u ↦
            elim (Result-cases (team_id_by_number app.teams app.event_year payload.team_number)) [
              | inr (x, t) ↦ rw (begin, y, u, t) tt
              | inl (team_id, t) ↦
                  let fetched = fetch app.unicode_lower app.network app.fetcher payload.image_url in
                  elim (Result-cases fetched.0) [
                    | inr (x, f) ↦ rw (begin, y, u, t, f) tt
                    | inl (body, f) ↦
                        elim (Result-cases
                          (prepare app.codec body.0 display_edge thumbnail_edges jpeg_quality)) [
                            | inr (x, p) ↦ rw (begin, y, u, t, f, p) tt
                            | inl (prepared, p) ↦
                                let known = corpus.fetched body.0 body.1 f in
                                let rest = corpus.prepared body.0 body.1 prepared f p in
                                rw (begin, y, u, t, f, p) (known, rest.0, rest.1)
                          ]
                  ]
            ]
      ]
    ]

    pub put_original-IsStep :
        (team_id : Bytes) (payload : KameraPayload) (raw : Bytes) (prepared : Prepare.Photo)
        (s : S.State) (log : Log)
        → IsAddressed sha contents S s
        → IsComplete S s log
        → IsPhase S contents s log (storing_original team_id payload raw prepared)
        → IsStep sha contents S s log (put_original app team_id payload raw prepared s log)
    unfolding put_original
    put_original-IsStep team_id payload raw prepared s log a c h =
        let put = S.put (app.env 0) raw s in
        let after = put-IsAddressed sha contents S law free (app.env 0) raw s h.0 a in
        let keep = put-Keeps sha contents S law free (app.env 0) raw s h.0 a in
        elim (Result-cases put.0) [
          | inr (x, e) ↦ rw (put_original, e) (quiet sha contents S s put.1 log _ after keep c tt)
          | inl (ref, e) ↦ elim (Result-cases (dimensions app.codec raw)) [
            | inr (x, d) ↦
                rw (put_original, e, d) (quiet sha contents S s put.1 log _ after keep c tt)
            | inl (size, d) ↦
                let held = put-Holds sha contents S law free (app.env 0) raw s ref h.0 a e in
                rw (put_original, e, d)
                  (quiet sha contents S s put.1 log _ after keep c (held, h.1, h.2))
          ]
        ]

    pub put_display-IsStep :
        (team_id : Bytes) (payload : KameraPayload) (prepared : Prepare.Photo)
        (original : PhotoOriginal) (s : S.State) (log : Log)
        → IsAddressed sha contents S s
        → IsComplete S s log
        → IsPhase S contents s log (storing_display team_id payload prepared original)
        → IsStep sha contents S s log (put_display app team_id payload prepared original s log)
    unfolding put_display
    put_display-IsStep team_id payload prepared original s log a c h =
        let bytes = prepared.display.bytes in
        let put = S.put (app.env 1) bytes s in
        let after = put-IsAddressed sha contents S law free (app.env 1) bytes s h.1 a in
        let keep = put-Keeps sha contents S law free (app.env 1) bytes s h.1 a in
        elim (Result-cases put.0) [
          | inr (x, e) ↦ rw (put_display, e) (quiet sha contents S s put.1 log _ after keep c tt)
          | inl (ref, e) ↦
              let held = put-Holds sha contents S law free (app.env 1) bytes s ref h.1 a e in
              let kept = Holds-Keeps S s put.1 original.ref original.bytes keep h.0 in
              rw (put_display, e)
                (quiet sha contents S s put.1 log _ after keep c (kept, held, tt, h.2))
        ]

    pub put_thumb-IsStep :
        (team_id : Bytes) (payload : KameraPayload) (original : PhotoOriginal)
        (display : PhotoRendition) (n : ℕ) (thumbs : List Rendition)
        (renditions : List PhotoRendition) (s : S.State) (log : Log)
        → IsAddressed sha contents S s
        → IsComplete S s log
        → IsPhase S contents s log
            (storing_thumbs team_id payload original display n thumbs renditions)
        → IsStep sha contents S s log
            (put_thumb app team_id payload original display n thumbs renditions s log)
    unfolding put_thumb
    put_thumb-IsStep team_id payload original display n [] renditions s log a c h =
        quiet sha contents S s s log _ a (λ r b v. v) c (h.0, h.1, h.2)
    put_thumb-IsStep team_id payload original display n (thumb ∷ thumbs) renditions s log a c h =
        let bytes = thumb.bytes in
        let put = S.put (app.env n) bytes s in
        let after = put-IsAddressed sha contents S law free (app.env n) bytes s h.3.0 a in
        let keep = put-Keeps sha contents S law free (app.env n) bytes s h.3.0 a in
        elim (Bool-cases (is_empty bytes)) [
          | inl e ↦
              rw (put_thumb, e)
                (quiet sha contents S s s log _ a (λ r b v. v) c (h.0, h.1, h.2, h.3.1))
          | inr e ↦ elim (Result-cases put.0) [
            | inr (x, p) ↦ rw (put_thumb, e, p) (quiet sha contents S s put.1 log _ after keep c tt)
            | inl (ref, p) ↦
                let held = put-Holds sha contents S law free (app.env n) bytes s ref h.3.0 a p in
                let (o, d, rs, _) =
                  phase-Keeps S contents s put.1 log log
                    (storing_thumbs team_id payload original display n (thumb ∷ thumbs) renditions)
                    keep (λ res t. t) h in
                let all =
                  All-append (HoldsRendition S put.1) renditions (recorded thumb ref ∷ []) rs
                    (held, tt) in
                rw (put_thumb, e, p)
                  (quiet sha contents S s put.1 log _ after keep c (o, d, all, h.3.1))
          ]
        ]
