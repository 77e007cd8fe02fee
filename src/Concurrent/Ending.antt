-- ===== src/Concurrent/Ending.antt =====
-- Every call comes to its end after a fixed number of its own steps.
use foto.Base.{
  ℕ, suc, ◌+◌, ◌-◌, ◌≤◌, ◌≡◌, inl, inr, refl, ap, subst, arith, Bool-cases, ◌==◌, turns, ==_refl,
  ==_iff, Option-cases, List, [], ◌∷◌, is_empty, length, if◌then◌else◌, Result-cases,
}
use foto.Blob.Store.{Store}
use foto.Fetcher.Fetch.{fetch}
use foto.Imaging.Image.{Image}
use foto.Imaging.Prepare.{Codec, Rendition, prepare, dimensions}
use foto.Imaging.Prepare.Laws.{AreThumbs, prepare_sound}
use foto.TeamNumber.{team_id_by_number}
use foto.Photo.Commands.{Log, publish}
use foto.Ingest.Webhook.{
  KameraPayload, Application, Answer, webhook_authorized, ready, broker_of, command, display_edge,
  thumbnail_edges, jpeg_quality,
}
use foto.Concurrent.{
  Call, Phase, arrived, storing_original, storing_display, storing_thumbs, publishing, answered,
  begin, put_original, put_display, put_thumb, publish_stored, proceed, System, step, run,
}

-- The steps that a call has left at most.
left : Phase → ℕ
left arrived = 7
left (storing_original team_id payload raw prepared) = 4 + length prepared.thumbs
left (storing_display team_id payload prepared original) = 3 + length prepared.thumbs
left (storing_thumbs team_id payload original display n thumbs renditions) = 2 + length thumbs
left (publishing team_id payload stored) = 1
left (answered a) = 0

length-AreThumbs :
    (codec : Codec) (img : Image) (quality : ℕ) (edges : List ℕ) (thumbs : List Rendition)
    → AreThumbs codec img quality edges thumbs
    → length thumbs ≡ length edges
length-AreThumbs codec img quality [] [] h = refl
length-AreThumbs codec img quality [] (t ∷ ts) h = absurd h
length-AreThumbs codec img quality (e ∷ es) [] h = absurd h
length-AreThumbs codec img quality (e ∷ es) (t ∷ ts) (first, h) =
    ap suc (length-AreThumbs codec img quality es ts h)

module _ {S : Store} (app : Application S) where
  begin-left : (payload : KameraPayload) → left (begin app payload) ≤ 6
  unfolding left begin
  begin-left payload = elim (Bool-cases (ready app)) [
    | inr n ↦ rw (begin, n) (omega arith)
    | inl y ↦ elim (Bool-cases (is_empty payload.image_url)) [
      | inl u ↦ rw (begin, y, u) (omega arith)
      | inr u ↦
          elim (Result-cases (team_id_by_number app.teams app.event_year payload.team_number)) [
            | inr (x, t) ↦ rw (begin, y, u, t) (omega arith)
            | inl (team_id, t) ↦
                let fetched = fetch app.unicode_lower app.network app.fetcher payload.image_url in
                elim (Result-cases fetched.0) [
                  | inr (x, f) ↦ rw (begin, y, u, t, f) (omega arith)
                  | inl (body, f) ↦
                      elim (Result-cases
                        (prepare app.codec body.0 display_edge thumbnail_edges jpeg_quality)) [
                          | inr (x, p) ↦ rw (begin, y, u, t, f, p) (omega arith)
                          | inl (prepared, p) ↦
                              let (w, h, img, good) =
                                prepare_sound app.codec body.0 display_edge thumbnail_edges
                                  jpeg_quality p in
                              let two =
                                length-AreThumbs app.codec _ jpeg_quality thumbnail_edges
                                  prepared.thumbs good.thumbs in
                              rw (begin, y, u, t, f, p) (omega (arith, two))
                        ]
                ]
          ]
    ]
  ]

-- A step takes one off.
proceed-left :
    {S : Store} (call : Call S) (phase : Phase) (s : S.State) (log : Log)
    → left (proceed call phase s log).0 ≤ left phase - 1
unfolding left proceed
proceed-left call arrived s log = elim (Bool-cases (webhook_authorized call.app call.given)) [
  | inr a ↦ rw a (omega arith)
  | inl a ↦ elim (Option-cases call.payload) [
    | inl p ↦ rw (a, p) (omega arith)
    | inr (payload, p) ↦ rw (a, p) (begin-left call.app payload)
  ]
]
proceed-left {S} call (storing_original team_id payload raw prepared) s log =
    elim (Result-cases (S.put (call.app.env 0) raw s).0) [
      | inr (x, e) ↦ rw (put_original, e) (omega arith)
      | inl (ref, e) ↦ elim (Result-cases (dimensions call.app.codec raw)) [
        | inr (x, d) ↦ rw (put_original, e, d) (omega arith)
        | inl (size, d) ↦ rw (put_original, e, d) (omega arith)
      ]
    ]
proceed-left {S} call (storing_display team_id payload prepared original) s log =
    elim (Result-cases (S.put (call.app.env 1) prepared.display.bytes s).0) [
      | inr (x, e) ↦ rw (put_display, e) (omega arith)
      | inl (ref, e) ↦ rw (put_display, e) (omega arith)
    ]
proceed-left call (storing_thumbs team_id payload original display n [] renditions) s log =
    omega arith
proceed-left {S} call (storing_thumbs team_id payload original display n (thumb ∷ thumbs) rs) s
      log =
    elim (Bool-cases (is_empty thumb.bytes)) [
      | inl e ↦ rw (put_thumb, e) (omega arith)
      | inr e ↦ elim (Result-cases (S.put (call.app.env n) thumb.bytes s).0) [
        | inr (x, p) ↦ rw (put_thumb, e, p) (omega arith)
        | inl (ref, p) ↦ rw (put_thumb, e, p) (omega arith)
      ]
    ]
proceed-left call (publishing team_id payload stored) s log =
    elim (Result-cases
      (publish (broker_of call.app call.app.photo_table) (command call.app team_id payload stored)
        log).0) [
          | inr (x, e) ↦ rw (publish_stored, e) (omega arith)
          | inl (done, e) ↦ rw (publish_stored, e) (omega arith)
        ]
proceed-left call (answered a) s log = omega arith

left-zero : (phase : Phase) → left phase ≤ 0 → (a : Answer) × (phase ≡ answered a)
unfolding left
left-zero arrived h = absurd (omega arith)
left-zero (storing_original team_id payload raw prepared) h = absurd (omega arith)
left-zero (storing_display team_id payload prepared original) h = absurd (omega arith)
left-zero (storing_thumbs team_id payload original display n thumbs rs) h = absurd (omega arith)
left-zero (publishing team_id payload stored) h = absurd (omega arith)
left-zero (answered a) h = (a, refl)

module _ {S : Store} (calls : ℕ → Call S) where
  step-left :
      (i j : ℕ) (system : System S)
      → left ((step calls j system).phases i) ≤ left (system.phases i) - (if j == i then 1 else 0)
  unfolding step
  step-left i j system = elim (Bool-cases (j == i)) [
    | inl e ↦
        subst
          (λ k.
            left (
              if j == k
              then (proceed (calls j) (system.phases j) system.objects system.log).0
              else system.phases k)
            ≤ left (system.phases k) - (if j == k then 1 else 0))
          ((==_iff j i).0 e)
          (rw (==_refl j) (proceed-left (calls j) (system.phases j) system.objects system.log))
    | inr e ↦ rw e (omega arith)
  ]

  run-left :
      (i : ℕ) (schedule : List ℕ) (system : System S)
      → left ((run calls schedule system).phases i) ≤ left (system.phases i) - turns i schedule
  unfolding run turns
  run-left i [] system = omega arith
  run-left i (j ∷ schedule) system =
      omega (arith, run-left i schedule (step calls j system), step-left i j system)

  -- A call that has arrived has its answer after seven steps of its own, whatever other calls do
  -- between them, how often they do it, and whatever the store, the broker and the network return.
  pub run-answered :
      (i : ℕ) (schedule : List ℕ) (system : System S)
      → system.phases i ≡ arrived
      → 7 ≤ turns i schedule
      → (a : Answer) × ((run calls schedule system).phases i ≡ answered a)
  unfolding left
  run-answered i schedule system here enough =
      left-zero ((run calls schedule system).phases i)
        (omega (arith, run-left i schedule system, ap left here))
