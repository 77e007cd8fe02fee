-- ===== src/Examples/Routes.antt =====
-- Requests at concrete inputs, on a router that goes through the table from its top.
use foto.Base.{
  ◌≡◌, ◌⊎◌, inl, inr, refl, sym, ap, ◌∙◌, arith, true, false, not, ◌&&◌, Bool-cases, ◌==◌, Option,
  none, some, Option-cases, List, [], ◌∷◌, ◌++◌, All, Bytes, bytes_eq, bytes_eq_iff, bytes_eq_refl,
  codes, any, is_empty, if◌then◌else◌,
}
use foto.Photo.Query.Laws.{Exists}
use foto.Http.Routes.{
  Params, Handler, Pattern, exactly, with_param, Route, routes, handled, not_found, Router, Fits,
  Takes, IsRouter, Request, Service, serve_http,
}
use foto.Blob.Ref.{compute_ref}
use foto.Blob.Memory.{memory_store}
use foto.Blob.Memory.Laws.{memory_store-IsStore, memory_store-IsHonest}
use foto.Ingest.Webhook.{ingest, webhook_authorized}
use foto.Serving.{Response}
use foto.Http.Handlers.{write_photo}
use foto.Http.Routes.Laws.{serve_http-guarded}
use foto.Pipeline.Shown.{IsAnswered}
use foto.Pipeline.Addressed.{accepted-addressed}
use foto.Examples.Toy.{toy_sha, rendered}
use foto.Examples.Ingest.{
  app, payload, IsContent, contents-IsCollisionFree, app-IsCorpus, empty-IsAddressed,
}
use foto.Examples.Pipeline.{
  answered, payload-accepted, payload-IsHeld, no_rows-AreRows, toy_database,
  toy_database-IsDatabase, toy_matches, toy_matches-IsMatch, toy_formats, toy_formats-IsMarshal,
  no_rows, toy_reader,
}

-- The rest of a text behind another.
strip : Bytes → Bytes → Option Bytes
strip [] q = some q
strip (a ∷ p) [] = none
strip (a ∷ p) (b ∷ q) = if a == b then strip p q else none

strip_sound : (p q r : Bytes) → strip p q ≡ some r → q ≡ p ++ r
unfolding strip
strip_sound [] q r h = cc
strip_sound (a ∷ p) [] r h = cc
strip_sound (a ∷ p) (b ∷ q) r h = ground (arith, strip_sound p q r)

strip-append : (p r : Bytes) → strip p (p ++ r) ≡ some r
unfolding strip
strip-append [] r = refl
strip-append (a ∷ p) r = ground (arith, strip-append p r)

-- The first segment of a text, and what is behind it.
segment : Bytes → Bytes × Bytes
segment [] = ([], [])
segment (c ∷ s) = if c == b'/' then ([], c ∷ s) else (c ∷ (segment s).0, (segment s).1)

segment-append : (s : Bytes) → s ≡ (segment s).0 ++ (segment s).1
unfolding segment
segment-append [] = refl
segment-append (c ∷ s) = elim (Bool-cases (c == b'/')) [
  | inl e ↦ rw e refl
  | inr e ↦ rw (segment, e) (ap (λ t. c ∷ t) (segment-append s))
]

segment-whole : (s : Bytes) → any (λ c. c == b'/') (segment s).0 ≡ false
unfolding segment
segment-whole [] = refl
segment-whole (c ∷ s) = elim (Bool-cases (c == b'/')) [
  | inl e ↦ rw e refl
  | inr e ↦ rw (segment, e) (rw e (segment-whole s))
]

abbrev IsRest : Bytes → Type 0
IsRest after = (after ≡ []) ⊎ ((t : Bytes) × (after ≡ b'/' ∷ t))

segment-of_append :
    (value after : Bytes)
    → any (λ c. c == b'/') value ≡ false
    → IsRest after
    → segment (value ++ after) ≡ (value, after)
unfolding segment
segment-of_append [] after h (inl e) = rw e refl
segment-of_append [] after h (inr (t, e)) = rw e refl
segment-of_append (c ∷ value) after h k = ground (arith, segment-of_append value after)

fit : Pattern → Bytes → Option Params
fit (exactly text) path = if bytes_eq path text then some (λ name. []) else none
fit (with_param before name after) path = elim (strip before path) [
  | none ↦ none
  | some s ↦
      if not (is_empty (segment s).0) && bytes_eq (segment s).1 after
      then some (λ other. (segment s).0)
      else none
]

some-injective {ℓ} : {A : Type ℓ} {a b : A} → some a ≡ some b → a ≡ b
some-injective h = cc

fit_sound :
    (pattern : Pattern) (path : Bytes) (params : Params)
    → fit pattern path ≡ some params
    → Fits pattern path params
unfolding fit
fit_sound (exactly text) path params h = elim (Bool-cases (bytes_eq path text)) [
  | inl e ↦ (bytes_eq_iff path text).0 e
  | inr e ↦ absurd (cc (rw e at h))
]
fit_sound (with_param before name after) path params h = elim (Option-cases (strip before path)) [
  | inl e ↦ absurd (cc (rw (fit, e) at h))
  | inr (s, e) ↦
      let h1 = rw (fit, e) at h in
      elim (Bool-cases (is_empty (segment s).0)) [
        | inl f ↦ absurd (cc (rw f at h1))
        | inr f ↦ elim (Bool-cases (bytes_eq (segment s).1 after)) [
          | inr g ↦ absurd (cc (rw (f, g) at h1))
          | inl g ↦ (
            (segment s).0,
            (f, segment-whole s),
            strip_sound before path s e
                ∙ ap (λ t. before ++ t)
                    (segment-append s
                      ∙ ap (λ t. (segment s).0 ++ t) ((bytes_eq_iff (segment s).1 after).0 g)),
            ap (λ ps. ps name) (sym (some-injective (rw (f, g) at h1))),
          )
        ]
      ]
]

abbrev IsPattern : Pattern → Type 0
IsPattern (exactly text) = Unit
IsPattern (with_param before name after) = IsRest after

fit_complete :
    (pattern : Pattern) (path : Bytes) (params : Params)
    → IsPattern pattern
    → Fits pattern path params
    → (found : Params) × (fit pattern path ≡ some found)
unfolding fit
fit_complete (exactly text) path params k p = ((λ name. []), rw ((bytes_eq_iff path text).1 p) refl)
fit_complete (with_param before name after) path params k (value, (filled, whole), p, q) =
    let e : strip before path ≡ some (value ++ after) =
      ap (strip before) p ∙ strip-append before (value ++ after) in
    let parted = segment-of_append value after whole k in
    ((λ other. value), rw (fit, e, parted, filled, bytes_eq_refl after) refl)

toy_router : Router
unfolding fit
toy_router [] method path = not_found
toy_router (route ∷ table) method path =
    let rest = toy_router table method path in
    if bytes_eq route.method method
    then (elim (fit route.pattern path) [
      | none ↦ rest
      | some params ↦ handled route.handler params
    ])
    else rest

toy_router_sound :
    (table : List Route) (method path : Bytes) (handler : Handler) (params : Params)
    → toy_router table method path ≡ handled handler params
    → Exists (Takes method path handler params) table
unfolding toy_router
toy_router_sound [] method path handler params h = cc
toy_router_sound (route ∷ table) method path handler params h =
    elim (Bool-cases (bytes_eq route.method method)) [
      | inr m ↦ inr (toy_router_sound table method path handler params (rw m at h))
      | inl m ↦ elim (Option-cases (fit route.pattern path)) [
        | inl f ↦ inr (toy_router_sound table method path handler params (rw (m, f) at h))
        | inr (found, f) ↦
            let same = rw (m, f) at h in
            inl (
              (bytes_eq_iff route.method method).0 m,
              cc same,
              fit_sound route.pattern path params (f ∙ ap some (cc same)),
            )
      ]
    ]

toy_router_complete :
    (table : List Route) (method path : Bytes) (handler : Handler) (params : Params)
    → All (λ route. IsPattern route.pattern) table
    → Exists (Takes method path handler params) table
    → (other : Handler) × (found : Params) × (toy_router table method path ≡ handled other found)
unfolding toy_router
toy_router_complete [] method path handler params k h = absurd h
toy_router_complete (route ∷ table) method path handler params (k, ks) (inl (m, _, fits)) =
    let (found, e) = fit_complete route.pattern path params k fits in
    (route.handler, found, rw (toy_router, (bytes_eq_iff route.method method).1 m, e) refl)
toy_router_complete (route ∷ table) method path handler params (k, ks) (inr h) =
    let (other, found, e) = toy_router_complete table method path handler params ks h in
    elim (Bool-cases (bytes_eq route.method method)) [
      | inr m ↦ (other, found, rw (toy_router, m) e)
      | inl m ↦ elim (Option-cases (fit route.pattern path)) [
        | inl f ↦ (other, found, rw (toy_router, m, f) e)
        | inr (first, f) ↦ (route.handler, first, rw (toy_router, m, f) refl)
      ]
    ]

toy_router-IsRouter : IsRouter toy_router
toy_router-IsRouter = record {
  sound = λ method path handler params. toy_router_sound routes method path handler params;
  complete = λ method path handler params.
      toy_router_complete routes method path handler params
        (tt, (inr (codes "photos", refl), (tt, (inl refl, (inl refl, tt)))));
}

abbrev service : Service (memory_store toy_sha)
service = record {
  app = app;
  environment = codes "production";
  version = codes "1";
  readers = some (some toy_reader);
  formats = toy_formats;
  env = false;
  marshal = record {
    envelope = λ e. some (codes "{}");
    health = λ h. some (codes "{}");
    photos = λ year team_id photos. some (codes "[]");
  };
  outside = record {
    marshal = λ e. some (codes "{}");
    marshal_response = λ res. some (codes "{}");
    parse = λ url. none;
  };
  connection = none;
}

-- A link preview that follows the webhook's address.
abbrev preview : Request
preview = record {
  method = codes "GET";
  path = codes "/callback/kamera";
  given = codes "secret";
  payload = payload;
  is_read = true;
}

serve_http-guarded_example :
    ((preview.method ≡ codes "POST")
      × (preview.path ≡ codes "/callback/kamera")
      × (webhook_authorized app preview.given ≡ true))
    ⊎ (((serve_http service preview toy_router [] []).1 ≡ [])
        × ((serve_http service preview toy_router [] []).2 ≡ []))
serve_http-guarded_example = serve_http-guarded service preview toy_router toy_router-IsRouter [] []

-- The request for the photograph that was accepted.
abbrev shown : Request
shown = record preview {
  method = codes "HEAD";
  path = codes "/photos/" ++ compute_ref toy_sha rendered;
}

accepted-addressed_example :
    (response : Response) × (serve_http service shown toy_router
        (ingest app payload [] []).objects
        []
      ≡ (write_photo service.marshal none response, (ingest app payload [] []).objects, []))
    × IsAnswered toy_formats
        (memory_store toy_sha)
        false
        (memory_store-IsHonest toy_sha)
        toy_sha
        (memory_store-IsStore toy_sha)
        toy_reader
        response
        true
        (ingest app payload [] []).objects
        (compute_ref toy_sha rendered)
unfolding bytes_eq
accepted-addressed_example =
    accepted-addressed (memory_store toy_sha) (memory_store-IsHonest toy_sha) toy_sha
      (memory_store-IsStore toy_sha) service toy_matches toy_formats-IsMarshal toy_matches-IsMatch
      toy_database toy_database-IsDatabase IsContent contents-IsCollisionFree payload app-IsCorpus
      toy_router toy_router-IsRouter [] (ingest app payload [] []).objects [] [] answered no_rows
      toy_reader shown empty-IsAddressed no_rows-AreRows payload-IsHeld payload-accepted
      (λ r b v. v) (λ k row h e. cc e) refl refl (inr refl) refl
