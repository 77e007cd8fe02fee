-- ===== src/Http/Routes/Laws.antt =====
-- Which requests get to which handler, and which of them can change anything.
use foto.Base.{
  ℕ, ◌≡◌, ◌⊎◌, inl, inr, refl, sym, ap, ◌∙◌, subst, arith, true, Bool-cases, [], ◌∷◌, ◌++◌,
  append-nil, Bytes, bytes_eq, codes,
}
use foto.Blob.Store.{Store}
use foto.Photo.Commands.{Log}
use foto.Photo.Query.Laws.{Exists}
use foto.Ingest.Webhook.{webhook_authorized, kamera_callback_handler}
use foto.Serving.{show_photo_handler}
use foto.Http.{Writer}
use foto.Http.Handlers.{write_photo}
use foto.Http.Routes.{
  Params, Handler, healthcheck, list_team_photos, kamera_callback, show_photo, routes, Match,
  handled, not_allowed, not_found, own, Router, IsSegment, Takes, IsRouter, Request, Service,
  serve_http,
}

Match-cases :
    (m : Match)
    → ((handler : Handler) × (params : Params) × (m ≡ handled handler params))
      ⊎ ((m ≡ not_allowed) ⊎ ((m ≡ not_found) ⊎ ((w : Writer) × (m ≡ own w))))
Match-cases (handled handler params) = inl (handler, params, refl)
Match-cases not_allowed = inr (inl refl)
Match-cases not_found = inr (inr (inl refl))
Match-cases (own w) = inr (inr (inr (w, refl)))

-- The one way to the webhook.
callback-route :
    (method path : Bytes) (params : Params)
    → Exists (Takes method path kamera_callback params) routes
    → (method ≡ codes "POST") × (path ≡ codes "/callback/kamera")
callback-route method path params (inl (_, h, _)) = cc
callback-route method path params (inr (inl (_, h, _))) = cc
callback-route method path params (inr (inr (inl (m, _, p)))) = (sym m, p)
callback-route method path params (inr (inr (inr (inl (_, h, _))))) = cc
callback-route method path params (inr (inr (inr (inr (inl (_, h, _)))))) = cc
callback-route method path params (inr (inr (inr (inr (inr h))))) = absurd h

module _ {S : Store} (service : Service S) (request : Request) (router : Router)
    (law : IsRouter router) (s : S.State) (log : Log) where
  -- A request changes the store or the log only if it is a POST to /callback/kamera that gives the secret,
  -- where a secret is configured: every other method, every other path, every answer of the router
  -- itself and every call without the secret leaves both as they are. The router behaves as documented.
  pub serve_http-guarded :
      ((request.method ≡ codes "POST")
        × (request.path ≡ codes "/callback/kamera")
        × (webhook_authorized service.app request.given ≡ true))
      ⊎ (((serve_http service request router s log).1 ≡ s)
          × ((serve_http service request router s log).2 ≡ log))
  unfolding serve_http kamera_callback_handler
  serve_http-guarded = elim (Match-cases (router routes request.method request.path)) [
    | inr (inl e) ↦ inr (rw (serve_http, e) (refl, refl))
    | inr (inr (inl e)) ↦ inr (rw (serve_http, e) (refl, refl))
    | inr (inr (inr (w, e))) ↦ inr (rw (serve_http, e) (refl, refl))
    | inl (healthcheck, params, e) ↦ inr (rw (serve_http, e) (refl, refl))
    | inl (list_team_photos, params, e) ↦ inr (rw (serve_http, e) (refl, refl))
    | inl (show_photo, params, e) ↦ inr (rw (serve_http, e) (refl, refl))
    | inl (kamera_callback, params, e) ↦
        elim (Bool-cases (webhook_authorized service.app request.given)) [
          | inr a ↦ inr (rw (serve_http, e, kamera_callback_handler, a) (refl, refl))
          | inl a ↦
              let (m, p) =
                callback-route request.method request.path params
                  (law.sound request.method request.path kamera_callback params e) in
              inl (m, p, a)
        ]
  ]

-- The requests for a photograph.
abbrev pub IsShow : Bytes → Type 0
IsShow method = (method ≡ codes "GET") ⊎ (method ≡ codes "HEAD")

same_ref :
    (ref value : Bytes) → codes "/photos/" ++ ref ≡ codes "/photos/" ++ (value ++ []) → value ≡ ref
same_ref ref value h = sym (append-nil value) ∙ sym (tail_eq h)
  where
    tail_eq : codes "/photos/" ++ ref ≡ codes "/photos/" ++ (value ++ []) → ref ≡ value ++ []
    tail_eq e = cc

abbrev second : Bytes → ℕ
second (a ∷ b ∷ rest) = b
second (a ∷ []) = 0
second [] = 0

-- Nothing else lies below /photos/.
photo-route :
    (method ref : Bytes) (handler : Handler) (params : Params)
    → IsShow method
    → Exists (Takes method (codes "/photos/" ++ ref) handler params) routes
    → (handler ≡ show_photo) × (params (codes "ref") ≡ ref)
photo-route method ref handler params m (inl (_, _, p)) = absurd (omega (arith, ap second p))
photo-route method ref handler params m (inr (inl (_, _, (value, _, p, _)))) =
    absurd (omega (arith, ap second p))
photo-route method ref handler params m (inr (inr (inl (_, _, p)))) =
    absurd (omega (arith, ap second p))
photo-route method ref handler params m (inr (inr (inr (inl (_, h, (value, _, p, q)))))) =
    (sym h, q ∙ same_ref ref value p)
photo-route method ref handler params m (inr (inr (inr (inr (inl (_, h, (value, _, p, q))))))) =
    (sym h, q ∙ same_ref ref value p)
photo-route method ref handler params m (inr (inr (inr (inr (inr h))))) = absurd h

photo-registered :
    (method ref : Bytes)
    → IsShow method
    → IsSegment ref
    → Exists (Takes method (codes "/photos/" ++ ref) show_photo (λ name. ref)) routes
photo-registered method ref (inl m) segment = inr (
    inr (
      inr (
        inl (
          sym m,
          refl,
          (ref, segment, ap (λ r. codes "/photos/" ++ r) (sym (append-nil ref)), refl),
        ))))
photo-registered method ref (inr m) segment = inr (
    inr (
      inr (
        inr (
          inl (
            sym m,
            refl,
            (ref, segment, ap (λ r. codes "/photos/" ++ r) (sym (append-nil ref)), refl),
          )))))

module _ {S : Store} (service : Service S) (request : Request) (router : Router)
    (law : IsRouter router) (s : S.State) (log : Log) where
  -- A GET or a HEAD of /photos/ and one more segment is answered by the handler for photographs on that
  -- segment, with the bytes exactly for a GET, and changes nothing. The router behaves as documented.
  pub serve_http-photo :
      (ref : Bytes)
      → IsShow request.method
      → IsSegment ref
      → request.path ≡ codes "/photos/" ++ ref
      → serve_http service request router s log ≡ (
        write_photo service.marshal service.connection (
            show_photo_handler service.formats S service.env service.readers service.app.has_blobs
              ref
              (bytes_eq request.method (codes "HEAD"))
              s),
        s,
        log,
      )
  unfolding serve_http
  serve_http-photo ref m segment path =
      let (handler, params, e) =
        law.complete request.method request.path show_photo (λ name. ref)
          (subst (λ p. Exists (Takes request.method p show_photo (λ name. ref)) routes) (sym path)
            (photo-registered request.method ref m segment)) in
      let (same, found) = photo-route request.method ref handler params m (
        subst (λ p. Exists (Takes request.method p handler params) routes) path
          (law.sound request.method request.path handler params e)) in
      let taken : router routes request.method request.path ≡ handled show_photo params =
        e ∙ ap (λ h. handled h params) same in
      rw (serve_http, taken, found) refl
