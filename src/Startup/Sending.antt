-- ===== src/Startup/Sending.antt =====
-- Which hosts the started service fetches from: PHOTO_HOSTS against the requests of a call of `ingest`.
use foto.Base.{◌≡◌, sym, ap, ◌∙◌, subst, inl, inr, Bytes, [], All, ok}
use foto.Blob.Store.{Store}
use foto.Config.{Outside, load_config}
use foto.Eventing.{Eventing}
use foto.Fetcher.Policy.{new_fetcher}
use foto.Fetcher.Policy.Laws.{IsSafe}
use foto.Fetcher.Fetch.Laws.{fetch_sends, fetch_unlisted}
use foto.Photo.Commands.{Log}
use foto.Ingest.Rejection.{Rejection}
use foto.Ingest.Webhook.{KameraPayload, refuse, ingest}
use foto.Ingest.Webhook.Sent.{ingest-sent, ingest_unfetched}
use foto.Startup.{World, Started, Surroundings, application, run}
use foto.Startup.Cases.{start-IsStarted}

module _ (lower : Bytes → Bytes) {S : Store} (surroundings : Surroundings S) (o : Outside)
    (w : World) (st : Started) (t : Eventing) (payload : KameraPayload) (s : S.State)
    (log : Log) where
  made :
      run lower o w ≡ ok st
      → new_fetcher lower
          (load_config o).photo_hosts
          (load_config o).max_photo_bytes
          (load_config o).fetch_timeout
        ≡ ok st.fetcher
  unfolding run
  made h = (start-IsStarted lower w (load_config o) st h).fetcher

  -- Every request that the started service sends for a photograph, redirects included, goes over HTTP or
  -- HTTPS to a host that the configuration lists.
  pub run-IsSafe :
      run lower o w ≡ ok st
      → All
          (IsSafe lower (load_config o).photo_hosts)
          (ingest (application surroundings lower st t) payload s log).sent
  unfolding application
  run-IsSafe h =
      let cfg = load_config o in
      let app = application surroundings lower st t in
      elim (ingest-sent app payload s log) [
        | inl e ↦ rw e tt
        | inr e ↦
            subst (All (IsSafe lower cfg.photo_hosts)) (sym e)
              (fetch_sends lower surroundings.network cfg.photo_hosts cfg.max_photo_bytes
                cfg.fetch_timeout st.fetcher payload.image_url (made h)).0
      ]

  -- Without a host in the configuration the started service refuses every photograph: it sends no
  -- request, stores nothing and publishes nothing.
  pub run_unlisted :
      run lower o w ≡ ok st
      → (load_config o).photo_hosts ≡ []
      → (rejection : Rejection) × (ingest (application surroundings lower st t) payload s log
          ≡ refuse (application surroundings lower st t) rejection s log [])
  unfolding application
  run_unlisted h blank =
      let cfg = load_config o in
      let app = application surroundings lower st t in
      let ((e, failed), quiet) =
        fetch_unlisted lower surroundings.network cfg.photo_hosts cfg.max_photo_bytes
          cfg.fetch_timeout st.fetcher payload.image_url blank (made h) in
      let (rejection, sent, refused) = ingest_unfetched app payload s log e failed in
      let nothing : sent ≡ [] = elim (ingest-sent app payload s log) [
        | inl e ↦ sym (ap (λ r. r.sent) refused) ∙ e
        | inr e ↦ sym (ap (λ r. r.sent) refused) ∙ (e ∙ quiet)
      ] in
      (rejection, refused ∙ ap (refuse app rejection s log) nothing)
