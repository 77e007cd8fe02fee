-- ===== src/Startup/Ready.antt =====
-- When the service can take a photograph: `ready` of go/cmd/api/main.go on what `run` makes, while the
-- connector works in the background.
use foto.Base.{
  ℕ, zero, suc, ◌*◌, ◌≤◌, ◌<◌, ◌≡◌, refl, sym, ◌∙◌, inl, inr, ◌↔◌, arith, true, false, Bool-cases,
  and_split, not, ◌&&◌, Bytes, is_empty, Option, none, some, ok,
}
use foto.Blob.Store.{Store}
use foto.Config.{Config}
use foto.Eventing.{Eventing, opened, Answer, advance, Reach, start, later, publisher_or_nil}
use foto.Eventing.Invariant.{Behind, publisher_or_nil_stays}
use foto.Eventing.Liveness.{run_for, is_up, connects}
use foto.Ingest.Webhook.{ready}
use foto.Startup.{World, Started, live, Surroundings, is_some, lazy_publisher, application}
use foto.Startup as Startup
use foto.Startup.Cases.{IsStarted, start-IsStarted}

-- A database and a broker are configured.
abbrev pub IsConfigured : Config → Type 0
IsConfigured cfg = (is_empty cfg.db_dsn ≡ false) × (is_empty cfg.jetstream_dsn ≡ false)

run_for-Reach :
    (answers : ℕ → Answer) (n : ℕ) (s : Eventing) → Reach s → Reach (run_for answers n s)
unfolding run_for
run_for-Reach answers zero s r = r
run_for-Reach answers (suc n) s r =
    run_for-Reach answers n (advance (answers s.attempt) s) (later r (answers s.attempt))

is_some-cases : (o : Option ℕ) → is_some o ≡ true → (c : ℕ) × (o ≡ some c)
is_some-cases none h = absurd (cc h)
is_some-cases (some c) h = (c, refl)

module _ (lower : Bytes → Bytes) {S : Store} (outside : Surroundings S) (w : World) (cfg : Config)
    (st : Started) where
  ready-held :
      (t : Eventing)
      → IsStarted lower cfg st
      → ready (application outside lower st t) ≡ (
          not (is_empty cfg.db_dsn)
          && (not (is_empty cfg.jetstream_dsn) && is_some (publisher_or_nil t)))
  unfolding ready application live lazy_publisher
  ready-held t k = elim (Bool-cases (is_empty cfg.db_dsn)) [
    | inl d ↦ rw (ready, application, k.teams, d) refl
    | inr d ↦ elim (Bool-cases (is_empty cfg.jetstream_dsn)) [
      | inl j ↦ rw (ready, application, live, k.teams, k.table, k.eventing, k.connecting, d, j) refl
      | inr j ↦ rw (ready, application, live, k.teams, k.table, k.eventing, k.connecting, d, j) refl
    ]
  ]

  -- The service is ready exactly when a database and a broker are configured and the connector has
  -- installed a publisher.
  pub ready_iff :
      (t : Eventing)
      → Startup.start lower w cfg ≡ ok st
      → (ready (application outside lower st t) ≡ true)
        ↔ (IsConfigured cfg × ((c : ℕ) × (publisher_or_nil t ≡ some c)))
  ready_iff t h =
      let e = ready-held t (start-IsStarted lower w cfg st h) in
      (
        λ r.
            let all_true = sym e ∙ r in
            let (d, rest) = and_split (not (is_empty cfg.db_dsn)) _ all_true in
            let (j, p) = and_split (not (is_empty cfg.jetstream_dsn)) _ rest in
            ((ground arith, ground arith), is_some-cases (publisher_or_nil t) p),
        λ ((d, j), (c, p)). e ∙ rw (d, j, p) refl,
      )

  -- A service that is ready stays ready, whatever the connector meets.
  pub ready_stays :
      {s t : Eventing}
      → Startup.start lower w cfg ≡ ok st
      → Reach s
      → Behind s t
      → ready (application outside lower st s) ≡ true
      → ready (application outside lower st t) ≡ true
  ready_stays {s} {t} h r b e =
      let (configured, (c, held)) = (ready_iff s h).0 e in
      (ready_iff t h).1 (configured, (c, publisher_or_nil_stays c r b held))

  -- If a database and a broker are configured, some attempt reaches the broker, and the context is not
  -- done in a pause before it, then after at most two steps of the connector for each attempt up to that
  -- one the service is ready, and it stays ready.
  pub becomes_ready :
      (answers : ℕ → Answer) (k : ℕ)
      → Startup.start lower w cfg ≡ ok st
      → IsConfigured cfg
      → 1 ≤ k
      → is_up (answers k) ≡ true
      → ((j : ℕ) → j < k → (answers j).cancelled ≡ false)
      → (n : ℕ) × (n ≤ 2 * k)
        × ((t : Eventing)
            → Behind (run_for answers n opened) t
            → ready (application outside lower st t) ≡ true)
  becomes_ready answers k h configured pos u calm =
      let (n, c, few, _, held) = connects answers k pos u calm in
      (
        n,
        few,
        λ t b.
            ready_stays h (run_for-Reach answers n opened start) b
              ((ready_iff (run_for answers n opened) h).1 (configured, (c, held))),
      )
