-- ===== src/Fetcher/Fetch/Laws.antt =====
-- What `Fetch` sends and what it returns.
use foto.Base.{
  ℕ, zero, suc, ◌+◌, ◌^◌, ◌≤◌, ◌<◌, ◌≡◌, ◌≢◌, ◌⊎◌, inl, inr, refl, sym, ◌∙◌, ap, subst, arith,
  false, some, Option-cases, List, [], ◌∷◌, Bytes, length, take, length-take, All, All-map, Result,
  ok, err, ◌>>=◌, >>=-eq-ok, ok-injective, Result-cases,
}
use foto.Base.Int.{ℤ}
use foto.Base.Text.{trim_space}
use foto.Fetcher.Policy.{
  FetchError, Url, Fetcher, invalid_url, out_of_fuel, normalise_host, new_fetcher, check_url,
}
use foto.Fetcher.Policy.Laws.{IsSafe, IsListed, check_url-IsSafe}
use foto.Fetcher.Fetch.{
  Response, Network, Traced, read_limited, read_limit, check_redirect, Hop, final, failed, follow,
  next_hop, do_request, receive, fetch,
}

Hop-cases :
    (h : Hop) → (h ≡ final) ⊎ (((e : FetchError) × (h ≡ failed e)) ⊎ ((u : Url) × (h ≡ follow u)))
Hop-cases final = inl refl
Hop-cases (failed e) = inr (inl (e, refl))
Hop-cases (follow u) = inr (inr (u, refl))

err-injective :
    {A : Type 0} {a b : FetchError} → ◌≡◌ {A = Result FetchError A} (err a) (err b) → a ≡ b
err-injective h = cc

take-all : (n : ℕ) (s : Bytes) → length s ≤ n → take n s ≡ s
take-all zero [] h = refl
take-all zero (c ∷ s) h = absurd (omega arith)
take-all (suc n) [] h = refl
take-all (suc n) (c ∷ s) h = ap (λ t. c ∷ t) (take-all n s (omega arith))

-- The bytes are the whole body of a response in the 200s, and within the limit.
pub record IsReceived (limit : ℕ) (response : Response) (photo : Bytes) : Type 0 where
  pub low : 200 ≤ response.status
  pub high : response.status ≤ 299
  pub small : length photo ≤ limit
  pub whole : photo ≡ response.body.bytes
  pub ended : response.body.failing ≡ false

module _ (lower : Bytes → Bytes) (net : Network) (f : Fetcher) where
  abbrev IsChecked : Url → Type 0
  IsChecked u = check_url lower f u ≡ ok tt

  check_redirect-ok :
      (via : ℕ) (u : Url)
      → check_redirect lower net f via u ≡ ok tt
      → (via ≤ f.max_redirects) × IsChecked u
  unfolding check_redirect
  check_redirect-ok via u h = ground arith

  next_hop-follow :
      (via : ℕ) (response : Response) (next : Url)
      → next_hop lower net f via response ≡ follow next
      → (suc via ≤ f.max_redirects) × IsChecked next
  unfolding next_hop
  next_hop-follow via response next h = check_redirect-ok (suc via) next (ground arith)

  next_hop-failed :
      (via : ℕ) (response : Response) → next_hop lower net f via response ≢ failed out_of_fuel
  unfolding next_hop check_redirect check_url
  next_hop-failed via response h = ground arith

  -- What holds of a run that starts behind `via` requests.
  record IsRun (via : ℕ) (t : Traced Response) : Type 0 where
    returns : t.0 ≢ err out_of_fuel
    checked : All IsChecked t.1
    answered :
        (response : Response)
        → t.0 ≡ ok response
        → (n : ℕ) × (u : Url) × IsChecked u × (net.send n u ≡ some response)
    few : length t.1 + via ≤ f.max_redirects + 1

  -- Enough fuel: a request is behind at most `max_redirects` others.
  do_request-IsRun :
      (fuel via : ℕ) (u : Url)
      → f.max_redirects + 1 < fuel + via
      → via ≤ f.max_redirects
      → IsChecked u
      → IsRun via (do_request lower net f fuel via u)
  unfolding do_request
  do_request-IsRun zero via u enough room c = absurd (omega arith)
  do_request-IsRun (suc fuel) via u enough room c = elim (Option-cases (net.send via u)) [
    | inl e ↦
        rw (do_request, e)
          (record { returns = λ h. cc; checked = (c, tt); answered = λ r q. cc; few = omega arith })
    | inr (response, e) ↦ elim (Hop-cases (next_hop lower net f via response)) [
      | inl h ↦
          rw (do_request, e, h)
            (record {
              returns = λ h. cc;
              checked = (c, tt);
              answered = λ r q. (via, u, c, e ∙ ap some (ok-injective q));
              few = omega arith;
            })
      | inr (inl (x, h)) ↦
          rw (do_request, e, h)
            (record {
              returns = λ q. next_hop-failed via response (h ∙ ap failed (err-injective q));
              checked = (c, tt);
              answered = λ r q. cc;
              few = omega arith;
            })
      | inr (inr (next, h)) ↦
          let (room', c') = next_hop-follow via response next h in
          let r = do_request-IsRun fuel (suc via) next (omega arith) room' c' in
          rw (do_request, e, h)
            (record {
              returns = r.returns;
              checked = (c, r.checked);
              answered = r.answered;
              few = omega (arith, r.few);
            })
    ]
  ]

  receive-ok :
      (response : Response) (photo kind : Bytes)
      → f.max_bytes + 1 < 2 ^ 63
      → receive lower net f response ≡ ok (photo, kind)
      → IsReceived f.max_bytes response photo
  unfolding receive read_limited read_limit
  receive-ok response photo kind fits h =
      let cut = length-take (f.max_bytes + 1) response.body.bytes in
      let room : length response.body.bytes ≤ f.max_bytes = ground (arith, cut) in
      let whole = take-all (f.max_bytes + 1) response.body.bytes (omega arith) in
      record {
        low = ground arith;
        high = ground arith;
        small = ground (arith, cut);
        whole = ground (arith, whole);
        ended = ground (arith, cut);
      }

  check_url-fuel : (u : Url) → check_url lower f u ≢ err out_of_fuel
  unfolding check_url
  check_url-fuel u h = ground arith

  bind-fuel :
      (m : Result FetchError Response)
      → m ≢ err out_of_fuel
      → (m >>= receive lower net f) ≢ err out_of_fuel
  unfolding receive read_limited
  bind-fuel (ok response) e h = ground arith
  bind-fuel (err x) e h = e (ap err (err-injective h))

  -- A call ends before its first request, or it is a run from that request on.
  fetch-request :
      (raw : Bytes)
      → ((fetch lower net f raw).1 ≡ []
          × ((fetch lower net f raw).0 ≢ err out_of_fuel)
          × ((a : Bytes × Bytes) → (fetch lower net f raw).0 ≢ ok a))
        ⊎ ((t : Traced Response) × IsRun 0 t
            × ((fetch lower net f raw).1 ≡ t.1)
            × ((fetch lower net f raw).0 ≡ (t.0 >>= receive lower net f)))
  unfolding fetch
  fetch-request raw = elim (Option-cases (net.parse (trim_space raw))) [
    | inl e ↦ inl (rw (fetch, e) (refl, (λ h. cc), λ a h. cc))
    | inr (u, e) ↦ elim (Result-cases (check_url lower f u)) [
      | inl (_, c) ↦ inr (
        do_request lower net f (suc (suc f.max_redirects)) 0 u,
        do_request-IsRun (suc (suc f.max_redirects)) 0 u (omega arith) (omega arith) c,
        rw (fetch, e, c) refl,
        rw (fetch, e, c) refl,
      )
      | inr (x, c) ↦ inl (
          rw (fetch, e, c)
            (refl, (λ h. check_url-fuel u (c ∙ ap err (err-injective h))), λ a h. cc))
    ]
  ]

module _ (lower : Bytes → Bytes) (net : Network) (hosts : List Bytes) (max_bytes timeout : ℤ) where
  -- A fetcher that `New` made sends every request of a call, redirects included, to a safe URL (plain
  -- HTTP or HTTPS, a configured host), sends at most one request more than its limit of redirects, and
  -- the call ends: the fuel of the model is enough, whatever the servers answer.
  pub fetch_sends :
      (f : Fetcher) (raw : Bytes)
      → new_fetcher lower hosts max_bytes timeout ≡ ok f
      → All (IsSafe lower hosts) (fetch lower net f raw).1
        × (length (fetch lower net f raw).1 ≤ f.max_redirects + 1)
        × ((fetch lower net f raw).0 ≢ err out_of_fuel)
  fetch_sends f raw made = elim (fetch-request lower net f raw) [
    | inl (none_sent, returns, _) ↦ rw none_sent (tt, omega arith, returns)
    | inr (t, run, sent, result) ↦
        let safe =
          All-map _ (IsSafe lower hosts) t.1
            (λ u c. check_url-IsSafe lower hosts max_bytes timeout f u made c) run.checked in
        (
          subst (All (IsSafe lower hosts)) (sym sent) safe,
          rw sent (omega (arith, run.few)),
          λ h. bind-fuel lower net f t.0 run.returns (sym result ∙ h),
        )
  ]

  -- What `Fetch` returns is the whole body, within the limit and read to its end, of an answer with a
  -- status in the 200s that a request to a safe URL got. The limit is below the largest int64.
  pub fetch_whole :
      (f : Fetcher) (raw photo kind : Bytes)
      → f.max_bytes + 1 < 2 ^ 63
      → new_fetcher lower hosts max_bytes timeout ≡ ok f
      → (fetch lower net f raw).0 ≡ ok (photo, kind)
      → (n : ℕ) × (u : Url) × (response : Response) × IsSafe lower hosts u
        × (net.send n u ≡ some response)
        × IsReceived f.max_bytes response photo
  fetch_whole f raw photo kind fits made h = elim (fetch-request lower net f raw) [
    | inl (_, _, never) ↦ absurd (never (photo, kind) h)
    | inr (t, run, _, result) ↦
        let (response, got, received) = >>=-eq-ok t.0 (receive lower net f) (sym result ∙ h) in
        let (n, u, c, answer) = run.answered response got in
        (
          n,
          u,
          response,
          check_url-IsSafe lower hosts max_bytes timeout f u made c,
          answer,
          receive-ok lower net f response photo kind fits received,
        )
  ]

  -- Without a configured host every URL is refused before a request is sent.
  pub fetch_unlisted :
      (f : Fetcher) (raw : Bytes)
      → hosts ≡ []
      → new_fetcher lower hosts max_bytes timeout ≡ ok f
      → ((e : FetchError) × ((fetch lower net f raw).0 ≡ err e)) × ((fetch lower net f raw).1 ≡ [])
  unfolding fetch
  fetch_unlisted f raw blank made = elim (Option-cases (net.parse (trim_space raw))) [
    | inl e ↦ rw (fetch, e) ((invalid_url, refl), refl)
    | inr (u, e) ↦ elim (Result-cases (check_url lower f u)) [
      | inl (_, c) ↦ absurd (
          subst (λ l. IsListed lower l (normalise_host lower u.hostname)) blank
            (check_url-IsSafe lower hosts max_bytes timeout f u made c).listed)
      | inr (x, c) ↦ rw (fetch, e, c) ((x, refl), refl)
    ]
  ]
