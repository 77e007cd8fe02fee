-- ===== src/Fetcher/Policy/Laws.antt =====
-- What the policy lets through.
use foto.Base.{
  ◌≡◌, sym, ap, subst, ◌⊎◌, inl, inr, arith, true, false, Bool-cases, List, [], ◌∷◌, Bytes, codes,
  bytes_eq, bytes_eq_iff, is_empty, any, Result, ok, err,
}
use foto.Base.Int.{ℤ, pos, leb_ℤ}
use foto.Base.Text.{to_lower}
use foto.Fetcher.Policy.{
  FetchError, Url, Fetcher, normalise_host, allow_hosts, new_fetcher, host_allowed, check_url,
  is_http,
}

-- Some configured host has this normal form.
abbrev pub IsListed : (Bytes → Bytes) → List Bytes → Bytes → Type 0
IsListed lower [] host = ⊥
IsListed lower (h ∷ hosts) host = (normalise_host lower h ≡ host) ⊎ IsListed lower hosts host

allowed_of : Result FetchError Fetcher → List Bytes
allowed_of (ok f) = f.allowed_hosts
allowed_of (err e) = []

module _ (lower : Bytes → Bytes) where
  allow_hosts-IsListed :
      (hosts : List Bytes) (host : Bytes)
      → any (λ h. bytes_eq h host) (allow_hosts lower hosts) ≡ true
      → IsListed lower hosts host × (is_empty host ≡ false)
  unfolding allow_hosts
  allow_hosts-IsListed [] host h = absurd (cc h)
  allow_hosts-IsListed (g ∷ hosts) host h = elim (Bool-cases (is_empty (normalise_host lower g))) [
    | inl blank ↦ let (l, e) = allow_hosts-IsListed hosts host (rw blank at h) in (inr l, e)
    | inr named ↦ elim (Bool-cases (bytes_eq (normalise_host lower g) host)) [
      | inl same ↦
          let e = (bytes_eq_iff (normalise_host lower g) host).0 same in (inl e, rw (← e) named)
      | inr other ↦ let (l, e) = allow_hosts-IsListed hosts host (ground arith) in (inr l, e)
    ]
  ]

  -- What a hop must be: plain HTTP, to a named host whose normal form is that of a configured host.
  pub record IsSafe (hosts : List Bytes) (u : Url) : Type 0 where
    pub scheme :
        (to_lower lower u.scheme ≡ codes "http") ⊎ (to_lower lower u.scheme ≡ codes "https")
    pub named : is_empty u.hostname ≡ false
    pub listed : IsListed lower hosts (normalise_host lower u.hostname)
    pub nonblank : is_empty (normalise_host lower u.hostname) ≡ false

  new_fetcher-hosts :
      (hosts : List Bytes) (max_bytes timeout : ℤ) {f : Fetcher}
      → new_fetcher lower hosts max_bytes timeout ≡ ok f
      → f.allowed_hosts ≡ allow_hosts lower hosts
  unfolding new_fetcher allowed_of
  new_fetcher-hosts hosts max_bytes timeout h = elim (Bool-cases (leb_ℤ max_bytes (pos 0))) [
    | inl a ↦ absurd (cc (rw a at h))
    | inr a ↦ elim (Bool-cases (leb_ℤ timeout (pos 0))) [
      | inl b ↦ absurd (cc (rw (a, b) at h))
      | inr b ↦ let h' = rw (a, b) at h in sym (ap allowed_of h')
    ]
  ]

  is_http-scheme :
      (s : Bytes)
      → is_http lower s ≡ true
      → (to_lower lower s ≡ codes "http") ⊎ (to_lower lower s ≡ codes "https")
  unfolding is_http
  is_http-scheme s h = elim (Bool-cases (bytes_eq (to_lower lower s) (codes "http"))) [
    | inl p ↦ inl ((bytes_eq_iff _ _).0 p)
    | inr p ↦ inr ((bytes_eq_iff _ _).0 (rw p at h))
  ]

  check_url-parts :
      (f : Fetcher) (u : Url)
      → check_url lower f u ≡ ok tt
      → (is_http lower u.scheme ≡ true)
        × (is_empty u.hostname ≡ false)
        × (host_allowed lower f u ≡ true)
  unfolding check_url
  check_url-parts f u h = ground arith

  -- A fetcher that `New` made lets only safe URLs through: a blank entry of the configuration matches
  -- no host, and an empty configuration lets nothing through.
  pub check_url-IsSafe :
      (hosts : List Bytes) (max_bytes timeout : ℤ) (f : Fetcher) (u : Url)
      → new_fetcher lower hosts max_bytes timeout ≡ ok f
      → check_url lower f u ≡ ok tt
      → IsSafe hosts u
  unfolding host_allowed
  check_url-IsSafe hosts max_bytes timeout f u made h =
      let (http, named, allowed) = check_url-parts f u h in
      let host = normalise_host lower u.hostname in
      let listed : any (λ g. bytes_eq g host) (allow_hosts lower hosts) ≡ true =
        subst (λ l. any (λ g. bytes_eq g host) l ≡ true)
          (new_fetcher-hosts hosts max_bytes timeout made) allowed in
      let (member, nonblank) = allow_hosts-IsListed hosts host listed in
      record {
        scheme = is_http-scheme u.scheme http;
        named = named;
        listed = member;
        nonblank = nonblank;
      }
