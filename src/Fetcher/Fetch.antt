-- ===== src/Fetcher/Fetch.antt =====
-- `Fetch` of go/internal/fetcher/fetcher.go. The code gives `http.Client` a redirect policy; what the
-- client does with it is written here as its documentation has it: a response of status 301, 302, 303,
-- 307 or 308 with a `Location` is followed after `CheckRedirect` has agreed, any other response is the
-- result. The other servers and `url.Parse` are a parameter.
pub mod Laws
use foto.Base.{
  ℕ, zero, suc, ◌+◌, ◌^◌, Bool, true, false, ◌||◌, ◌&&◌, not, Option, none, some, List, [], ◌∷◌,
  Bytes, length, take, ltb, leb, ◌==◌, if◌then◌else◌, Result, ok, err, ◌>>=◌,
}
use foto.Base.Text.{trim_space}
use foto.Fetcher.Policy.{
  FetchError, Url, Fetcher, invalid_url, too_many_redirects, too_large, unexpected_status,
  get_failed, read_failed, out_of_fuel, check_url,
}

-- A response's `Location`: none, one that does not parse, or the URL it resolves to.
pub data Location : Type 0 where
  absent : Location
  malformed : Location
  target : Url → Location

-- A body that arrives: its bytes, and whether an error comes after them in place of the end.
pub record Body : Type 0 where
  pub bytes : Bytes
  pub failing : Bool

pub record Response : Type 0 where
  pub status : ℕ
  pub location : Location
  pub content_type : Bytes
  pub body : Body

-- `parse` is `url.Parse`; `send` gives the answer to the n-th request, `none` for an error of the
-- transport.
pub record Network : Type 0 where
  pub parse : Bytes → Option Url
  pub send : ℕ → Url → Option Response

-- What follows a response: nothing, an error, or one more request.
pub data Hop : Type 0 where
  final : Hop
  failed : FetchError → Hop
  follow : Url → Hop

abbrev pub is_redirect : ℕ → Bool
is_redirect s = s == 301 || (s == 302 || (s == 303 || (s == 307 || s == 308)))

-- A run's result with the URLs that requests were sent to, in order.
abbrev pub Traced : Type 0 → Type 0
Traced A = Result FetchError A × List Url

-- `io.ReadAll(io.LimitReader(body, limit))`: an error behind the limit is not seen.
unfoldable pub read_limited : Body → ℕ → Result FetchError Bytes
read_limited body limit =
    if body.failing && ltb (length body.bytes) limit
    then err read_failed
    else ok (take limit body.bytes)

-- `f.maxBytes+1` on an int64: it wraps to a negative number, at which `LimitReader` reads nothing.
unfoldable pub read_limit : ℕ → ℕ
read_limit max_bytes = if ltb (max_bytes + 1) (2 ^ 63) then max_bytes + 1 else 0

module _ (unicode_lower : Bytes → Bytes) (net : Network) (f : Fetcher) where
  -- `c.CheckRedirect`, at `via` requests sent.
  unfoldable pub check_redirect : ℕ → Url → Result FetchError (Unit {0})
  check_redirect via u =
      if ltb f.max_redirects via then err too_many_redirects else check_url unicode_lower f u

  -- What `c.Do` does at a response.
  unfoldable pub next_hop : ℕ → Response → Hop
  unfolding check_redirect
  next_hop via response =
      if is_redirect response.status
      then (elim response.location [
        | absent ↦ final
        | malformed ↦ failed get_failed
        | target next ↦ elim (check_redirect (suc via) next) [
          | err e ↦ failed e
          | ok agreed ↦ follow next
        ]
      ])
      else final

  -- `c.Do`: the request to `u` is the one behind `via` others.
  unfoldable pub do_request : ℕ → ℕ → Url → Traced Response
  unfolding next_hop
  do_request zero via u = (err out_of_fuel, [])
  do_request (suc fuel) via u = elim (net.send via u) [
    | none ↦ (err get_failed, u ∷ [])
    | some response ↦ elim (next_hop via response) [
      | final ↦ (ok response, u ∷ [])
      | failed e ↦ (err e, u ∷ [])
      | follow next ↦ let rest = do_request fuel (suc via) next in (rest.0, u ∷ rest.1)
    ]
  ]

  -- What `Fetch` makes of the response it ends at.
  unfoldable pub receive : Response → Result FetchError (Bytes × Bytes)
  unfolding read_limited read_limit
  receive response =
      if ltb response.status 200 || ltb 299 response.status
      then err (unexpected_status response.status)
      else (read_limited response.body (read_limit f.max_bytes) >>= λ body.
          if ltb f.max_bytes (length body) then err too_large else ok (body, response.content_type))

  unfoldable pub fetch : Bytes → Traced (Bytes × Bytes)
  unfolding do_request receive
  fetch raw_url = elim (net.parse (trim_space raw_url)) [
    | none ↦ (err invalid_url, [])
    | some u ↦ elim (check_url unicode_lower f u) [
      | err e ↦ (err e, [])
      | ok checked ↦
          let done = do_request (suc (suc f.max_redirects)) 0 u in (done.0 >>= receive, done.1)
    ]
  ]
