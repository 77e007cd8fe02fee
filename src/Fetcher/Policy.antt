-- ===== src/Fetcher/Policy.antt =====
-- `New`, `normaliseHost`, `hostAllowed` and `checkURL` of go/internal/fetcher/fetcher.go.
pub mod Laws
use foto.Base.{
  ℕ, Bool, true, false, ◌||◌, not, Option, none, some, List, [], ◌∷◌, Bytes, codes, bytes_eq,
  is_empty, any, if◌then◌else◌, Result, ok, err,
}
use foto.Base.Int.{ℤ, pos, leb_ℤ, pos_part}
use foto.Base.Text.{trim_space, to_lower, trim_suffix}

pub data FetchError : Type 0 where
  bad_configuration : FetchError
  invalid_url : FetchError
  scheme_not_allowed : FetchError
  host_not_allowed : FetchError
  too_many_redirects : FetchError
  too_large : FetchError
  unexpected_status : ℕ → FetchError
  get_failed : FetchError
  read_failed : FetchError
  out_of_fuel : FetchError

-- What the code asks of a parsed URL: its scheme, its host without the port, and its text.
pub record Url : Type 0 where
  pub scheme : Bytes
  pub hostname : Bytes
  pub text : Bytes

pub record Fetcher : Type 0 where
  pub allowed_hosts : List Bytes
  pub max_bytes : ℕ
  pub max_redirects : ℕ

abbrev pub default_max_redirects : ℕ
default_max_redirects = 3

module _ (unicode_lower : Bytes → Bytes) where
  unfoldable pub normalise_host : Bytes → Bytes
  normalise_host h = trim_suffix b'.' (to_lower unicode_lower (trim_space h))

  -- The loop of `New`: the map's keys.
  unfoldable pub allow_hosts : List Bytes → List Bytes
  allow_hosts [] = []
  allow_hosts (h ∷ hosts) =
      let rest = allow_hosts hosts in
      if is_empty (normalise_host h) then rest else normalise_host h ∷ rest

  unfoldable pub new_fetcher : List Bytes → ℤ → ℤ → Result FetchError Fetcher
  unfolding allow_hosts
  new_fetcher hosts max_bytes timeout =
      if leb_ℤ max_bytes (pos 0)
      then err bad_configuration
      else if leb_ℤ timeout (pos 0)
      then err bad_configuration
      else ok (record {
        allowed_hosts = allow_hosts hosts;
        max_bytes = pos_part max_bytes;
        max_redirects = default_max_redirects;
      })

  unfoldable pub host_allowed : Fetcher → Url → Bool
  host_allowed f u = any (λ h. bytes_eq h (normalise_host u.hostname)) f.allowed_hosts

  unfoldable pub is_http : Bytes → Bool
  is_http scheme =
      let s = to_lower unicode_lower scheme in
      bytes_eq s (codes "http") || bytes_eq s (codes "https")

  unfoldable pub check_url : Fetcher → Url → Result FetchError (Unit {0})
  unfolding is_http host_allowed
  check_url f u =
      if not (is_http u.scheme)
      then err scheme_not_allowed
      else if is_empty u.hostname
      then err invalid_url
      else if not (host_allowed f u)
      then err host_not_allowed
      else ok tt
