-- ===== src/Ingest/Rejection.antt =====
-- The rejection taxonomy of go/cmd/api/callback.go.
use foto.Base.{ℕ, Bool, true, false, ◌==◌, if◌then◌else◌, Bytes, codes, [], ◌∷◌, ◌++◌}
use foto.Fetcher.Policy.{
  FetchError, bad_configuration, invalid_url, scheme_not_allowed, host_not_allowed,
  too_many_redirects, unexpected_status, get_failed, read_failed, out_of_fuel,
}
use foto.Fetcher.Policy as Policy
use foto.TeamNumber.{LookupError, no_reader, empty_year, team_not_found, ambiguous, query_failed}
use foto.Imaging.Bounds.{Error, not_an_image, encode_failed, panic}
use foto.Imaging.Bounds as Bounds

pub record Rejection : Type 0 where
  pub status : ℕ
  pub code : Bytes
  pub message : Bytes
  pub retryable : Bool
  pub fix : Bytes

-- The dash of a message, in UTF-8.
abbrev em_dash : Bytes
em_dash = 0xE2 ∷ 0x80 ∷ 0x94 ∷ []

abbrev pub unknown_team : Rejection
unknown_team = record {
  status = 422;
  code = codes "unknown_team_number";
  message = codes "no patrulje has this team number in this year";
  retryable = false;
  fix = [];
}

abbrev pub ambiguous_team : Rejection
ambiguous_team = record {
  status = 409;
  code = codes "ambiguous_team_number";
  message = codes "more than one patrulje has this team number in this year";
  retryable = false;
  fix = [];
}

abbrev pub bad_payload : Rejection
bad_payload = record {
  status = 400;
  code = codes "bad_payload";
  message = codes "the webhook body could not be read";
  retryable = false;
  fix = [];
}

abbrev pub bad_image_url : Rejection
bad_image_url = record {
  status = 400;
  code = codes "bad_image_url";
  message = codes "imageUrl is not a usable http(s) URL";
  retryable = false;
  fix = [];
}

abbrev pub disallowed_host : Rejection
disallowed_host = record {
  status = 400;
  code = codes "host_not_allowed";
  message =
      codes
        "imageUrl's host is not in this service's allowlist, so it was refused without being fetched";
  retryable = false;
  fix = codes "add the host to PHOTO_HOSTS and restart foto";
}

abbrev pub upstream_not_found : Rejection
upstream_not_found = record {
  status = 400;
  code = codes "upstream_not_found";
  message =
      codes "imageUrl returned 404 "
      ++ (em_dash ++ codes " the host is reachable but has no file at that path");
  retryable = false;
  fix = [];
}

abbrev pub undecodable : Rejection
undecodable = record {
  status = 400;
  code = codes "not_an_image";
  message = codes "the fetched bytes are not a decodable image";
  retryable = false;
  fix = [];
}

abbrev pub oversized : Rejection
oversized = record {
  status = 413;
  code = codes "too_large";
  message = codes "the photo is larger than this service accepts";
  retryable = false;
  fix = [];
}

abbrev pub fetch_failed : Rejection
fetch_failed = record {
  status = 502;
  code = codes "fetch_failed";
  message = codes "the photo could not be fetched from imageUrl";
  retryable = true;
  fix = [];
}

abbrev pub not_ready : Rejection
not_ready = record {
  status = 503;
  code = codes "not_ready";
  message = codes "the service cannot record a photo right now";
  retryable = true;
  fix = [];
}

abbrev pub store_failed : Rejection
store_failed = record {
  status = 500;
  code = codes "store_failed";
  message = codes "the photo could not be stored";
  retryable = true;
  fix = [];
}

abbrev pub publish_failed : Rejection
publish_failed = record {
  status = 500;
  code = codes "publish_failed";
  message = codes "the photo was stored but could not be announced";
  retryable = true;
  fix = [];
}

unfoldable pub fetch_rejection : FetchError → Rejection
fetch_rejection host_not_allowed = disallowed_host
fetch_rejection invalid_url = bad_image_url
fetch_rejection scheme_not_allowed = bad_image_url
fetch_rejection Policy.too_large = oversized
fetch_rejection (unexpected_status s) = if s == 404 then upstream_not_found else fetch_failed
fetch_rejection bad_configuration = fetch_failed
fetch_rejection too_many_redirects = fetch_failed
fetch_rejection get_failed = fetch_failed
fetch_rejection read_failed = fetch_failed
fetch_rejection out_of_fuel = fetch_failed

-- The `switch` of `ingest` on the error of the team's lookup.
unfoldable pub team_rejection : LookupError → Rejection
team_rejection team_not_found = unknown_team
team_rejection ambiguous = ambiguous_team
team_rejection no_reader = not_ready
team_rejection empty_year = not_ready
team_rejection query_failed = not_ready

-- The `switch` of `ingest` on the error of `Prepare`. A panic does not come back to it; that row only makes
-- the function total.
unfoldable pub image_rejection : Error → Rejection
image_rejection Bounds.too_large = oversized
image_rejection not_an_image = undecodable
image_rejection encode_failed = undecodable
image_rejection (panic fault) = undecodable
