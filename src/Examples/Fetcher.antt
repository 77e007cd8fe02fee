-- ===== src/Examples/Fetcher.antt =====
-- The packages fetcher and teamnumber at concrete inputs.
use foto.Base.{
  ℕ, ◌+◌, ◌≤◌, ◌≡◌, ◌≢◌, ◌↔◌, refl, arith, false, some, List, [], ◌∷◌, Bytes, codes, All, length,
  take, bytes_eq, is_empty, ok, err,
}
use foto.Base.Int.{pos}
use foto.Base.Text.{trim_space, to_lower, trim_suffix}
use foto.Fetcher.Policy.{
  Fetcher, Url, out_of_fuel, new_fetcher, normalise_host, allow_hosts, check_url, host_allowed,
  is_http,
}
use foto.Fetcher.Policy.Laws.{IsSafe}
use foto.Fetcher.Fetch.{
  Network, Response, absent, fetch, do_request, next_hop, receive, read_limited, read_limit,
}
use foto.Fetcher.Fetch.Laws.{IsReceived, fetch_sends, fetch_whole}
use foto.TeamNumber.{Reader, team_id_by_number}
use foto.TeamNumber.Laws.{Team, Answers, matching, team_id_by_number_ok}
use foto.Examples.Toy.{upload}

-- An ASCII host has no letter for the tables of Unicode.
abbrev pub no_unicode : Bytes → Bytes
no_unicode s = s

abbrev pub photo_url : Url
photo_url = record {
  scheme = codes "https";
  hostname = codes "a.dk";
  text = codes "https://a.dk/1";
}

abbrev pub answer : Response
answer = record {
  status = 200;
  location = absent;
  content_type = codes "image/png";
  body = record { bytes = upload; failing = false };
}

-- Every text parses to the same URL, and every request gets the same answer.
abbrev pub toy_network : Network
toy_network = record { parse = λ text. some photo_url; send = λ n u. some answer }

abbrev pub toy_fetcher : Fetcher
toy_fetcher = record { allowed_hosts = codes "a.dk" ∷ []; max_bytes = 1000; max_redirects = 3 }

pub toy_fetcher-made :
    new_fetcher no_unicode (codes "a.dk" ∷ []) (pos 1000) (pos 30) ≡ ok toy_fetcher
unfolding new_fetcher allow_hosts normalise_host trim_space to_lower trim_suffix
toy_fetcher-made = refl

fetch_sends_example :
    All
      (IsSafe no_unicode (codes "a.dk" ∷ []))
      (fetch no_unicode toy_network toy_fetcher (codes "https://a.dk/1")).1
    × (length (fetch no_unicode toy_network toy_fetcher (codes "https://a.dk/1")).1 ≤ 3 + 1)
    × ((fetch no_unicode toy_network toy_fetcher (codes "https://a.dk/1")).0 ≢ err out_of_fuel)
fetch_sends_example =
    fetch_sends no_unicode toy_network (codes "a.dk" ∷ []) (pos 1000) (pos 30) toy_fetcher
      (codes "https://a.dk/1") toy_fetcher-made

toy_fetched :
    (fetch no_unicode toy_network toy_fetcher (codes "https://a.dk/1")).0
    ≡ ok (upload, codes "image/png")
unfolding fetch check_url host_allowed normalise_host trim_space to_lower trim_suffix bytes_eq
    is_http do_request next_hop receive read_limited read_limit
toy_fetched = refl

fetch_whole_example :
    (n : ℕ) × (u : Url) × (response : Response) × IsSafe no_unicode (codes "a.dk" ∷ []) u
    × (toy_network.send n u ≡ some response)
    × IsReceived 1000 response upload
fetch_whole_example =
    fetch_whole no_unicode toy_network (codes "a.dk" ∷ []) (pos 1000) (pos 30) toy_fetcher
      (codes "https://a.dk/1") upload (codes "image/png") (omega arith) toy_fetcher-made toy_fetched

abbrev teams : List Team
teams =
    record { year = codes "2026"; number = codes "42"; id = codes "team-a" }
    ∷ record { year = codes "2026"; number = codes "7"; id = codes "team-b" }
    ∷ record { year = codes "2026"; number = codes "7"; id = codes "team-c" }
    ∷ []

abbrev query : Reader
query year number = some (take 2 (matching bytes_eq teams year number))

query-Answers : Answers bytes_eq teams query
query-Answers year number = refl

team_id_by_number_ok_example :
    (team_id_by_number (some query) (codes "2026") (codes " 42") ≡ ok (codes "team-a")) ↔ (
      (is_empty (trim_space (codes "2026")) ≡ false)
      × (is_empty (trim_space (codes " 42")) ≡ false)
      × (matching bytes_eq teams (trim_space (codes "2026")) (trim_space (codes " 42"))
          ≡ codes "team-a" ∷ [])
      × (is_empty (trim_space (codes "team-a")) ≡ false))
team_id_by_number_ok_example =
    team_id_by_number_ok bytes_eq teams query (codes "2026") (codes " 42") (codes "team-a")
      query-Answers

filled_year : is_empty (trim_space (codes "2026")) ≡ false
unfolding trim_space
filled_year = refl

filled_number : is_empty (trim_space (codes "7")) ≡ false
unfolding trim_space
filled_number = refl
