-- ===== src/Examples/Startup.antt =====
-- The configuration and the start at concrete inputs.
use foto.Base.{
  ℕ, ◌≤◌, ◌*◌, ◌≡◌, ◌∙◌, ap, refl, arith, true, false, ◌&&◌, none, some, [], ◌∷◌, Bytes, bytes_eq,
  codes, All, ok,
}
use foto.Base.Int.{pos, negsuc}
use foto.Base.Decimal.{decimal_ℤ}
use foto.Base.Atoi.{atoi}
use foto.Base.Split.{split}
use foto.Base.Text.{trim_space, to_lower, trim_suffix}
use foto.Base.Dict.{Dict, lookup}
use foto.Blob.Memory.{memory_store}
use foto.Config.{
  Config, env_int, env_str, env_duration, split_hosts, keep_hosts, Outside, no_flags, load_config,
}
use foto.Fetcher.Policy.{new_fetcher, allow_hosts, normalise_host}
use foto.Fetcher.Policy.Laws.{IsSafe}
use foto.Eventing.{opened, Eventing, advance}
use foto.Eventing.Invariant.{Behind}
use foto.Eventing.Liveness.{run_for}
use foto.Ingest.Rejection.{Rejection}
use foto.Ingest.Webhook.{ready, ingest, refuse}
use foto.Startup.{
  World, Started, in_memory, Surroundings, run, live, lazy_publisher, application, open_db,
  open_eventing, new_patrulje_projection, new_table, open_blob_store,
}
use foto.Startup as Startup
use foto.Startup.Cases.{
  is_ok, is_database_up, is_disk_private, is_limited, IsStarted, start-IsStarted, start-is_ok,
}
use foto.Startup.Ready.{becomes_ready}
use foto.Startup.Sending.{run-IsSafe, run_unlisted}
use foto.Examples.Toy.{toy_sha, toy_codec}
use foto.Examples.Fetcher.{no_unicode, toy_network}
use foto.Examples.ReadModel.{toy_broker}
use foto.Examples.Ingest.{payload}
use foto.Examples.Eventing.{there, third_time}

abbrev variables : Dict Bytes
variables =
    (codes "DB_DSN", codes "db")
    ∷ (codes "JETSTREAM_DSN", codes "nats")
    ∷ (codes "PHOTO_HOSTS", codes "a.dk,")
    ∷ (codes "PORT", codes "-12")
    ∷ []

abbrev outside : Outside
outside = record {
  environment = λ key. lookup key variables;
  flags = no_flags;
  parse_duration = λ text. none;
  current_year = codes "2026";
}

port-set : lookup (codes "PORT") variables ≡ some (decimal_ℤ (negsuc 11))
unfolding lookup bytes_eq decimal_ℤ
port-set = refl

hosts-written :
    (trim_space (codes "a.dk") ≡ codes "a.dk") × (trim_space (codes "b.dk") ≡ codes "b.dk")
unfolding trim_space
hosts-written = (refl, refl)

-- Everything that a start asks for succeeds.
abbrev world : World
world = record {
  opens = true;
  pings = true;
  creates_deadletters = true;
  resets = true;
  mounts_patrulje = true;
  creates_table = true;
  mkdir_fails = false;
  chmod_fails = false;
}

abbrev config : Config
config = record {
  port = negsuc 11;
  env = codes "development";
  db_dsn = codes "db";
  db_max_open_conns = pos 25;
  db_max_idle_conns = pos 25;
  db_conn_max_lifetime = pos 300000000000;
  jetstream_dsn = codes "nats";
  event_year = codes "2026";
  blob_path = [];
  webhook_secret = [];
  photo_hosts = codes "a.dk" ∷ [];
  max_photo_bytes = pos 33554432;
  fetch_timeout = pos 20000000000;
}

config-loaded : load_config outside ≡ config
unfolding load_config lookup bytes_eq env_str env_int env_duration split_hosts keep_hosts split
    trim_space atoi
config-loaded = refl

abbrev started : Started
started = record {
  config = config;
  has_eventing = true;
  has_teams = true;
  has_table = true;
  blobs = in_memory;
  fetcher = record { allowed_hosts = codes "a.dk" ∷ []; max_bytes = 33554432; max_redirects = 3 };
  connecting = true;
}

world-started : Startup.start no_unicode world config ≡ ok started
unfolding Startup.start open_db open_eventing new_patrulje_projection new_table open_blob_store
    new_fetcher allow_hosts normalise_host trim_space to_lower trim_suffix
world-started = refl

world-run : run no_unicode outside world ≡ ok started
unfolding run
world-run = ap (Startup.start no_unicode world) config-loaded ∙ world-started

start-is_ok_example :
    is_ok (Startup.start no_unicode (record world { chmod_fails = true }) config) ≡ (
      is_database_up (record world { chmod_fails = true }) config
      && (is_disk_private (record world { chmod_fails = true }) config && is_limited config))
start-is_ok_example = start-is_ok no_unicode (record world { chmod_fails = true }) config

start-IsStarted_example : IsStarted no_unicode config started
start-IsStarted_example = start-IsStarted no_unicode world config started world-started

abbrev surroundings : Surroundings (memory_store toy_sha)
surroundings = record {
  teams = λ year number. some (codes "team-a" ∷ []);
  broker = toy_broker;
  network = toy_network;
  codec = toy_codec;
  env = λ n. false;
  now = some 7;
}

becomes_ready_example :
    (n : ℕ) × (n ≤ 2 * 3)
    × ((t : Eventing)
        → Behind (run_for third_time n opened) t
        → ready (application surroundings no_unicode started t) ≡ true)
becomes_ready_example =
    becomes_ready no_unicode surroundings world config started third_time 3 world-started
      (refl, refl) (omega arith) refl (λ j h. ground arith)

-- Behind the attempt and the store of the publisher.
abbrev connected : Eventing
connected = advance there (advance there opened)

connected-ready : ready (application surroundings no_unicode started connected) ≡ true
unfolding ready application live advance
connected-ready = refl

run-IsSafe_example :
    All
      (IsSafe no_unicode (load_config outside).photo_hosts)
      (ingest (application surroundings no_unicode started connected) payload [] []).sent
run-IsSafe_example =
    run-IsSafe no_unicode surroundings outside world started connected payload [] [] world-run

-- No variable is set.
abbrev bare : Outside
bare = record outside { environment = λ key. none }

bare-hosts : (load_config bare).photo_hosts ≡ []
unfolding load_config env_str split_hosts keep_hosts split trim_space
bare-hosts = refl

abbrev lonely : Started
lonely = record {
  config = load_config bare;
  has_eventing = false;
  has_teams = false;
  has_table = false;
  blobs = in_memory;
  fetcher = record { allowed_hosts = []; max_bytes = 33554432; max_redirects = 3 };
  connecting = false;
}

bare-run : run no_unicode bare world ≡ ok lonely
unfolding run load_config env_str env_int env_duration split_hosts keep_hosts split trim_space
    Startup.start open_db open_eventing new_patrulje_projection new_table open_blob_store
    new_fetcher allow_hosts
bare-run = refl

run_unlisted_example :
    (rejection : Rejection) × (ingest
        (application surroundings no_unicode lonely opened)
        payload
        []
        []
      ≡ refuse (application surroundings no_unicode lonely opened) rejection [] [] [])
run_unlisted_example =
    run_unlisted no_unicode surroundings bare world lonely opened payload [] [] bare-run bare-hosts
