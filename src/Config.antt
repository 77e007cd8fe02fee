-- ===== src/Config.antt =====
-- The configuration: go/cmd/api/env.go. The process's environment is a function from a name to its value,
-- if it is set. `ParseDuration` of package `time`, the clock's year and what package `flag` reads from the
-- command line are parameters.
pub mod Laws
use foto.Base.{
  ℕ, ◌*◌, ◌^◌, Option, none, some, List, [], ◌∷◌, Bytes, codes, is_empty, if◌then◌else◌,
}
use foto.Base.Int.{ℤ, pos}
use foto.Base.Duration.{second, minute}
use foto.Base.Atoi.{atoi}
use foto.Base.Split.{split}
use foto.Base.Text.{trim_space}

abbrev pub Environment : Type 0
Environment = Bytes → Option Bytes

unfoldable pub env_str : Environment → Bytes → Bytes → Bytes
env_str env key fallback = elim (env key) [ none ↦ fallback | some v ↦ v ]

unfoldable pub env_int : Environment → Bytes → ℤ → ℤ
env_int env key fallback = elim (env key) [
  | none ↦ fallback
  | some v ↦ elim (atoi v) [ none ↦ fallback | some n ↦ n ]
]

-- A `time.Duration`, in nanoseconds.
unfoldable pub env_duration : (Bytes → Option ℤ) → Environment → Bytes → ℤ → ℤ
env_duration parse_duration env key fallback = elim (env key) [
  | none ↦ fallback
  | some v ↦ elim (parse_duration v) [ none ↦ fallback | some d ↦ d ]
]

-- The loop of `splitHosts`.
unfoldable pub keep_hosts : List Bytes → List Bytes
keep_hosts [] = []
keep_hosts (host ∷ hosts) =
    let rest = keep_hosts hosts in
    if is_empty (trim_space host) then rest else trim_space host ∷ rest

unfoldable pub split_hosts : Bytes → List Bytes
unfolding keep_hosts
split_hosts v = keep_hosts (split b',' v)

pub record Config : Type 0 where
  pub port : ℤ
  pub env : Bytes
  pub db_dsn : Bytes
  pub db_max_open_conns : ℤ
  pub db_max_idle_conns : ℤ
  pub db_conn_max_lifetime : ℤ
  pub jetstream_dsn : Bytes
  pub event_year : Bytes
  pub blob_path : Bytes
  pub webhook_secret : Bytes
  pub photo_hosts : List Bytes
  pub max_photo_bytes : ℤ
  pub fetch_timeout : ℤ

-- What the command line gives for each flag, if it gives it.
pub record Flags : Type 0 where
  pub port : Option ℤ
  pub env : Option Bytes
  pub db_dsn : Option Bytes
  pub db_max_open_conns : Option ℤ
  pub db_max_idle_conns : Option ℤ
  pub db_conn_max_lifetime : Option ℤ
  pub jetstream_dsn : Option Bytes
  pub event_year : Option Bytes
  pub blob_path : Option Bytes
  pub webhook_secret : Option Bytes
  pub photo_hosts : Option Bytes
  pub max_photo_bytes : Option ℤ
  pub fetch_timeout : Option ℤ

abbrev pub no_flags : Flags
no_flags = record {
  port = none;
  env = none;
  db_dsn = none;
  db_max_open_conns = none;
  db_max_idle_conns = none;
  db_conn_max_lifetime = none;
  jetstream_dsn = none;
  event_year = none;
  blob_path = none;
  webhook_secret = none;
  photo_hosts = none;
  max_photo_bytes = none;
  fetch_timeout = none;
}

-- A flag's value, or its default.
abbrev pub flag_or {ℓ} : {A : Type ℓ} → Option A → A → A
flag_or none default = default
flag_or (some given) default = given

-- What `loadConfig` meets besides the environment.
pub record Outside : Type 0 where
  pub environment : Environment
  pub flags : Flags
  pub parse_duration : Bytes → Option ℤ
  pub current_year : Bytes

unfoldable pub load_config : Outside → Config
unfolding env_str env_int env_duration split_hosts
load_config o =
    let e = o.environment in
    let f = o.flags in
    let duration = env_duration o.parse_duration e in
    record {
      port = flag_or f.port (env_int e (codes "PORT") (pos 4000));
      env = flag_or f.env (env_str e (codes "ENV") (codes "development"));
      db_dsn = flag_or f.db_dsn (env_str e (codes "DB_DSN") []);
      db_max_open_conns =
          flag_or f.db_max_open_conns (env_int e (codes "DB_MAX_OPEN_CONNS") (pos 25));
      db_max_idle_conns =
          flag_or f.db_max_idle_conns (env_int e (codes "DB_MAX_IDLE_CONNS") (pos 25));
      db_conn_max_lifetime =
          flag_or f.db_conn_max_lifetime
            (duration (codes "DB_CONN_MAX_LIFETIME") (pos (5 * minute)));
      jetstream_dsn = flag_or f.jetstream_dsn (env_str e (codes "JETSTREAM_DSN") []);
      event_year = flag_or f.event_year (env_str e (codes "EVENT_YEAR") o.current_year);
      blob_path = flag_or f.blob_path (env_str e (codes "BLOB_PATH") []);
      webhook_secret = flag_or f.webhook_secret (env_str e (codes "WEBHOOK_SECRET") []);
      photo_hosts = split_hosts (flag_or f.photo_hosts (env_str e (codes "PHOTO_HOSTS") []));
      max_photo_bytes =
          flag_or f.max_photo_bytes (env_int e (codes "MAX_PHOTO_BYTES") (pos (32 * 2 ^ 20)));
      fetch_timeout =
          flag_or f.fetch_timeout (duration (codes "FETCH_TIMEOUT") (pos (20 * second)));
    }
