-- ===== src/Startup.antt =====
-- The start of the service: `run`, `openBlobStore`, `publisherFunc` and the application's construction in
-- go/cmd/api/main.go, with go/cmd/api/database.go, `openEventing` of go/cmd/api/eventing.go,
-- go/cmd/api/patrulje.go, and `New` of go/nathejk/table/photo/table.go. What the database and the file
-- system do with the calls of a start is a parameter.
pub mod Cases
pub mod Ready
pub mod Sending
use foto.Base.{
  ℕ, Bool, true, false, not, ◌&&◌, ◌||◌, Option, none, some, List, Bytes, is_empty, if◌then◌else◌,
  Result, ok, err, ◌>>=◌,
}
use foto.Blob.Store.{Store}
use foto.Blob.File.{new_file_store}
use foto.Config.{Outside, load_config, Config}
use foto.Eventing.{Eventing, opened, publisher_or_nil}
use foto.Fetcher.Policy.{FetchError, Fetcher, new_fetcher}
use foto.Fetcher.Fetch.{Network}
use foto.Imaging.Prepare.{Codec}
use foto.TeamNumber.{Reader}
use foto.Photo.Messages.{Time}
use foto.Photo.Commands.{Broker}
use foto.Ingest.Webhook.{Application}

pub data StartError : Type 0 where
  no_dsn : StartError
  no_jetstream_dsn : StartError
  open_failed : StartError
  ping_failed : StartError
  deadletters_failed : StartError
  reset_failed : StartError
  patrulje_fatal : StartError
  writer_required : StartError
  table_failed : StartError
  blob_store_failed : StartError
  fetcher_failed : FetchError → StartError

-- What a start meets: which calls succeed. `patrulje.New` ends the process where it fails.
pub record World : Type 0 where
  pub opens : Bool
  pub pings : Bool
  pub creates_deadletters : Bool
  pub resets : Bool
  pub mounts_patrulje : Bool
  pub creates_table : Bool
  pub mkdir_fails : Bool
  pub chmod_fails : Bool

unfoldable pub open_db : World → Config → Result StartError (Unit {0})
open_db w cfg =
    if is_empty cfg.db_dsn
    then err no_dsn
    else if not w.opens
    then err open_failed
    else if not w.pings
    then err ping_failed
    else ok tt

-- Whether there is an eventing, and the error beside it: without a broker there are both.
unfoldable pub open_eventing : World → Config → Bool → Bool × Option StartError
open_eventing w cfg has_db =
    if not has_db
    then (false, some no_dsn)
    else if not w.creates_deadletters
    then (false, some deadletters_failed)
    else if not w.resets
    then (false, some reset_failed)
    else if is_empty cfg.jetstream_dsn
    then (true, some no_jetstream_dsn)
    else (true, none)

-- Whether the projection is mounted and there is a resolver; an eventing always has a writer and a reader.
unfoldable pub new_patrulje_projection : World → Bool → Result StartError Bool
new_patrulje_projection w has_eventing =
    if not has_eventing then ok false else if w.mounts_patrulje then ok true else err patrulje_fatal

-- `photo.New`.
unfoldable pub new_table : World → Bool → Result StartError Bool
new_table w has_writer =
    if not has_writer
    then err writer_required
    else if w.creates_table
    then ok true
    else err table_failed

-- The object store: in memory, or in a directory with its mode.
pub data Blobs : Type 0 where
  in_memory : Blobs
  on_disk : Bytes → ℕ → Blobs

unfoldable pub open_blob_store : World → Config → Result StartError Blobs
open_blob_store w cfg =
    if is_empty cfg.blob_path
    then ok in_memory
    else (elim (new_file_store w.mkdir_fails w.chmod_fails cfg.blob_path) [
      | none ↦ err blob_store_failed
      | some mode ↦ ok (on_disk cfg.blob_path mode)
    ])

-- The service behind `run`, before it serves.
pub record Started : Type 0 where
  pub config : Config
  pub has_eventing : Bool
  pub has_teams : Bool
  pub has_table : Bool
  pub blobs : Blobs
  pub fetcher : Fetcher
  -- The connector runs in the background.
  pub connecting : Bool

-- `errors.Is` with the errors that `run` lets pass.
abbrev pub is_mode : StartError → Bool
is_mode no_dsn = true
is_mode no_jetstream_dsn = true
is_mode _ = false

abbrev pub is_no_dsn : StartError → Bool
is_no_dsn no_dsn = true
is_no_dsn _ = false

-- What `run` makes of the error of `openDB`, and of `openEventing`.
abbrev pub accept_db : Result StartError (Unit {0}) → Result StartError Bool
accept_db (ok db) = ok true
accept_db (err e) = if is_no_dsn e then ok false else err e

abbrev pub accept_eventing : Bool × Option StartError → Result StartError Bool
accept_eventing (ev, none) = ok ev
accept_eventing (ev, some e) = if is_mode e then ok ev else err e

abbrev pub accept_fetcher : Result FetchError Fetcher → Result StartError Fetcher
accept_fetcher (ok f) = ok f
accept_fetcher (err e) = err (fetcher_failed e)

module _ (unicode_lower : Bytes → Bytes) where
  -- `run` on a configuration.
  unfoldable pub start : World → Config → Result StartError Started
  unfolding open_db open_eventing new_patrulje_projection new_table open_blob_store
  start w cfg = accept_db (open_db w cfg) >>= λ has_db.
      accept_eventing (open_eventing w cfg has_db) >>= λ has_eventing.
      new_patrulje_projection w has_eventing >>= λ has_teams.
      (if has_eventing then new_table w has_eventing else ok false) >>= λ has_table.
      open_blob_store w cfg >>= λ blobs.
      accept_fetcher
        (new_fetcher unicode_lower cfg.photo_hosts cfg.max_photo_bytes cfg.fetch_timeout)
      >>= λ fetcher. ok (record {
        config = cfg;
        has_eventing = has_eventing;
        has_teams = has_teams;
        has_table = has_table;
        blobs = blobs;
        fetcher = fetcher;
        connecting = has_eventing && not (is_empty cfg.jetstream_dsn);
      })

  unfoldable pub run : Outside → World → Result StartError Started
  unfolding start
  run o w = start w (load_config o)

-- The connection as handlers see it: without the connector it stays as it was opened.
unfoldable pub live : Started → Eventing → Eventing
live st t = if st.connecting then t else opened

-- What a call meets outside the service.
pub record Surroundings (S : Store) : Type 0 where
  pub teams : Reader
  pub broker : Broker
  pub network : Network
  pub codec : Codec
  pub env : ℕ → S.Env
  pub now : Time

abbrev pub is_some {ℓ} : {A : Type ℓ} → Option A → Bool
is_some none = false
is_some (some a) = true

module _ {S : Store} (outside : Surroundings S) where
  -- `lazyPublisher` at a moment: the broker, once it is connected.
  unfoldable pub lazy_publisher : Started → Eventing → Option Broker
  unfolding live
  lazy_publisher st t = elim (publisher_or_nil (live st t)) [
    | none ↦ none
    | some connection ↦ some outside.broker
  ]

  -- The application that `run` makes, at a moment of the connector.
  unfoldable pub application : (Bytes → Bytes) → Started → Eventing → Application S
  unfolding lazy_publisher live
  application unicode_lower st t = record {
    event_year = st.config.event_year;
    webhook_secret = st.config.webhook_secret;
    teams = if st.has_teams then some outside.teams else none;
    photo_table = if st.has_table then some (lazy_publisher st t) else none;
    has_blobs = true;
    has_publisher = st.has_eventing && is_some (publisher_or_nil (live st t));
    unicode_lower = unicode_lower;
    network = outside.network;
    fetcher = st.fetcher;
    codec = outside.codec;
    env = outside.env;
    now = outside.now;
  }
