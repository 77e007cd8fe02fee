-- ===== src/Startup/Cases.antt =====
-- Which starts succeed, and what a service that has started consists of.
use foto.Base.{
  ◌≡◌, refl, ap, ◌∙◌, subst, ◌⊎◌, inl, inr, arith, Bool, true, false, Bool-cases, not, ◌&&◌, Bytes,
  is_empty, ◌||◌, if◌then◌else◌, Result, ok, err, >>=-eq-ok, ok-injective,
}
use foto.Base.Int.{pos, leb_ℤ}
use foto.Blob.File.{new_file_store, private_dir}
use foto.Config.{Config}
use foto.Fetcher.Policy.{Fetcher, FetchError, new_fetcher}
use foto.Startup.{
  StartError, World, open_db, open_eventing, new_patrulje_projection, new_table, Blobs, in_memory,
  on_disk, open_blob_store, Started, accept_db, accept_eventing, accept_fetcher, start,
}

-- The database is reached and takes the schemas, or none is configured.
abbrev pub is_database_up : World → Config → Bool
is_database_up w cfg =
    is_empty cfg.db_dsn
    || (w.opens
        && (w.pings
            && (w.creates_deadletters && (w.resets && (w.mounts_patrulje && w.creates_table)))))

-- The directory of the objects can be made private, or none is configured.
abbrev pub is_disk_private : World → Config → Bool
is_disk_private w cfg = is_empty cfg.blob_path || (not w.mkdir_fails && not w.chmod_fails)

-- The limits of the fetcher are positive.
abbrev pub is_limited : Config → Bool
is_limited cfg = not (leb_ℤ cfg.max_photo_bytes (pos 0)) && not (leb_ℤ cfg.fetch_timeout (pos 0))

abbrev pub is_ok : {A : Type 0} → Result StartError A → Bool
is_ok (ok a) = true
is_ok (err e) = false

abbrev has_db : Config → Bool
has_db cfg = not (is_empty cfg.db_dsn)

-- Photographs are kept in memory only where no directory is configured, else in that directory, private.
abbrev pub IsKept : Config → Blobs → Type 0
IsKept cfg blobs =
    ((is_empty cfg.blob_path ≡ true) × (blobs ≡ in_memory))
    ⊎ ((is_empty cfg.blob_path ≡ false) × (blobs ≡ on_disk cfg.blob_path private_dir))

-- The parts of a service that has started.
pub record IsStarted (lower : Bytes → Bytes) (cfg : Config) (st : Started) : Type 0 where
  pub config : st.config ≡ cfg
  pub eventing : st.has_eventing ≡ not (is_empty cfg.db_dsn)
  pub teams : st.has_teams ≡ not (is_empty cfg.db_dsn)
  pub table : st.has_table ≡ not (is_empty cfg.db_dsn)
  pub connecting : st.connecting ≡ (not (is_empty cfg.db_dsn) && not (is_empty cfg.jetstream_dsn))
  pub kept : IsKept cfg st.blobs
  pub fetcher :
      new_fetcher lower cfg.photo_hosts cfg.max_photo_bytes cfg.fetch_timeout ≡ ok st.fetcher

accept_db-ok :
    (w : World) (cfg : Config) (b : Bool) → accept_db (open_db w cfg) ≡ ok b → b ≡ has_db cfg
unfolding open_db
accept_db-ok w cfg b h = ground arith

accept_eventing-ok :
    (w : World) (cfg : Config) (b ev : Bool)
    → accept_eventing (open_eventing w cfg b) ≡ ok ev
    → ev ≡ b
unfolding open_eventing
accept_eventing-ok w cfg b ev h = ground arith

new_patrulje_projection-ok :
    (w : World) (ev teams : Bool) → new_patrulje_projection w ev ≡ ok teams → teams ≡ ev
unfolding new_patrulje_projection
new_patrulje_projection-ok w ev teams h = ground arith

new_table-ok :
    (w : World) (ev table : Bool)
    → (if ev then new_table w ev else ok false) ≡ ok table
    → table ≡ ev
unfolding new_table
new_table-ok w ev table h = ground arith

open_blob_store-IsKept :
    (w : World) (cfg : Config) (blobs : Blobs) → open_blob_store w cfg ≡ ok blobs → IsKept cfg blobs
unfolding open_blob_store new_file_store
open_blob_store-IsKept w cfg blobs h = elim (Bool-cases (is_empty cfg.blob_path)) [
  | inl e ↦ inl (e, ground arith)
  | inr e ↦ inr (e, ground arith)
]

accept_fetcher-ok :
    (r : Result FetchError Fetcher) (f : Fetcher) → accept_fetcher r ≡ ok f → r ≡ ok f
accept_fetcher-ok (ok g) f h = ap ok (ok-injective h)
accept_fetcher-ok (err e) f h = cc

-- A service that has started has the parts of its configuration: the projections and the resolver exactly
-- with a database, the connector exactly with a database and a broker, the fetcher of the configured hosts
-- and limits; photographs are kept in memory only if no directory is configured, and else in that
-- directory, which only its owner can enter.
pub start-IsStarted :
    (lower : Bytes → Bytes) (w : World) (cfg : Config) (st : Started)
    → start lower w cfg ≡ ok st
    → IsStarted lower cfg st
unfolding start
start-IsStarted lower w cfg st h =
    let (b, hb, h1) = >>=-eq-ok (accept_db (open_db w cfg)) _ h in
    let (ev, hev, h2) = >>=-eq-ok (accept_eventing (open_eventing w cfg b)) _ h1 in
    let (teams, ht, h3) = >>=-eq-ok (new_patrulje_projection w ev) _ h2 in
    let (table, hp, h4) = >>=-eq-ok (if ev then new_table w ev else ok false) _ h3 in
    let (blobs, hk, h5) = >>=-eq-ok (open_blob_store w cfg) _ h4 in
    let (f, hf, h6) =
      >>=-eq-ok
        (accept_fetcher (new_fetcher lower cfg.photo_hosts cfg.max_photo_bytes cfg.fetch_timeout)) _
        h5 in
    let eb = accept_db-ok w cfg b hb in
    let eev = accept_eventing-ok w cfg b ev hev ∙ eb in
    subst (IsStarted lower cfg) (ok-injective h6) (record {
      config = refl;
      eventing = eev;
      teams = new_patrulje_projection-ok w ev teams ht ∙ eev;
      table = new_table-ok w ev table hp ∙ eev;
      connecting = ap (λ e. e && not (is_empty cfg.jetstream_dsn)) eev;
      kept = open_blob_store-IsKept w cfg blobs hk;
      fetcher = accept_fetcher-ok _ f hf;
    })

-- The service starts exactly when the database that is configured is reached and takes the schemas, the
-- directory that is configured can be made private, and the fetcher's limits are positive. Neither a
-- database nor a broker has to be configured.
pub start-is_ok :
    (lower : Bytes → Bytes) (w : World) (cfg : Config)
    → is_ok (start lower w cfg)
      ≡ (is_database_up w cfg && (is_disk_private w cfg && is_limited cfg))
unfolding start open_db open_eventing new_patrulje_projection new_table open_blob_store
    new_file_store new_fetcher
start-is_ok lower w cfg = ground arith
