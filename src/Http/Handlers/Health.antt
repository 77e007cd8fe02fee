-- ===== src/Http/Handlers/Health.antt =====
-- The health check.
use foto.Base.{◌≡◌, refl, ap, arith, some, Bytes, is_empty}
use foto.Blob.Store.{Store}
use foto.Ingest.Webhook.{Application, ready}
use foto.Http.{Connection, new_writer}
use foto.Http.Laws.{status_from, status_of, write_or_fail-first}
use foto.Http.Handlers.{ready_error, health_of, Marshal, healthcheck_handler}

-- The health check answers 200 whether or not the service is ready, if its body can be marshalled; the body
-- says ready exactly when `ready` holds, and names what is missing exactly when it does not.
pub healthcheck_handler-status :
    (m : Marshal) (c : Connection) {S : Store} (app : Application S) (environment version t : Bytes)
    → m.health (health_of app environment version) ≡ some t
    → (status_of (healthcheck_handler m c app environment version) ≡ some 200)
      × ((health_of app environment version).ready ≡ ready app)
      × (is_empty (health_of app environment version).not_ready ≡ ready app)
unfolding healthcheck_handler health_of ready_error ready
healthcheck_handler-status m c app environment version t h = (
  rw h (ap status_from (write_or_fail-first m.envelope c t 200 new_writer refl)),
  ground arith,
  ground arith,
)
