-- ===== src/Http/Handlers.antt =====
-- The other handlers' responses: go/cmd/api/healthcheck.go and the ends of the handlers in
-- go/cmd/api/photos.go. What they marshal to JSON is a parameter.
pub mod Photos
pub mod Health
use foto.Base.{
  ℕ, Bool, true, false, not, Option, none, some, List, [], ◌∷◌, Bytes, codes, is_empty,
  if◌then◌else◌,
}
use foto.Blob.Store.{Store}
use foto.Photo.Query.{Photo}
use foto.Ingest.Webhook.{Application, ready}
use foto.Serving.{
  Response, unavailable, missing, failed, shown, Listing, unlisted, no_team, broken, listed,
}
use foto.Http.{
  Writer, new_writer, set_header, write_header, Connection, write, write_or_fail, Envelope,
  server_error_response, not_found_response, service_unavailable_response,
}

pub record HealthcheckResponse : Type 0 where
  pub status : Bytes
  pub environment : Bytes
  pub version : Bytes
  pub ready : Bool
  pub not_ready : Bytes

-- What is missing, in the order of the tests of `ready`.
unfoldable pub ready_error : {S : Store} → Application S → Option Bytes
ready_error app = elim app.teams [
  | none ↦ some (codes "no team resolver: database unavailable")
  | some reader ↦ elim app.photo_table [
    | none ↦ some (codes "no photo read model: database unavailable")
    | some table ↦
        if not app.has_blobs
        then some (codes "no blob store")
        else if not app.has_publisher
        then some (codes "no event publisher: broker unavailable")
        else none
  ]
]

unfoldable pub health_of : {S : Store} → Application S → Bytes → Bytes → HealthcheckResponse
unfolding ready_error
health_of app environment version = elim (ready_error app) [
  | none ↦ record {
    status = codes "available";
    environment = environment;
    version = version;
    ready = true;
    not_ready = [];
  }
  | some reason ↦ record {
    status = codes "available";
    environment = environment;
    version = version;
    ready = false;
    not_ready = reason;
  }
]

-- `json.Marshal` of the bodies.
pub record Marshal : Type 0 where
  pub envelope : Envelope → Option Bytes
  pub health : HealthcheckResponse → Option Bytes
  pub photos : Bytes → Bytes → List Photo → Option Bytes

module _ (m : Marshal) (c : Connection) where
  unfoldable pub healthcheck_handler : {S : Store} → Application S → Bytes → Bytes → Writer
  unfolding health_of
  healthcheck_handler app environment version =
      write_or_fail m.envelope c (m.health (health_of app environment version)) 200 new_writer

  unfoldable pub write_listing : Listing → Writer
  write_listing unlisted =
      service_unavailable_response m.envelope c (codes "the photo read model is unavailable")
        new_writer
  write_listing no_team = not_found_response m.envelope c new_writer
  write_listing broken = server_error_response m.envelope c new_writer
  write_listing (listed year team_id photos) =
      write_or_fail m.envelope c (m.photos year team_id photos) 200 new_writer

  -- The headers of a photograph.
  unfoldable pub photo_headers : Bytes → Writer → Writer
  photo_headers kind w = set_header (codes "X-Content-Type-Options") (codes "nosniff") (
      set_header (codes "Referrer-Policy") (codes "no-referrer") (
        set_header (codes "Cache-Control") (codes "public, max-age=31536000, immutable")
          (set_header (codes "Content-Type") kind w)))

  -- A handler that returns without a status sends 200.
  unfoldable pub write_photo : Response → Writer
  unfolding photo_headers
  write_photo unavailable =
      service_unavailable_response m.envelope c (codes "photo storage is unavailable") new_writer
  write_photo missing = not_found_response m.envelope c new_writer
  write_photo failed = server_error_response m.envelope c new_writer
  write_photo (shown kind none) = write_header 200 (photo_headers kind new_writer)
  write_photo (shown kind (some content)) = (write c content (photo_headers kind new_writer)).1
