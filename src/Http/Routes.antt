-- ===== src/Http/Routes.antt =====
-- The way of a request to its handler: `routes` of go/cmd/api/routes.go. Package httprouter is a
-- parameter: it has the table and picks a handler for a method and a path.
pub mod Laws
use foto.Base.{
  ℕ, ◌≡◌, Bool, true, false, Option, none, some, List, [], ◌∷◌, ◌++◌, Bytes, bytes_eq, codes, any,
  is_empty, ◌==◌,
}
use foto.Base.Dict.{Dict, lookup}
use foto.Blob.Store.{Store}
use foto.Photo.Sql.{Formats}
use foto.Photo.Commands.{Log}
use foto.Photo.Query.{Reader}
use foto.Photo.Query.Laws.{Exists}
use foto.Ingest.Webhook.{KameraPayload, Application, kamera_callback_handler}
use foto.Serving.{show_photo_handler, list_team_photos_handler}
use foto.Http.{Writer, new_writer, Connection, not_found_response, method_not_allowed_response}
use foto.Http.Webhook.{Outside, reply}
use foto.Http.Handlers.{Marshal, healthcheck_handler, write_listing, write_photo}

-- The four methods of `application` that are registered.
pub data Handler : Type 0 where
  healthcheck : Handler
  list_team_photos : Handler
  kamera_callback : Handler
  show_photo : Handler

-- A path: a text, or a text with one parameter in it, `before:nameafter`.
pub data Pattern : Type 0 where
  exactly : Bytes → Pattern
  with_param : Bytes → Bytes → Bytes → Pattern

pub record Route : Type 0 where
  pub method : Bytes
  pub pattern : Pattern
  pub handler : Handler

-- The calls of `router.HandlerFunc`, in their order.
abbrev pub routes : List Route
routes =
    record {
      method = codes "GET";
      pattern = exactly (codes "/api/healthcheck");
      handler = healthcheck;
    }
    ∷ record {
      method = codes "GET";
      pattern = with_param (codes "/api/patruljer/") (codes "teamId") (codes "/photos");
      handler = list_team_photos;
    }
    ∷ record {
      method = codes "POST";
      pattern = exactly (codes "/callback/kamera");
      handler = kamera_callback;
    }
    ∷ record {
      method = codes "GET";
      pattern = with_param (codes "/photos/") (codes "ref") [];
      handler = show_photo;
    }
    ∷ record {
      method = codes "HEAD";
      pattern = with_param (codes "/photos/") (codes "ref") [];
      handler = show_photo;
    }
    ∷ []

-- The parameters of a request, as `ByName` reads them.
abbrev pub Params : Type 0
Params = Bytes → Bytes

-- What the router makes of a request: a handler with its parameters, a call of `MethodNotAllowed` or
-- of `NotFound`, or an answer of its own, a redirect or the one to OPTIONS.
pub data Match : Type 0 where
  handled : Handler → Params → Match
  not_allowed : Match
  not_found : Match
  own : Writer → Match

-- The router, on its table, a method and a path.
abbrev pub Router : Type 0
Router = List Route → Bytes → Bytes → Match

-- A parameter stands for one filled segment of the path.
abbrev pub IsSegment : Bytes → Type 0
IsSegment value = (is_empty value ≡ false) × (any (λ c. c == b'/') value ≡ false)

abbrev pub Fits : Pattern → Bytes → Params → Type 0
Fits (exactly text) path params = path ≡ text
Fits (with_param before name after) path params =
    (value : Bytes) × IsSegment value × (path ≡ before ++ (value ++ after)) × (params name ≡ value)

abbrev pub Takes : Bytes → Bytes → Handler → Params → Route → Type 0
Takes method path handler params route =
    (route.method ≡ method) × (route.handler ≡ handler) × Fits route.pattern path params

-- What httprouter documents, at this table: a handler runs for a registered method and a path that fits
-- its pattern, and a request that fits a route of its method gets to a handler.
pub record IsRouter (router : Router) : Type 0 where
  pub sound :
      (method path : Bytes) (handler : Handler) (params : Params)
      → router routes method path ≡ handled handler params
      → Exists (Takes method path handler params) routes
  pub complete :
      (method path : Bytes) (handler : Handler) (params : Params)
      → Exists (Takes method path handler params) routes
      → (other : Handler) × (found : Params) × (router routes method path ≡ handled other found)

-- A request: the header's secret, the payload as far as it is read, and whether it is read without an
-- error.
pub record Request : Type 0 where
  pub method : Bytes
  pub path : Bytes
  pub given : Bytes
  pub payload : KameraPayload
  pub is_read : Bool

-- What is around one request.
pub record Service (S : Store) : Type 0 where
  pub app : Application S
  pub environment : Bytes
  pub version : Bytes
  -- the photo table, none if it is nil, and what its reader answers
  pub readers : Option (Option Reader)
  pub formats : Formats
  pub env : S.Env
  pub marshal : Marshal
  pub outside : Outside
  pub connection : Connection

abbrev pub read_payload : Request → Option KameraPayload
read_payload request = elim request.is_read [ true ↦ some request.payload | false ↦ none ]

module _ {S : Store} (service : Service S) (request : Request) where
  -- A handler on its parameters: the response, and the store and the log behind it.
  unfoldable pub handle : Handler → Params → S.State → Log → Writer × S.State × Log
  handle healthcheck params s log = (
    healthcheck_handler service.marshal service.connection service.app service.environment
        service.version,
    s,
    log,
  )
  handle list_team_photos params s log = (
    write_listing service.marshal service.connection (
        list_team_photos_handler service.formats service.readers service.app.event_year
          (params (codes "teamId"))),
    s,
    log,
  )
  handle kamera_callback params s log =
      let run = kamera_callback_handler service.app request.given (read_payload request) s log in
      (reply service.outside service.connection request.payload run.outcome, run.objects, run.log)
  handle show_photo params s log = (
    write_photo service.marshal service.connection (
        show_photo_handler service.formats S service.env service.readers service.app.has_blobs
          (params (codes "ref")) (bytes_eq request.method (codes "HEAD")) s),
    s,
    log,
  )

  -- `routes().ServeHTTP`.
  unfoldable pub serve_http : Router → S.State → Log → Writer × S.State × Log
  unfolding handle
  serve_http router s log = elim (router routes request.method request.path) [
    | handled handler params ↦ handle handler params s log
    | not_allowed ↦ (
      method_not_allowed_response service.marshal.envelope service.connection request.method
          new_writer,
      s,
      log,
    )
    | not_found ↦
        (not_found_response service.marshal.envelope service.connection new_writer, s, log)
    | own answer ↦ (answer, s, log)
  ]
