-- ===== src/Lib.antt =====
-- Verification of foto, the photograph service.
--
-- The camera app calls a webhook with a team number and the URL of a photograph. The service resolves
-- the team, fetches the bytes through a restricted client, decodes and scales them, puts the upload and
-- its renditions into a store addressed by content, and only then publishes an event; a projection
-- writes the event into a table, from which photographs are served. Each part is a module:
--
-- - Imaging: go/internal/imaging/imaging.go. Exif reads the orientation (`ReadOrientation`), Orient turns
--   an image (`applyOrientation`), Fit scales it, Bounds is `checkBounds`, and Prepare puts them together.
--   A slice expression and an index return a fault where Go panics.
-- - Blob: go/internal/blob. Ref has the hashes, Store the interface with its laws, Memory and File the two
--   stores. A call of FileStore returns every disk that it leaves behind a system call, and its
--   environment says which system calls fail; File/Racing cuts `Put` at its system calls, and a schedule
--   says which of the calls under way makes the next one.
-- - Fetcher: go/internal/fetcher/fetcher.go. Policy is the allowlist, Fetch a call with its redirects; a
--   call returns the URLs that it sent requests to.
-- - TeamNumber: go/internal/teamnumber/resolver.go.
-- - Photo: go/nathejk/table/photo. Subject, Sql, Messages, Table (the projection's handlers, with the text
--   of their statements in Table/Render), Commands and Query follow its files. Replay runs the projection
--   over a log, on a table with the primary key and the columns of table.sql.
-- - Ingest: go/cmd/api/callback.go, go/cmd/api/ingest.go and `ready` of go/cmd/api/main.go. Rejection is
--   the taxonomy, Storing is `storePhoto`, Webhook is `ingest` and the handler, on the parts above.
-- - Serving: `showPhotoHandler` and `listTeamPhotosHandler` of go/cmd/api/photos.go.
-- - Http: go/cmd/api/app/api.go on a model of the response writer, with the answers of the webhook
--   (`rejectIngest`), of the photo routes and of go/cmd/api/healthcheck.go. Routes is go/cmd/api/routes.go:
--   the table, and what a request gets from the handler that the router picks.
-- - Concurrent: calls of the webhook at the same time. `kameraCallbackHandler`, `ingest` and `storePhoto`
--   are cut into steps, each up to and including its next `Put` or `Publish`, and a schedule, a list of
--   calls, says who takes the next one on the store and the log that all share.
-- - Server: go/cmd/api/app/server.go, `Serve` and its goroutine as a step relation, and the exit status
--   of `main`.
-- - Config: go/cmd/api/env.go.
-- - Eventing: go/cmd/api/eventing.go, as a machine that takes one step at a time while handlers read the
--   publisher between any two steps.
-- - Startup: `run` of go/cmd/api/main.go up to the server, with go/cmd/api/database.go and
--   go/cmd/api/patrulje.go: from a configuration and what the calls of a start return to the application
--   that Ingest works on, at any moment of the connector.
-- - Pipeline: the way of a photograph through the parts: the answer of the webhook, the log, the table that
--   the log is replayed on, and the answer to a request for it at its address.
-- - Vcs: go/internal/vcs/vcs.go.
-- - Base has the types and lemmas that these share: bytes, results, association lists, decimals, and the
--   functions of package strings. Examples applies the theorems to concrete inputs.
--
-- Go functions keep their names in the spelling used here: `checkURL` is `check_url`. A Go map is an
-- association list, an `int` that may be negative is a ℤ, an error is a value. Loops that follow data read
-- from a file or a server run on fuel: the length of the upload for the markers of a JPEG, the count of
-- entries for an IFD, and two more than the limit of redirects for a fetch: a round of the first moves at
-- least two bytes on, one of the second reads an entry, and one of the third sends a request.
-- An `int` is taken to be wide enough for sizes and offsets of an upload, which is bounded by the fetcher;
-- where a product or a limit can wrap around, in `checkBounds` and `Fetch`, the 64 bits are written out.
--
-- Parameters stand for what is not in the repository: the image decoders and encoder, SHA-256, the
-- operating system, `url.Parse` and the servers, the tables behind `strings.ToLower`, encoding/json, the
-- database, the message bus, httprouter, net/http, package flag and `ParseDuration`. Hypotheses on them are records of their documented behaviour. SHA-256 is
-- never taken to be without collisions: where that matters, the hypothesis is that the contents concerned
-- do not collide: what lies in the store, and for each call the upload that it fetches with the display
-- image and the thumbnails that are made of it.
--
-- The database compares texts by a collation of its own, so that keys that it takes for one share a row,
-- and an INSERT leaves the key of a row that is there as it is. It takes a row that the columns of
-- table.sql hold, counted in bytes, of which a text has at least as many as characters; a row that it
-- does not take it refuses, as a server in strict mode does, and the table stays as it is.
--
-- Not modelled: log lines, the deferred closes of the database and the stream, the count of dead letters
-- and its ticker, which only log, and the projection of teams, which is another repository's. A `Put` is
-- one step of a schedule of Concurrent, and several of a schedule of Blob/File/Racing. A call of
-- the webhook meets one `Application` from its start to its end: what the broker, the database and the
-- network do at a call of theirs is a parameter, of each call its own.
pub mod Base
pub mod Imaging
pub mod Blob
pub mod Fetcher
pub mod TeamNumber
pub mod Photo
pub mod Ingest
pub mod Concurrent
pub mod Config
pub mod Eventing
pub mod Serving
pub mod Server
pub mod Vcs
pub mod Http
pub mod Pipeline
pub mod Startup
pub mod Examples
