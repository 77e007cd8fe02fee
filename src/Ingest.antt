-- ===== src/Ingest.antt =====
-- The camera app's webhook: go/cmd/api/callback.go and go/cmd/api/ingest.go. The parts that the handler
-- calls are the other modules' definitions; the HTTP server and the logger are left out.
pub mod Rejection
pub mod Storing
pub mod Webhook
