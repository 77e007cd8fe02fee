-- ===== src/Fetcher.antt =====
-- The restricted HTTP client: go/internal/fetcher/fetcher.go. `url.Parse`, the transport that sends one
-- request, and the tables behind `ToLower` are parameters.
pub mod Policy
pub mod Fetch
