-- ===== src/Examples.antt =====
-- The theorems at concrete inputs.
pub mod Toy
pub mod Imaging
pub mod Blob
pub mod Fetcher
pub mod Photo
pub mod ReadModel
pub mod Ingest
pub mod Replay
pub mod Eventing
pub mod Startup
pub mod Http
pub mod Pipeline
pub mod Concurrent
pub mod Server
pub mod Routes
