-- ===== src/Photo.antt =====
-- The read model of photographs: go/nathejk/table/photo. The packages of the message bus and of the
-- database are parameters.
pub mod Messages
pub mod Subject
pub mod Sql
pub mod Table
pub mod Replay
pub mod Commands
pub mod Query
