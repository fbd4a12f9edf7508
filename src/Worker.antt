-- ===== src/Worker.antt =====
-- The worker: it runs one job in a container and reports its result to Piazza.
pub mod Config
pub mod Log
pub mod Input
pub mod Ingest
pub mod Exec
pub mod Cmd
