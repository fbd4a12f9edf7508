-- ===== src/Pzsvc.antt =====
-- The package pzsvc.
pub mod Model
pub mod Log
pub mod CustomError
pub mod Status
pub mod Json
pub mod Http
pub mod Job
pub mod File
pub mod Service
pub mod ExecResult
pub mod Config
pub mod Ids
pub mod Writer
pub mod TestUtils
