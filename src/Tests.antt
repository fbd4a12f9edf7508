-- ===== src/Tests.antt =====
-- Every theorem at a concrete input, and runs of the text functions.
mod ArgvRuns
mod CapacityRuns
pub mod Sample
pub mod TextRuns
pub mod PzsvcRuns
pub mod DispatcherRuns
pub mod WorkerRuns
pub mod ThreadRuns
pub mod ReportRuns
pub mod DownloadRuns
pub mod IdRuns
pub mod PollRuns
