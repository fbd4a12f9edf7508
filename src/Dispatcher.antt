-- ===== src/Dispatcher.antt =====
-- The dispatcher: it polls Piazza for jobs and starts a Cloud Foundry task for each.
pub mod JobData
pub mod Cf
pub mod Limits
pub mod Command
pub mod Poll
pub mod Main
