-- ===== src/Command.antt =====
-- internal/pipeline/command: the queue of commands, the scheduler that sends them and the pipeline
-- that the API calls.
pub mod Item
pub mod Queue
pub mod Metrics
pub mod Scheduler
pub mod Pipeline
pub mod System
