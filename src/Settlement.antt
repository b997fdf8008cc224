-- ===== src/Settlement.antt =====
-- services/settlement: the consumer of the queue, the decision pipeline, and its two stores.
pub mod Db
pub mod Redis
pub mod Effects
pub mod Dedupe
pub mod Outcome
pub mod Metrics
pub mod Views
pub mod Consumer
pub mod App
pub mod System
pub mod Ledger
pub mod Schema
pub mod Processor
