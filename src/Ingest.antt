-- ===== src/Ingest.antt =====
-- The module internal/module/ingest: the worker that follows the chain, the backfill and the replay.
pub mod Model
pub mod Timing
pub mod Materialize
pub mod Exec
pub mod Store
pub mod Worker
pub mod Backfill
pub mod Replay
