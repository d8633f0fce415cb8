-- ===== src/Metrics.antt =====
-- src/pyntara/metrics_commit.py, metrics_send.py and metrics.py: the queue of System Metrics from
-- the spool to the archive of the sent files, and the loop of the service.
mod Store
pub mod Machine
mod Dispatch
mod Stages
mod Command
mod Vault
mod Ingest
pub mod Times
pub mod Entries
pub mod Send
pub mod Backoff
mod Loop
mod Views
mod Rule
mod Refined
mod Dispatched
mod Stuck
mod Changes
mod Pause
mod Ingested
mod Samples
