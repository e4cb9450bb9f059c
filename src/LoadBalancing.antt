-- ===== src/LoadBalancing.antt =====
-- node/src/multithreading/load_balancing_service: when a thread is to be split or to collapse, from
-- the lengths of the queues of its last blocks.
pub mod Accounts
pub mod Aggregated
pub mod Service
pub mod Threads
mod Examples
