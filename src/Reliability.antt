-- ===== src/Reliability.antt =====
-- The modules for dawn_kestrel/reliability/queue_worker.py.
pub mod Tasks
pub mod Workers
pub mod Pool
