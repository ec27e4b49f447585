-- ===== src/Worker.antt =====
-- aiomisc_worker: what runs beside the program, the worker processes with their supervisor, and the
-- packets in which they talk with the pool of aiomisc/worker_pool.py.
pub mod Protocol
pub mod Process
pub mod Supervisor
