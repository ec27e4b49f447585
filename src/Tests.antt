-- ===== src/Tests.antt =====
-- Concrete runs of the definitions, and every theorem with hypotheses or parameters applied to one.
mod Dns
mod CircuitBreaker
mod Backoff
mod ThreadPool
mod Pool
mod Recurring
mod Aggregate
mod Service
mod Context
mod Worker
mod WorkerPool
mod Entrypoint
mod Utils
mod Signal
