-- ===== src/ThreadPool/Bounds.antt =====
-- The number of threads of the pool of aiomisc/thread_pool.py, and its statistic.
use aiomisc.Base.{◌+◌, ◌≤◌, ◌≡◌, ◌⊎◌, true, nat_eq, list_eq, pair_eq}
use aiomisc.ThreadPool.{Executor}
use aiomisc.ThreadPool.Alike.{Alike}

-- Until the shutdown at least one thread has been started, and the statistic counts no more than were.
-- There are at most `max_workers` of them, also after the shutdown has deleted the pool; every
-- function that ended either succeeded or failed, and every future was submitted.
pub record IsBounded {V E : Type 0} (x : Executor V E) : Type 0 where
  pub some_thread : (x.shutdown_event ≡ true) ⊎ ((1 ≤ x.pool) × (x.statistic.threads ≤ x.pool))
  pub few_threads : x.pool ≤ x.max_workers
  pub live : x.statistic.threads ≤ x.max_workers
  pub ended : x.statistic.done ≡ x.statistic.success + x.statistic.error
  pub given : x.statistic.submitted ≡ x.next_future
