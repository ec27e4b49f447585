-- ===== src/WorkerPool/Consistent/Workers.antt =====
-- Which worker has which task, after any history of the pool of aiomisc/worker_pool.py.
use aiomisc.Base.{
  ℕ, ◌≡◌, refl, ap, subst, ◌∙◌, inl, inr, some, List, arith, nat_beq, if◌then◌else◌, nat_beq_iff,
  Bool-cases, nat_eq, list_eq, pair_eq,
}
use aiomisc.Base.Dict.{lookup, total-two, All-lookup, total}
use aiomisc.WorkerPool.{has_process, Task, Handler, for_answer, WorkerPool, new_worker_pool}
use aiomisc.WorkerPool.Histories.{Event, run}
use aiomisc.WorkerPool.Aside.{serves, refs_waiting}
use aiomisc.WorkerPool.Consistent.{HasProcess, IsConsistent, one, new_worker_pool-IsConsistent}
use aiomisc.WorkerPool.Consistent.Runs.{run-IsConsistent}

serving :
    {C : Type 0} (r : ℕ) (w : Handler C) (t : Task C)
    → w.waiting ≡ for_answer t
    → t.result_future ≡ r
    → serves r w ≡ 1
serving r w t e f =
    ap (refs_waiting r) e ∙ ap (λ b. if b then 1 else 0) ((nat_beq_iff t.result_future r).1 f)

module _ {V E C : Type 0} (hmac : List ℕ → List ℕ → List ℕ) (ids : List (List ℕ)) (cookie : List ℕ)
    (max_overflow : ℕ) where
  -- The pool after a history.
  abbrev pub after : List (Event V E C) → WorkerPool V E C
  after events = run hmac (new_worker_pool ids cookie max_overflow) events

  after-IsConsistent : (events : List (Event V E C)) → IsConsistent (after events)
  after-IsConsistent events =
      run-IsConsistent hmac (new_worker_pool ids cookie max_overflow) events
        (new_worker_pool-IsConsistent V E C ids cookie max_overflow)

  -- No task is with two workers at once: two handlers that await the answer to tasks with the same
  -- result's future are the same handler, after any history of the pool.
  pub run-one_handler :
      (events : List (Event V E C)) (h k : ℕ) (w v : Handler C) (t u : Task C)
      → lookup h (after events).handlers ≡ some w
      → lookup k (after events).handlers ≡ some v
      → w.waiting ≡ for_answer t
      → v.waiting ≡ for_answer u
      → t.result_future ≡ u.result_future
      → h ≡ k
  run-one_handler events h k w v t u hw hv et eu same = elim (Bool-cases (nat_beq h k)) [
    | inl e ↦ (nat_beq_iff h k).0 e
    | inr n ↦
        let r = u.result_future in
        absurd (
          omega (
            arith,
            (after-IsConsistent events).exclusive r,
            total-two (serves r) h k w v (after events).handlers n hw hv,
            serving r w t et same,
            serving r v u eu refl,
          ))
  ]

  -- While a worker has a task, the process future of the task holds the number of that worker's
  -- process; and the
  -- statistic's `processes` is the number of handlers that are connected.
  pub run-HasProcess :
      (events : List (Event V E C)) (h : ℕ) (w : Handler C) (t : Task C)
      → lookup h (after events).handlers ≡ some w
      → w.waiting ≡ for_answer t
      → ((after events).states t.process_future ≡ has_process w.pid)
        × (total one (after events).handlers ≡ (after events).statistic.processes)
  run-HasProcess events h w t found e =
      let c = after-IsConsistent events in
      (
        subst (HasProcess (after events).states w.pid) e (
            All-lookup (λ v. HasProcess (after events).states v.pid v.waiting) h w
              (after events).handlers found c.served),
        c.counted,
      )
