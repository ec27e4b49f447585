-- ===== src/WorkerPool/Histories.antt =====
-- Whatever happens to the pool of aiomisc/worker_pool.py, as a sequence of steps. A connection waits
-- while `close` holds the lock.
use aiomisc.Base.{ℕ, Bool, List, [], ◌∷◌, if◌then◌else◌, nat_eq, list_eq, pair_eq}
use aiomisc.Base.Dict.{lookup}
use aiomisc.Base.Sets.{discard}
use aiomisc.WorkerPool.{
  ident, WorkerPool, Greeting, Sending, Answer, is_done, handle_client, begin_close, end_close,
}
use aiomisc.WorkerPool.Tasks.{
  create_task, put_waiting, take_turn, answer_turn, cancel_call, resume_call,
}

pub data Event (V E C : Type 0) : Type 0 where
  connects : Greeting E → Bool → Event V E C
  calls_task : C → Event V E C
  puts : Event V E C
  takes : ℕ → Sending E → Bool → Event V E C
  answers : ℕ → Answer V E → Bool → Event V E C
  cancels : ℕ → Bool → Event V E C
  resumes : ℕ → Event V E C
  forgets : ℕ → Event V E C
  begins_close : Event V E C
  ends_close : Event V E C

module _ {V E C : Type 0} where
  -- The done callback of a future.
  unfoldable pub forget : WorkerPool V E C → ℕ → WorkerPool V E C
  forget p i = if is_done (p.states i) then record p { futures = discard ident i p.futures } else p

  abbrev pub step : (List ℕ → List ℕ → List ℕ) → WorkerPool V E C → Event V E C → WorkerPool V E C
  step hmac p (connects g at_eof) = if p.closing_lock then p else (handle_client hmac p g at_eof).1
  step hmac p (calls_task c) = create_task p c
  step hmac p puts = put_waiting p
  step hmac p (takes h sending at_eof) = take_turn p h (lookup h p.handlers) sending at_eof
  step hmac p (answers h a at_eof) = answer_turn p h (lookup h p.handlers) a at_eof
  step hmac p (cancels i has_resumed) = cancel_call p i has_resumed
  step hmac p (resumes i) = resume_call p i
  step hmac p (forgets i) = forget p i
  step hmac p begins_close = begin_close p
  step hmac p ends_close = end_close p

  unfoldable pub run :
      (List ℕ → List ℕ → List ℕ) → WorkerPool V E C → List (Event V E C) → WorkerPool V E C
  run hmac p [] = p
  run hmac p (event ∷ events) = run hmac (step hmac p event) events
