-- ===== src/WorkerPool/Remote.antt =====
-- A task of aiomisc/worker_pool.py and the worker of aiomisc_worker/worker.py that runs it: what the
-- caller gets. The exceptions that travel are those of the worker.
use aiomisc.Base.{
  ℕ, ◌≡◌, refl, ap, ◌∙◌, Bool, true, false, Option, none, some, List, [], ◌∷◌, nat_beq_iff, nat_eq,
  list_eq, pair_eq,
}
use aiomisc.Worker.Process.{
  send_checked, send_result, run_function, continue_after, request, exited, Raised,
  connection_raised, cancelled_raised, exit_raised, unexpected_request, failed_to_authorize,
  exception_raised, Ending, returns, raises, Packet, result_packet, cancelled_packet,
  exception_packet, request_packet, serve, execute, is_request, handle_raised,
}
use aiomisc.WorkerPool.{
  FutureState, has_result, failed, by_function, process_exited, cancelled_error, is_done, Task,
  WorkerPool, Answer, answer_result, answer_exception, answer_cancelled, answer_other,
  answer_disconnected, answer_refused, Fault, by_handler, set_state, end_handler, loop_head,
}
use aiomisc.WorkerPool.Tasks.{end_task}

-- How the pool receives what a worker has sent, given how it receives one packet, the unpickling of
-- its payload included. A worker that has sent nothing has closed the connection.
abbrev pub read_answer :
    {V E : Type 0} → (Packet V E → Answer V (Raised E)) → List (Packet V E) → Answer V (Raised E)
read_answer receives [] = answer_disconnected
read_answer receives (p ∷ ps) = receives p

-- `refuse` gives what `set_exception` raises for an exception that it refuses: TypeError for
-- StopIteration.
abbrev exception_answer : {V E : Type 0} → Option (Raised E) → Raised E → Answer V (Raised E)
exception_answer none x = answer_exception x
exception_answer (some e) x = answer_refused e

abbrev pub as_sent :
    {V E : Type 0} → (Raised E → Option (Raised E)) → Packet V E → Answer V (Raised E)
as_sent refuse (result_packet v) = answer_result v
as_sent refuse (exception_packet x) = exception_answer (refuse x) x
as_sent refuse cancelled_packet = answer_cancelled
as_sent refuse _ = answer_other

abbrev fault_of : {E : Type 0} → Option (Raised E) → Raised E → Fault (Raised E)
fault_of none x = by_function x
fault_of (some e) x = by_handler e

-- What the caller of a function is to get, had it been called where it stands; a worker that goes down
-- with the function gives ProcessError.
abbrev pub called :
    {V E : Type 0} → (Raised E → Option (Raised E)) → ℕ → Ending V E → FutureState V (Raised E)
called refuse pid (returns v) = has_result v
called refuse pid (raises connection_raised) = failed (process_exited pid)
called refuse pid (raises (exit_raised s)) = failed (process_exited pid)
called refuse pid (raises cancelled_raised) = failed cancelled_error
called refuse pid (raises x) = failed (fault_of (refuse x) x)

-- Every packet is received as it was sent, so its payload can be unpickled.
abbrev pub Receives :
    {V E : Type 0} → (Packet V E → Answer V (Raised E)) → (Raised E → Option (Raised E)) → Type 0
Receives {V = V} {E = E} receives refuse = (p : Packet V E) → receives p ≡ as_sent refuse p

module _ {V E C : Type 0} (call : C → Ending V E)
    (send_fails : Packet V E → Option (Raised E)) where
  -- The packets of a worker that gets one request.
  abbrev pub answers_of : C → List (Packet V E)
  answers_of c = (serve call send_fails (request_packet request c ∷ [])).0

-- All packets that a function's end calls for can be sent.
abbrev pub CanSend : {V E : Type 0} → (Packet V E → Option (Raised E)) → Type 0
CanSend {V = V} {E = E} send_fails = (p : Packet V E) → send_fails p ≡ none

module _ {V E C : Type 0} (call : C → Ending V E) (send_fails : Packet V E → Option (Raised E))
    (receives : Packet V E → Answer V (Raised E)) (refuse : Raised E → Option (Raised E)) where
  -- The answer that belongs to how the function ends.
  abbrev due_answer : Ending V E → Answer V (Raised E)
  due_answer (returns v) = answer_result v
  due_answer (raises connection_raised) = answer_disconnected
  due_answer (raises (exit_raised s)) = answer_disconnected
  due_answer (raises cancelled_raised) = answer_cancelled
  due_answer (raises x) = exception_answer (refuse x) x

  -- What is read of one packet that is checked and sent.
  unfoldable read_sent : Packet V E → Option (Raised E) → Answer V (Raised E)
  read_sent p o =
      read_answer receives
        (continue_after call send_fails (send_checked call send_fails p o) ([], exited)).0

  read_sent_due :
      (p : Packet V E)
      → CanSend send_fails
      → Receives receives refuse
      → read_sent p (send_fails p) ≡ as_sent refuse p
  unfolding read_sent
  read_sent_due p can received = ap (read_sent p) (can p) ∙ received p

  run_function-due :
      (r : Ending V E)
      → CanSend send_fails
      → Receives receives refuse
      → read_answer receives
          (continue_after call send_fails (run_function call send_fails r) ([], exited)).0
        ≡ due_answer r
  unfolding handle_raised read_sent
  run_function-due (returns v) can received =
      ap
        (λ o.
          read_answer receives
            (continue_after call send_fails (send_result call send_fails v o) ([], exited)).0)
        (can (result_packet v))
      ∙ received (result_packet v)
  run_function-due (raises connection_raised) can received = refl
  run_function-due (raises (exit_raised s)) can received = refl
  run_function-due (raises cancelled_raised) can received =
      read_sent_due cancelled_packet can received
  run_function-due (raises unexpected_request) can received =
      read_sent_due (exception_packet unexpected_request) can received
  run_function-due (raises failed_to_authorize) can received =
      read_sent_due (exception_packet failed_to_authorize) can received
  run_function-due (raises (exception_raised x)) can received =
      read_sent_due (exception_packet (exception_raised x)) can received

  sent_answer :
      (c : C)
      → CanSend send_fails
      → Receives receives refuse
      → read_answer receives (answers_of call send_fails c) ≡ due_answer (call c)
  unfolding serve execute is_request
  sent_answer c can received = run_function-due (call c) can received

  set_then_loops :
      (p : WorkerPool V (Raised E) C) (h pid i : ℕ) (s : FutureState V (Raised E)) (at_eof : Bool)
      → (loop_head (set_state p i s) h pid at_eof).states i ≡ s
  unfolding loop_head end_handler
  set_then_loops p h pid i s true = rw ((nat_beq_iff i i).1 refl) refl
  set_then_loops p h pid i s false = rw ((nat_beq_iff i i).1 refl) refl

  end_task-exception :
      (p : WorkerPool V (Raised E) C) (h pid : ℕ) (t : Task C) (x : Raised E)
      (o : Option (Raised E)) (at_eof : Bool)
      → is_done (p.states t.result_future) ≡ false
      → (end_task p h pid t (exception_answer o x) at_eof).states t.result_future
        ≡ failed (fault_of o x)
  unfolding end_task end_handler
  end_task-exception p h pid t x none at_eof n =
      rw n (set_then_loops p h pid t.result_future (failed (by_function x)) at_eof)
  end_task-exception p h pid t x (some e) at_eof n =
      rw n (rw ((nat_beq_iff t.result_future t.result_future).1 refl) refl)

  end_task-due :
      (p : WorkerPool V (Raised E) C) (h pid : ℕ) (t : Task C) (r : Ending V E) (at_eof : Bool)
      → is_done (p.states t.result_future) ≡ false
      → (end_task p h pid t (due_answer r) at_eof).states t.result_future ≡ called refuse pid r
  unfolding end_task end_handler
  end_task-due p h pid t (returns v) at_eof n =
      rw n (set_then_loops p h pid t.result_future (has_result v) at_eof)
  end_task-due p h pid t (raises connection_raised) at_eof n =
      rw n (rw ((nat_beq_iff t.result_future t.result_future).1 refl) refl)
  end_task-due p h pid t (raises (exit_raised s)) at_eof n =
      rw n (rw ((nat_beq_iff t.result_future t.result_future).1 refl) refl)
  end_task-due p h pid t (raises cancelled_raised) at_eof n =
      rw n (set_then_loops p h pid t.result_future (failed cancelled_error) at_eof)
  end_task-due p h pid t (raises unexpected_request) at_eof n =
      end_task-exception p h pid t unexpected_request (refuse unexpected_request) at_eof n
  end_task-due p h pid t (raises failed_to_authorize) at_eof n =
      end_task-exception p h pid t failed_to_authorize (refuse failed_to_authorize) at_eof n
  end_task-due p h pid t (raises (exception_raised x)) at_eof n =
      end_task-exception p h pid t (exception_raised x) (refuse (exception_raised x)) at_eof n

  -- A task that is answered by the loop of a worker that got its request.
  pub end_task-serve :
      (p : WorkerPool V (Raised E) C) (h pid : ℕ) (t : Task C) (at_eof : Bool)
      → CanSend send_fails
      → Receives receives refuse
      → is_done (p.states t.result_future) ≡ false
      → (end_task p h pid t
            (read_answer receives (answers_of call send_fails t.func))
            at_eof).states
          t.result_future
        ≡ called refuse pid (call t.func)
  end_task-serve p h pid t at_eof can received n =
      ap (λ a. (end_task p h pid t a at_eof).states t.result_future)
        (sent_answer t.func can received)
      ∙ end_task-due p h pid t (call t.func) at_eof n
