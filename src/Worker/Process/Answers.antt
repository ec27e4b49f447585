-- ===== src/Worker/Process/Answers.antt =====
-- The answers of the loop of aiomisc_worker/worker.py.
use aiomisc.Base.{
  map, ◌≡◌, refl, sym, ap, subst, ◌∙◌, Option, none, some, List, [], ◌∷◌, ◌++◌, arith, nat_eq,
  list_eq, pair_eq, All,
}
use mathlib.Core.Option.{some-injective}
use aiomisc.Worker.Process.{
  send, send_result, run_function, request, Raised, connection_raised, cancelled_raised,
  exit_raised, unexpected_request, failed_to_authorize, exception_raised, Ending, returns, raises,
  Packet, result_packet, cancelled_packet, exception_packet, Incoming, request_packet, exited,
  execute, serve, handle_raised, is_request, send_checked, Exit, continue_after,
}

-- The answer that the pool is due for a function that ends so; none when the worker goes down with it.
abbrev pub answer : {V E : Type 0} → Ending V E → Option (Packet V E)
answer (returns v) = some (result_packet v)
answer (raises connection_raised) = none
answer (raises (exit_raised s)) = none
answer (raises cancelled_raised) = some cancelled_packet
answer (raises x) = some (exception_packet x)

module _ {F V E : Type 0} (call : F → Ending V E)
    (send_fails : Packet V E → Option (Raised E)) where
  -- A function whose answer can be sent.
  pub record IsAnswered (f : F) (p : Packet V E) : Type 0 where
    pub due : answer (call f) ≡ some p
    pub sent : send_fails p ≡ none

  sends :
      (q p : Packet V E)
      → some q ≡ some p
      → send_fails p ≡ none
      → send call send_fails q ≡ (p ∷ [], none)
  sends q p e sent =
      subst (λ r. send call send_fails r ≡ (p ∷ [], none)) (sym (some-injective _ _ e))
        (ap (send_checked call send_fails p) sent)

  handle_raised-answer :
      (x : Raised E) (p : Packet V E)
      → answer {V = V} (raises x) ≡ some p
      → send_fails p ≡ none
      → handle_raised call send_fails x ≡ (p ∷ [], none)
  unfolding handle_raised
  handle_raised-answer connection_raised p due sent = absurd (ground arith)
  handle_raised-answer (exit_raised s) p due sent = absurd (ground arith)
  handle_raised-answer cancelled_raised p due sent = sends _ p due sent
  handle_raised-answer unexpected_request p due sent = sends _ p due sent
  handle_raised-answer failed_to_authorize p due sent = sends _ p due sent
  handle_raised-answer (exception_raised e) p due sent = sends _ p due sent

  run_function-answer :
      (r : Ending V E) (p : Packet V E)
      → answer r ≡ some p
      → send_fails p ≡ none
      → run_function call send_fails r ≡ (p ∷ [], none)
  run_function-answer (returns v) p due sent =
      subst (λ q. run_function call send_fails (returns v) ≡ (q ∷ [], none))
        (some-injective _ _ due)
        (ap (send_result call send_fails v) (ap send_fails (some-injective _ _ due) ∙ sent))
  run_function-answer (raises x) p due sent = handle_raised-answer x p due sent

  execute-answer :
      (f : F) (p : Packet V E)
      → IsAnswered f p
      → execute call send_fails (request_packet request f) ≡ (p ∷ [], none)
  unfolding execute is_request
  execute-answer f p h = run_function-answer (call f) p h.due h.sent

  -- A worker answers every request once and in the order of the requests: with the value that the
  -- function returned, with the exception that it raised, or with its cancellation; and then it serves
  -- what comes after them. This holds for requests whose function ends in none of ConnectionError and
  -- SystemExit and whose answer can be sent.
  pub serve-answers :
      (due : F → Packet V E) (fs : List F) (later : List (Incoming F E))
      → All (λ f. IsAnswered f (due f)) fs
      → serve call send_fails (map (λ f. request_packet request f) fs ++ later)
        ≡ (map due fs ++ (serve call send_fails later).0, (serve call send_fails later).1)
  unfolding serve
  serve-answers due [] later h = refl
  serve-answers due (f ∷ fs) later h =
      ap
        (λ r.
          continue_after call send_fails r
            (serve call send_fails (map (λ g. request_packet request g) fs ++ later)))
        (execute-answer f (due f) h.0)
      ∙ ap (λ (r : List (Packet V E) × Exit). (due f ∷ r.0, r.1)) (serve-answers due fs later h.1)

  -- A function that raises ConnectionError ends its worker: there is no answer, later requests are not
  -- served, and the exit status is zero.
  pub serve-connection_raised :
      (f : F) (later : List (Incoming F E))
      → call f ≡ raises connection_raised
      → serve call send_fails (request_packet request f ∷ later) ≡ ([], exited)
  unfolding serve execute is_request handle_raised
  serve-connection_raised f later h = rw h refl
