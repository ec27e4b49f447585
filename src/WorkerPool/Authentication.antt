-- ===== src/WorkerPool/Authentication.antt =====
-- Who gets tasks from the pool of aiomisc/worker_pool.py.
use aiomisc.Base.{
  ℕ, ◌≡◌, refl, ◌∙◌, Bool, false, not, ◌&&◌, List, arith, if_cases, ◌==◌, nat_eq, list_eq, pair_eq,
  sym, ap, subst, [], ◌∷◌, All,
}
use aiomisc.Base.Dict.{lookup}
use aiomisc.Worker.Process.{PacketType}
use aiomisc.WorkerPool.Tasks.{create_task, is_full, take_turn, answer_turn}
use aiomisc.WorkerPool.Histories.{
  Event, connects, calls_task, puts, takes, answers, cancels, resumes, forgets, begins_close,
  ends_close, forget, step, run,
}
use aiomisc.WorkerPool.Kept.{Kept, begin_close-Kept, handle_client-Kept, put_waiting-Kept}
use aiomisc.WorkerPool.Kept.Turns.{cancel_call-Kept, resume_call-Kept}
use aiomisc.WorkerPool.Futures.{end_close-Kept}
use aiomisc.WorkerPool.Aside.{
  put_waiting-Aside, cancel_call-Aside, resume_call-Aside, set_exception-Aside, begin_close-Aside,
}
use aiomisc.WorkerPool.{
  new_worker_pool, cancel_handlers, end_close, is_done, cancelled_error, WorkerPool, Greeting,
  has_id, is_auth, is_bad_initializer, is_exception, task_add, obey_bad_initializer, handle_client,
  by_initializer,
}

-- The proof of identity: a known worker's id, with the digest that only the cookie gives.
abbrev pub is_authentic :
    {E : Type 0} → (List ℕ → List ℕ → List ℕ) → List (List ℕ) → List ℕ → Greeting E → Bool
is_authentic hmac ids cookie g =
    not (is_bad_initializer g.packet_type)
    && is_auth g.packet_type
    && has_id ids g.worker_id
    && (hmac cookie g.worker_id == g.digest)

module _ {V E C : Type 0} (hmac : List ℕ → List ℕ → List ℕ) where
  refused-handlers :
      (p : WorkerPool V E C) (g : Greeting E) (at_eof : Bool)
      → is_authentic hmac p.workers p.cookie g ≡ false
      → (handle_client hmac p g at_eof).1.handlers ≡ p.handlers
  unfolding handle_client
  refused-handlers p₀ g at_eof h =
      let p = task_add p₀ in
      if_cases (λ (r : List PacketType × WorkerPool V E C). r.1.handlers ≡ p₀.handlers)
        (is_bad_initializer g.packet_type)
        (λ _. (begin_close-Aside (obey_bad_initializer p g)).same_handlers ∙ rejected p)
        (λ a.
          if_cases (λ (r : List PacketType × WorkerPool V E C). r.1.handlers ≡ p₀.handlers)
            (not (is_auth g.packet_type)) (λ _. refl)
            (λ b.
              if_cases (λ (r : List PacketType × WorkerPool V E C). r.1.handlers ≡ p₀.handlers)
                (not (has_id p.workers g.worker_id)) (λ _. refl)
                (λ c.
                  if_cases (λ (r : List PacketType × WorkerPool V E C). r.1.handlers ≡ p₀.handlers)
                    (not (hmac p.cookie g.worker_id == g.digest)) (λ _. refl)
                    (λ d. absurd (all_passed _ _ _ _ a b c d h)))))
    where
      rejected : (p : WorkerPool V E C) → (obey_bad_initializer p g).handlers ≡ p.handlers
      rejected p =
          if_cases (λ (q : WorkerPool V E C). q.handlers ≡ p.handlers) (is_exception g.second_type)
            (λ _. (set_exception-Aside p.futures (by_initializer g.second_exc) p).same_handlers)
            (λ _. refl)

      all_passed :
          (a b c d : Bool)
          → a ≡ false
          → not b ≡ false
          → not c ≡ false
          → not d ≡ false
          → (not a && b && c && d) ≡ false
          → ⊥
      all_passed a b c d = ground arith

  -- No handler, and the ids and the cookie as they were.
  record IsSecret (ids : List (List ℕ)) (cookie : List ℕ) (p : WorkerPool V E C) : Type 0 where
    no_handlers : p.handlers ≡ []
    secret_ids : p.workers ≡ ids
    secret_cookie : p.cookie ≡ cookie

  Kept-IsSecret :
      (ids : List (List ℕ)) (cookie : List ℕ) (p q : WorkerPool V E C)
      → Kept p q
      → q.handlers ≡ p.handlers
      → IsSecret ids cookie p
      → IsSecret ids cookie q
  Kept-IsSecret ids cookie p q k h c = record {
    no_handlers = h ∙ c.no_handlers;
    secret_ids = k.same_workers ∙ c.secret_ids;
    secret_cookie = k.same_cookie ∙ c.secret_cookie;
  }

  -- What happens without a connection that proves its identity.
  abbrev pub Stranger : List (List ℕ) → List ℕ → Event V E C → Type 0
  Stranger ids cookie (connects g at_eof) = is_authentic hmac ids cookie g ≡ false
  Stranger ids cookie _ = Unit

  step-IsSecret :
      (ids : List (List ℕ)) (cookie : List ℕ) (p : WorkerPool V E C) (event : Event V E C)
      → Stranger ids cookie event
      → IsSecret ids cookie p
      → IsSecret ids cookie (step hmac p event)
  unfolding create_task forget end_close cancel_handlers lookup
  step-IsSecret ids cookie p (connects g at_eof) s c =
      if_cases (IsSecret ids cookie) p.closing_lock (λ _. c)
        (λ _.
          Kept-IsSecret ids cookie p _ (handle_client-Kept hmac p g at_eof)
            (refused-handlers p g at_eof (rw (c.secret_ids, c.secret_cookie) s)) c)
  step-IsSecret ids cookie p (calls_task x) s c =
      if_cases (IsSecret ids cookie) (is_full p)
        (λ _. record {
          no_handlers = c.no_handlers;
          secret_ids = c.secret_ids;
          secret_cookie = c.secret_cookie;
        })
        (λ _. record {
          no_handlers = c.no_handlers;
          secret_ids = c.secret_ids;
          secret_cookie = c.secret_cookie;
        })
  step-IsSecret ids cookie p puts s c =
      Kept-IsSecret ids cookie p _ (put_waiting-Kept p) (put_waiting-Aside p).same_handlers c
  step-IsSecret ids cookie p (takes h sending at_eof) s c =
      subst (λ hs. IsSecret ids cookie (take_turn p h (lookup h hs) sending at_eof))
        (sym c.no_handlers) c
  step-IsSecret ids cookie p (answers h a at_eof) s c =
      subst (λ hs. IsSecret ids cookie (answer_turn p h (lookup h hs) a at_eof)) (sym c.no_handlers)
        c
  step-IsSecret ids cookie p (cancels i has_resumed) s c =
      Kept-IsSecret ids cookie p _ (cancel_call-Kept p i has_resumed)
        (cancel_call-Aside p i has_resumed).same_handlers c
  step-IsSecret ids cookie p (resumes i) s c =
      Kept-IsSecret ids cookie p _ (resume_call-Kept p i) (resume_call-Aside p i).same_handlers c
  step-IsSecret ids cookie p (forgets i) s c =
      if_cases (IsSecret ids cookie) (is_done (p.states i))
        (λ _. record {
          no_handlers = c.no_handlers;
          secret_ids = c.secret_ids;
          secret_cookie = c.secret_cookie;
        })
        (λ _. c)
  step-IsSecret ids cookie p begins_close s c =
      Kept-IsSecret ids cookie p _ (begin_close-Kept p) (begin_close-Aside p).same_handlers c
  step-IsSecret ids cookie p ends_close s c =
      Kept-IsSecret ids cookie p _ (end_close-Kept p) (none_left p c.no_handlers) c
    where
      none_left : (p : WorkerPool V E C) → p.handlers ≡ [] → (end_close p).handlers ≡ p.handlers
      none_left p e =
          if_cases (λ (q : WorkerPool V E C). q.handlers ≡ p.handlers) p.closing_lock
            (λ _.
              (set_exception-Aside (cancel_handlers p.handlers p).futures cancelled_error
                (cancel_handlers p.handlers p)).same_handlers
              ∙ ap (λ hs. (cancel_handlers hs p).handlers) e)
            (λ _. refl)

  run-IsSecret :
      (ids : List (List ℕ)) (cookie : List ℕ) (p : WorkerPool V E C) (events : List (Event V E C))
      → All (Stranger ids cookie) events
      → IsSecret ids cookie p
      → IsSecret ids cookie (run hmac p events)
  unfolding run
  run-IsSecret ids cookie p [] s c = c
  run-IsSecret ids cookie p (event ∷ events) s c =
      run-IsSecret ids cookie (step hmac p event) events s.1
        (step-IsSecret ids cookie p event s.0 c)

  -- Only a worker gets tasks: as long as no connection begins with AUTH, the id of one of the pool's
  -- workers and the digest of that id under the pool's cookie, the pool has no handler whatever else
  -- happens, and so sends no task to anyone.
  pub run-no_handlers :
      (ids : List (List ℕ)) (cookie : List ℕ) (max_overflow : ℕ) (events : List (Event V E C))
      → All (Stranger ids cookie) events
      → (run hmac (new_worker_pool ids cookie max_overflow) events).handlers ≡ []
  unfolding new_worker_pool
  run-no_handlers ids cookie max_overflow events s =
      (run-IsSecret ids cookie (new_worker_pool ids cookie max_overflow) events s
        (record { no_handlers = refl; secret_ids = refl; secret_cookie = refl })).no_handlers
