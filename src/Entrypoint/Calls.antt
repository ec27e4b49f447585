-- ===== src/Entrypoint/Calls.antt =====
-- What the shutdown of aiomisc/entrypoint.py calls, and in which order.
use aiomisc.Base.{
  Bool, ℕ, ◌≡◌, refl, ap, ◌∙◌, true, false, List, [], ◌∷◌, if_cases, nat_eq, list_eq, pair_eq,
}
use aiomisc.Base.Sets.{discard}
use aiomisc.Entrypoint.{
  ident, Call, pre_stop, post_stop, stop, Entrypoint, record_call, cancel_start, cancel_starts,
  is_running, stop_each, discard_each, stop_services, graceful_shutdown,
}

-- The calls of `stop` of services, the last first.
abbrev pub stops : List ℕ → List Call → List Call
stops [] calls = calls
stops (i ∷ is) calls = stops is (stop i ∷ calls)

stop_each-calls : (is : List ℕ) (e : Entrypoint) → (stop_each is e).calls ≡ stops is e.calls
unfolding stop_each
stop_each-calls [] e = refl
stop_each-calls (i ∷ is) e = stop_each-calls is (record_call e (stop i))

discard_each-calls : (is : List ℕ) (e : Entrypoint) → (discard_each is e).calls ≡ e.calls
unfolding discard_each
discard_each-calls [] e = refl
discard_each-calls (i ∷ is) e =
    discard_each-calls is (record e { services = discard ident i e.services })

-- A cancelled start leaves the services, the calls and the mark of the shutdown.
pub record Alike (e f : Entrypoint) : Type 0 where
  pub same_services : f.services ≡ e.services
  same_calls : f.calls ≡ e.calls
  same_closing : f.closing ≡ e.closing

cancel_start-Alike : (e : Entrypoint) (i : ℕ) → Alike e (cancel_start e i)
unfolding cancel_start
cancel_start-Alike e i =
    if_cases (Alike e) (is_running (e.starts i))
      (λ _. record { same_services = refl; same_calls = refl; same_closing = refl })
      (λ _. record { same_services = refl; same_calls = refl; same_closing = refl })

pub cancel_starts-Alike : (is : List ℕ) (e : Entrypoint) → Alike e (cancel_starts is e)
unfolding cancel_starts
cancel_starts-Alike [] e = record { same_services = refl; same_calls = refl; same_closing = refl }
cancel_starts-Alike (i ∷ is) e =
    let h = cancel_start-Alike e i in
    let k = cancel_starts-Alike is (cancel_start e i) in
    record {
      same_services = k.same_services ∙ h.same_services;
      same_calls = k.same_calls ∙ h.same_calls;
      same_closing = k.same_closing ∙ h.same_closing;
    }

-- The calls of `stop_services`, when a receiver of `pre_stop` raises and else.
abbrev pub shutdown_calls : Bool → List ℕ → List Call → List Call
shutdown_calls true svc calls = pre_stop ∷ calls
shutdown_calls false svc calls = post_stop ∷ stops svc (pre_stop ∷ calls)

stop_services-calls :
    (e : Entrypoint) (svc : List ℕ) (pre_stop_raises : Bool)
    → (stop_services e svc pre_stop_raises).calls ≡ shutdown_calls pre_stop_raises svc e.calls
unfolding stop_services
stop_services-calls e svc true = refl
stop_services-calls e svc false =
    ap (λ cs. post_stop ∷ cs)
      (discard_each-calls svc (stop_each svc (record_call e pre_stop))
        ∙ stop_each-calls svc (record_call e pre_stop))

discard_each-closing : (is : List ℕ) (e : Entrypoint) → (discard_each is e).closing ≡ e.closing
unfolding discard_each
discard_each-closing [] e = refl
discard_each-closing (i ∷ is) e =
    discard_each-closing is (record e { services = discard ident i e.services })

stop_each-closing : (is : List ℕ) (e : Entrypoint) → (stop_each is e).closing ≡ e.closing
unfolding stop_each
stop_each-closing [] e = refl
stop_each-closing (i ∷ is) e = stop_each-closing is (record_call e (stop i))

stop_services-closing :
    (e : Entrypoint) (svc : List ℕ) (pre_stop_raises : Bool)
    → (stop_services e svc pre_stop_raises).closing ≡ e.closing
unfolding stop_services
stop_services-closing e svc true = refl
stop_services-closing e svc false =
    discard_each-closing svc (stop_each svc (record_call e pre_stop))
    ∙ stop_each-closing svc (record_call e pre_stop)

graceful_shutdown-closing :
    (e : Entrypoint) (pre_stop_raises : Bool) → (graceful_shutdown e pre_stop_raises).closing ≡ true
unfolding graceful_shutdown
graceful_shutdown-closing e r =
    let e₀ = record e { closing = true } in
    let e₁ = cancel_starts e.tasks e₀ in
    if_cases (λ (f : Entrypoint). f.closing ≡ true) e.closing (λ c. c)
      (λ _. stop_services-closing e₁ e₁.services r ∙ (cancel_starts-Alike e.tasks e₀).same_closing)

graceful_shutdown-again :
    (e : Entrypoint) (pre_stop_raises : Bool)
    → e.closing ≡ true
    → graceful_shutdown e pre_stop_raises ≡ e
unfolding graceful_shutdown
graceful_shutdown-again e r h =
    if_cases (λ (f : Entrypoint). f ≡ e) e.closing (λ _. refl) (λ n. cc (n, h))

-- The first shutdown calls `pre_stop`, then `stop` of every service that is registered, each once and
-- in the order of the set, and then `post_stop`. When a receiver of `pre_stop` raises, it calls no
-- `stop` and no `post_stop`. A second shutdown does nothing at all, in either case.
pub graceful_shutdown-calls :
    (e : Entrypoint) (pre_stop_raises again_raises : Bool)
    → e.closing ≡ false
    → ((graceful_shutdown e pre_stop_raises).calls
        ≡ shutdown_calls pre_stop_raises e.services e.calls)
      × (graceful_shutdown (graceful_shutdown e pre_stop_raises) again_raises
          ≡ graceful_shutdown e pre_stop_raises)
unfolding graceful_shutdown
graceful_shutdown-calls e r again_raises open_ =
    let e₀ = record e { closing = true } in
    let e₁ = cancel_starts e.tasks e₀ in
    let k = cancel_starts-Alike e.tasks e₀ in
    (
      if_cases (λ (f : Entrypoint). f.calls ≡ shutdown_calls r e.services e.calls) e.closing
          (λ c. cc (c, open_))
          (λ _.
            stop_services-calls e₁ e₁.services r
            ∙ ap (λ (svc : List ℕ). shutdown_calls r svc e₁.calls) k.same_services
            ∙ ap (λ (cs : List Call). shutdown_calls r e.services cs) k.same_calls),
      graceful_shutdown-again (graceful_shutdown e r) again_raises (graceful_shutdown-closing e r),
    )
