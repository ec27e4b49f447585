-- ===== src/Entrypoint/Shutdown.antt =====
-- What the shutdown of aiomisc/entrypoint.py leaves.
use aiomisc.Base.{
  subst, ap, ◌∙◌, Bool, refl, true, false, not, ◌&&◌, [], ◌∷◌, List, if_cases, inl, inr, Bool-cases,
  nat_eq, arith, ℕ, ◌≡◌, list_eq, pair_eq,
}
use aiomisc.Base.Sets.{contains-discard, discard, contains}
use aiomisc.Entrypoint.{
  new_entrypoint, stop, pre_stop, stop_each, discard_each, stop_services, graceful_shutdown, Event,
  starts_services, is_ready, returns, raises, stops_services, shuts_down, is_empty, none_running,
  step, run, record_call, Start, Entrypoint, ident, is_running, cancel_starts,
}
use aiomisc.Entrypoint.Calls.{cancel_starts-Alike}
use aiomisc.Entrypoint.Starts.{
  IsTracked, Fewer, Fewer-trans, Fewer-refl, cancel_starts-Fewer, cancel_starts-stopped,
  Fewer-IsTracked, start_services-IsTracked, service_ready-IsTracked, start_returns-IsTracked,
  start_raises-IsTracked,
}

-- The services' `stop` and the signals leave the starts as they are.
record Aside (e f : Entrypoint) : Type 0 where
  same_starts : f.starts ≡ e.starts
  same_sets : (f.tasks ≡ e.tasks) × (f.group ≡ e.group)

stop_each-Aside : (is : List ℕ) (e : Entrypoint) → Aside e (stop_each is e)
unfolding stop_each
stop_each-Aside [] e = record { same_starts = refl; same_sets = (refl, refl) }
stop_each-Aside (i ∷ is) e =
    let k = stop_each-Aside is (record_call e (stop i)) in
    record { same_starts = k.same_starts; same_sets = k.same_sets }

discard_each-Aside : (is : List ℕ) (e : Entrypoint) → Aside e (discard_each is e)
unfolding discard_each
discard_each-Aside [] e = record { same_starts = refl; same_sets = (refl, refl) }
discard_each-Aside (i ∷ is) e =
    let k = discard_each-Aside is (record e { services = discard ident i e.services }) in
    record { same_starts = k.same_starts; same_sets = k.same_sets }

stop_services-Aside :
    (e : Entrypoint) (svc : List ℕ) (pre_stop_raises : Bool)
    → Aside e (stop_services e svc pre_stop_raises)
unfolding stop_services
stop_services-Aside e svc true = record { same_starts = refl; same_sets = (refl, refl) }
stop_services-Aside e svc false =
    let h = stop_each-Aside svc (record_call e pre_stop) in
    let k = discard_each-Aside svc (stop_each svc (record_call e pre_stop)) in
    record {
      same_starts = k.same_starts ∙ h.same_starts;
      same_sets = (k.same_sets.0 ∙ h.same_sets.0, k.same_sets.1 ∙ h.same_sets.1);
    }

Aside-Fewer : (e f : Entrypoint) → Aside e f → Fewer e f
Aside-Fewer e f k = record {
  same_tasks = k.same_sets.0;
  same_group = k.same_sets.1;
  still = λ i r. subst (λ (s : ℕ → Start). is_running (s i) ≡ true) k.same_starts r;
}

graceful_shutdown-Fewer :
    (e : Entrypoint) (pre_stop_raises : Bool) → Fewer e (graceful_shutdown e pre_stop_raises)
unfolding graceful_shutdown
graceful_shutdown-Fewer e r =
    let e₀ = record e { closing = true } in
    let e₁ = cancel_starts e.tasks e₀ in
    let k =
      Fewer-trans (cancel_starts-Fewer e.tasks e₀)
        (Aside-Fewer e₁ (stop_services e₁ e₁.services r) (stop_services-Aside e₁ e₁.services r)) in
    if_cases (Fewer e) e.closing (λ _. Fewer-refl e)
      (λ _. record { same_tasks = k.same_tasks; same_group = k.same_group; still = k.still })

step-IsTracked : (e : Entrypoint) (event : Event) → IsTracked e → IsTracked (step e event)
step-IsTracked e (starts_services svc) t =
    if_cases IsTracked (is_empty e.group && none_running e.starts svc)
      (λ _. start_services-IsTracked e svc t) (λ _. t)
step-IsTracked e (is_ready i) t = service_ready-IsTracked e i t
step-IsTracked e (returns i) t = start_returns-IsTracked e i t
step-IsTracked e (raises i) t = start_raises-IsTracked e i t
step-IsTracked e (stops_services svc r) t =
    Fewer-IsTracked e (stop_services e svc r)
      (Aside-Fewer e (stop_services e svc r) (stop_services-Aside e svc r)) t
step-IsTracked e (shuts_down r) t =
    Fewer-IsTracked e (graceful_shutdown e r) (graceful_shutdown-Fewer e r) t

run-IsTracked : (e : Entrypoint) (events : List Event) → IsTracked e → IsTracked (run e events)
unfolding run
run-IsTracked e [] t = t
run-IsTracked e (event ∷ events) t = run-IsTracked (step e event) events (step-IsTracked e event t)

-- The services that are left after some are discarded.
contains-discard_each :
    (is : List ℕ) (e : Entrypoint) (j : ℕ)
    → contains ident (discard_each is e).services j
      ≡ (not (contains ident is j) && contains ident e.services j)
unfolding discard_each contains
contains-discard_each [] e j = refl
contains-discard_each (i ∷ is) e j = ground (
  arith,
  contains-discard_each is (record e { services = discard ident i e.services }) j,
  contains-discard ident i j e.services,
)

none_contained : (s : List ℕ) → ((j : ℕ) → contains ident s j ≡ false) → s ≡ []
unfolding contains
none_contained [] h = refl
none_contained (x ∷ s) h = absurd (ground (arith, h x))

stop_each-services : (is : List ℕ) (e : Entrypoint) → (stop_each is e).services ≡ e.services
unfolding stop_each
stop_each-services [] e = refl
stop_each-services (i ∷ is) e = stop_each-services is (record_call e (stop i))

stop_services-none : (e : Entrypoint) → (stop_services e e.services false).services ≡ []
unfolding stop_services
stop_services-none e = none_contained _ (λ j. ground (
  arith,
  contains-discard_each e.services (stop_each e.services (record_call e pre_stop)) j,
  ap (λ (s : List ℕ). contains ident s j) (stop_each-services e.services (record_call e pre_stop)),
))

-- What a shutdown leaves registered.
abbrev pub left_services : Bool → List ℕ → List ℕ
left_services true svc = svc
left_services false svc = []

stop_services-left :
    (e : Entrypoint) (pre_stop_raises : Bool)
    → (stop_services e e.services pre_stop_raises).services
      ≡ left_services pre_stop_raises e.services
unfolding stop_services
stop_services-left e true = refl
stop_services-left e false = stop_services-none e

AllStopped : List ℕ → Entrypoint → Type 0
AllStopped left e = (e.services ≡ left) × ((i : ℕ) → is_running (e.starts i) ≡ false)

graceful_shutdown-AllStopped :
    (e : Entrypoint) (pre_stop_raises : Bool)
    → IsTracked e
    → e.closing ≡ false
    → e.group ≡ []
    → AllStopped (left_services pre_stop_raises e.services) (graceful_shutdown e pre_stop_raises)
unfolding graceful_shutdown AllStopped contains
graceful_shutdown-AllStopped e r t open_ none_waits =
    if_cases (AllStopped (left_services r e.services)) e.closing (λ c. cc (c, open_))
      (λ _. (
        stop_services-left e₁ r
            ∙ ap (left_services r) (cancel_starts-Alike e.tasks e₀).same_services,
        stopped,
      ))
  where
    e₀ : Entrypoint
    e₀ = record e { closing = true }

    e₁ : Entrypoint
    e₁ = cancel_starts e.tasks e₀

    among_tasks : (i : ℕ) → is_running (e₁.starts i) ≡ true → contains ident e.tasks i ≡ true
    among_tasks i running = ground (
      arith,
      t i ((cancel_starts-Fewer e.tasks e₀).still i running),
      ap (λ (s : List ℕ). contains ident s i) none_waits,
    )

    stops : (i : ℕ) → is_running (e₁.starts i) ≡ false
    stops i = elim (Bool-cases (is_running (e₁.starts i))) [
      | inr n ↦ n
      | inl running ↦ cancel_starts-stopped e.tasks e₀ i (among_tasks i running)
    ]

    stopped : (i : ℕ) → is_running ((stop_services e₁ e₁.services r).starts i) ≡ false
    stopped i =
        ap (λ (s : ℕ → Start). is_running (s i)) (stop_services-Aside e₁ e₁.services r).same_starts
        ∙ stops i

-- Whatever services have been started and stopped before, one call of `start_services` after the other
-- and each service only while its `start` does not run, and have become ready, returned or raised: the
-- first shutdown, when no `start_services` is on its way, leaves no `start` of a service running,
-- neither those that serve nor those of a start that has failed. It leaves no service registered, or
-- every one of them when a receiver of `pre_stop` raises.
pub run-AllStopped :
    (events : List Event) (pre_stop_raises : Bool)
    → (run new_entrypoint events).closing ≡ false
    → (run new_entrypoint events).group ≡ []
    → ((graceful_shutdown (run new_entrypoint events) pre_stop_raises).services
        ≡ left_services pre_stop_raises (run new_entrypoint events).services)
      × ((i : ℕ)
          → is_running ((graceful_shutdown (run new_entrypoint events) pre_stop_raises).starts i)
            ≡ false)
unfolding AllStopped new_entrypoint
run-AllStopped events r open_ none_waits =
    graceful_shutdown-AllStopped (run new_entrypoint events) r
      (run-IsTracked new_entrypoint events (λ i running. absurd (ground (arith, running)))) open_
      none_waits
