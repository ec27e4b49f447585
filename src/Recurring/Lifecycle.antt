-- ===== src/Recurring/Lifecycle.antt =====
-- start and stop of PeriodicCallback of aiomisc/periodic.py. A task is its number; `live` are the tasks
-- that are not done, `cancelled` those that were cancelled, and `cleaning` those that are done and
-- whose callback `clean_task` has yet to run.
use aiomisc.Base.{
  ℕ, ◌+◌, ◌≡◌, refl, sym, ap, subst, ◌∙◌, ◌⊎◌, inl, inr, Bool, true, false, Option, none, some,
  List, [], ◌∷◌, arith, if◌then◌else◌, if_cases, nat_eq, list_eq, pair_eq, Exn, invalid_state_error,
  Result, ok, err,
}
use mathlib.Core.Option.{some-injective}
use aiomisc.Base.Sets.{contains, discard}

pub record PeriodicCallback : Type 0 where
  pub task : Option ℕ
  pub live : List ℕ
  pub cancelled : List ℕ
  pub cleaning : List ℕ
  pub next_task : ℕ

abbrev pub ident : ℕ → ℕ
ident i = i

unfoldable pub new_periodic : PeriodicCallback
new_periodic = record { task = none; live = []; cancelled = []; cleaning = []; next_task = 0 }

-- `self._task and not self._task.done()`
abbrev pub is_started : PeriodicCallback → Option ℕ → Bool
is_started p none = false
is_started p (some i) = contains ident p.live i

unfoldable pub start_periodic : PeriodicCallback → Result Exn Unit × PeriodicCallback
start_periodic p = if is_started p p.task then (err invalid_state_error, p) else (
  ok tt,
  record p { task = some p.next_task; live = p.next_task ∷ p.live; next_task = p.next_task + 1 },
)

abbrev pub stop_task : PeriodicCallback → Option ℕ → PeriodicCallback
stop_task p none = p
stop_task p (some i) =
    if contains ident p.live i
    then record p { task = none; cancelled = i ∷ p.cancelled }
    else record p { task = none }

unfoldable pub stop_periodic : PeriodicCallback → PeriodicCallback
stop_periodic p = stop_task p p.task

-- A task ends, and then its callback runs.
unfoldable pub finish_task : PeriodicCallback → ℕ → PeriodicCallback
finish_task p i =
    if contains ident p.live i
    then record p { live = discard ident i p.live; cleaning = i ∷ p.cleaning }
    else p

unfoldable pub clean_task : PeriodicCallback → ℕ → PeriodicCallback
clean_task p i =
    if contains ident p.cleaning i
    then record p { task = none; cleaning = discard ident i p.cleaning }
    else p

pub data Event : Type 0 where
  starts stops : Event
  ends cleans : ℕ → Event

abbrev pub step : PeriodicCallback → Event → PeriodicCallback
step p starts = (start_periodic p).1
step p stops = stop_periodic p
step p (ends i) = finish_task p i
step p (cleans i) = clean_task p i

unfoldable pub run : PeriodicCallback → List Event → PeriodicCallback
run p [] = p
run p (event ∷ events) = run (step p event) events

-- The future that `stop` returns is awaited before the next start: no task is live, or to be cleaned.
abbrev pub IsRested : PeriodicCallback → Event → Type 0
IsRested p starts = (p.live ≡ []) × (p.cleaning ≡ [])
IsRested p _ = Unit

abbrev pub AllRested : PeriodicCallback → List Event → Type 0
AllRested p [] = Unit
AllRested p (event ∷ events) = IsRested p event × AllRested (step p event) events

-- Where a callback stands: no task, one that lives and is known or cancelled, or one to be cleaned.
data Phase (p : PeriodicCallback) : Type 0 where
  resting : p.live ≡ [] → p.cleaning ≡ [] → Phase p
  living :
      (i : ℕ)
      → p.live ≡ i ∷ []
      → p.cleaning ≡ []
      → (p.task ≡ some i) ⊎ (contains ident p.cancelled i ≡ true)
      → Phase p
  ending : (i : ℕ) → p.live ≡ [] → p.cleaning ≡ i ∷ [] → Phase p

start-Phase : (p : PeriodicCallback) → p.live ≡ [] → p.cleaning ≡ [] → Phase (start_periodic p).1
unfolding start_periodic
start-Phase p l c =
    if_cases (λ (x : Result Exn Unit × PeriodicCallback). Phase x.1) (is_started p p.task)
      (λ _. resting l c)
      (λ _. living p.next_task (ap (λ (s : List ℕ). p.next_task ∷ s) l) c (inl refl))

stop-Phase : (p : PeriodicCallback) (o : Option ℕ) → p.task ≡ o → Phase p → Phase (stop_task p o)
unfolding contains
stop-Phase p none e h = h
stop-Phase p (some j) e (resting l c) =
    if_cases Phase (contains ident p.live j) (λ _. resting l c) (λ _. resting l c)
stop-Phase p (some j) e (ending i l c) =
    if_cases Phase (contains ident p.live j) (λ _. ending i l c) (λ _. ending i l c)
stop-Phase p (some j) e (living i l c k) =
    if_cases Phase (contains ident p.live j)
      (λ h. living i l c (inr (ground (arith, h, ap (λ (s : List ℕ). contains ident s j) l))))
      (λ n. living i l c (elim k [
        | inr x ↦ inr x
        | inl t ↦ absurd (
            ground
              (arith, n, ap (λ (s : List ℕ). contains ident s j) l, some-injective j i (sym e ∙ t)))
      ]))

emptied : (i j : ℕ) (s : List ℕ) → s ≡ i ∷ [] → contains ident s j ≡ true → discard ident j s ≡ []
unfolding contains discard
emptied i j s e h = rw e (ground (arith, h, ap (λ (t : List ℕ). contains ident t j) e))

nothing_in : {A : Type 0} (j : ℕ) (s : List ℕ) → s ≡ [] → contains ident s j ≡ true → A
unfolding contains
nothing_in j s e h = cc (h, ap (λ (t : List ℕ). contains ident t j) e)

end-Phase : (p : PeriodicCallback) (j : ℕ) → Phase p → Phase (finish_task p j)
unfolding finish_task
end-Phase p j (resting l c) =
    if_cases Phase (contains ident p.live j) (λ h. nothing_in j p.live l h) (λ _. resting l c)
end-Phase p j (ending i l c) =
    if_cases Phase (contains ident p.live j) (λ h. nothing_in j p.live l h) (λ _. ending i l c)
end-Phase p j (living i l c k) =
    if_cases Phase (contains ident p.live j)
      (λ h. ending j (emptied i j p.live l h) (ap (λ (s : List ℕ). j ∷ s) c)) (λ _. living i l c k)

clean-Phase : (p : PeriodicCallback) (j : ℕ) → Phase p → Phase (clean_task p j)
unfolding clean_task
clean-Phase p j (resting l c) =
    if_cases Phase (contains ident p.cleaning j) (λ h. nothing_in j p.cleaning c h)
      (λ _. resting l c)
clean-Phase p j (living i l c k) =
    if_cases Phase (contains ident p.cleaning j) (λ h. nothing_in j p.cleaning c h)
      (λ _. living i l c k)
clean-Phase p j (ending i l c) =
    if_cases Phase (contains ident p.cleaning j) (λ h. resting l (emptied i j p.cleaning c h))
      (λ _. ending i l c)

step-Phase :
    (p : PeriodicCallback) (event : Event) → IsRested p event → Phase p → Phase (step p event)
unfolding stop_periodic
step-Phase p starts r h = start-Phase p r.0 r.1
step-Phase p stops r h = stop-Phase p p.task refl h
step-Phase p (ends i) r h = end-Phase p i h
step-Phase p (cleans i) r h = clean-Phase p i h

run-Phase :
    (p : PeriodicCallback) (events : List Event)
    → AllRested p events
    → Phase p
    → Phase (run p events)
unfolding run
run-Phase p [] r h = h
run-Phase p (event ∷ events) r h = run-Phase (step p event) events r.1 (step-Phase p event r.0 h)

stop_task-live : (p : PeriodicCallback) (o : Option ℕ) → (stop_task p o).live ≡ p.live
stop_task-live p none = refl
stop_task-live p (some j) =
    if_cases (λ (q : PeriodicCallback). q.live ≡ p.live) (contains ident p.live j) (λ _. refl)
      (λ _. refl)

stays_cancelled :
    (p : PeriodicCallback) (o : Option ℕ) (i : ℕ)
    → contains ident p.cancelled i ≡ true
    → contains ident (stop_task p o).cancelled i ≡ true
unfolding contains
stays_cancelled p none i h = h
stays_cancelled p (some j) i h =
    if_cases (λ (q : PeriodicCallback). contains ident q.cancelled i ≡ true)
      (contains ident p.live j) (λ _. ground (arith, h)) (λ _. h)

is_cancelled :
    (p : PeriodicCallback) (i j : ℕ)
    → p.live ≡ j ∷ []
    → contains ident p.live i ≡ true
    → contains ident (stop_task p (some j)).cancelled i ≡ true
unfolding contains
is_cancelled p i j l h =
    if_cases (λ (q : PeriodicCallback). contains ident q.cancelled i ≡ true)
      (contains ident p.live j) (λ _. ground (arith, h, ap (λ (s : List ℕ). contains ident s i) l))
      (λ n. absurd (ground (arith, n, ap (λ (s : List ℕ). contains ident s j) l)))

stopped_all :
    (p : PeriodicCallback) (i : ℕ)
    → Phase p
    → contains ident p.live i ≡ true
    → contains ident (stop_task p p.task).cancelled i ≡ true
unfolding contains
stopped_all p i (resting l c) h = nothing_in i p.live l h
stopped_all p i (ending j l c) h = nothing_in i p.live l h
stopped_all p i (living j l c (inl t)) h =
    subst (λ o. contains ident (stop_task p o).cancelled i ≡ true) (sym t) (is_cancelled p i j l h)
stopped_all p i (living j l c (inr x)) h =
    stays_cancelled p p.task i (ground (arith, x, h, ap (λ (s : List ℕ). contains ident s i) l))

-- `stop` leaves no task of the callback running free: after any history of starts and stops, in which
-- each start comes only when the tasks before have ended and their callbacks have run, every task that
-- is live once `stop` has been called is cancelled.
pub run-AllCancelled :
    (events : List Event) (i : ℕ)
    → AllRested new_periodic events
    → contains ident (stop_periodic (run new_periodic events)).live i ≡ true
    → contains ident (stop_periodic (run new_periodic events)).cancelled i ≡ true
unfolding stop_periodic new_periodic
run-AllCancelled events i r h =
    let p = run new_periodic events in
    stopped_all p i (run-Phase new_periodic events r (resting refl refl))
      (sym (ap (λ (s : List ℕ). contains ident s i) (stop_task-live p p.task)) ∙ h)
