-- ===== src/Entrypoint.antt =====
-- aiomisc/entrypoint.py: how the services are started together and stopped, in steps from one await to
-- the next. A service is its number. `starts` is what has become of the services' `start`, `group` the
-- calls of `_start_service` that have not ended, and `calls` what the entry point has called, the last
-- first: its signals, and the services' `stop`.
pub mod Starts
pub mod Shutdown
pub mod Calls
use aiomisc.Base.{
  ℕ, ◌-◌, ◌/◌, Bool, true, false, not, ◌&&◌, List, [], ◌∷◌, nat_beq, if◌then◌else◌, nat_eq, list_eq,
  pair_eq,
}
use aiomisc.Base.Sets.{contains, add, discard}

pub data Start : Type 0 where
  idle running returned raised cancelled : Start

pub data Call : Type 0 where
  pre_start post_start pre_stop post_stop : Call
  stop : ℕ → Call

-- How far `start_services` has come.
pub data Status : Type 0 where
  waiting starting started start_failed : Status

pub record Entrypoint : Type 0 where
  pub services : List ℕ
  pub tasks : List ℕ
  pub group : List ℕ
  pub starts : ℕ → Start
  pub status : Status
  pub closing : Bool
  pub calls : List Call

abbrev pub ident : ℕ → ℕ
ident i = i

unfoldable pub new_entrypoint : Entrypoint
new_entrypoint = record {
  services = [];
  tasks = [];
  group = [];
  starts = λ _. idle;
  status = waiting;
  closing = false;
  calls = [];
}

abbrev pub is_running : Start → Bool
is_running running = true
is_running _ = false

abbrev pub set_start : Entrypoint → ℕ → Start → Entrypoint
set_start e i s = record e { starts = λ j. if nat_beq i j then s else e.starts j }

abbrev pub record_call : Entrypoint → Call → Entrypoint
record_call e c = record e { calls = c ∷ e.calls }

-- A task of the service's `start` that runs still is cancelled.
unfoldable pub cancel_start : Entrypoint → ℕ → Entrypoint
cancel_start e i = if is_running (e.starts i) then set_start e i cancelled else e

unfoldable pub cancel_starts : List ℕ → Entrypoint → Entrypoint
cancel_starts [] e = e
cancel_starts (i ∷ is) e = cancel_starts is (cancel_start e i)

-- `_start_service`, up to its wait.
unfoldable pub begin_service : Entrypoint → ℕ → Entrypoint
begin_service e i = record (set_start e i running) {
  services = add ident i e.services;
  group = i ∷ e.group;
}

unfoldable pub begin_services : List ℕ → Entrypoint → Entrypoint
begin_services [] e = e
begin_services (i ∷ is) e = begin_services is (begin_service e i)

-- `start_services` when the last call of the group has ended.
abbrev pub end_if_empty : Entrypoint → List ℕ → Entrypoint
end_if_empty e [] = record_call (record e { status = started }) post_start
end_if_empty e (i ∷ is) = e

-- `start_services`, up to its wait for the group.
unfoldable pub start_services : Entrypoint → List ℕ → Entrypoint
start_services e svc =
    let e₁ = begin_services svc (record (record_call e pre_start) { status = starting }) in
    end_if_empty e₁ e₁.group

unfoldable pub leave_group : Entrypoint → ℕ → Entrypoint
leave_group e i = let e₁ = record e { group = discard ident i e.group } in end_if_empty e₁ e₁.group

-- The service has set its `start_event`, while its `start` goes on.
unfoldable pub service_ready : Entrypoint → ℕ → Entrypoint
service_ready e i =
    if contains ident e.group i && is_running (e.starts i)
    then leave_group (record e { tasks = i ∷ e.tasks }) i
    else e

-- `start` has returned.
unfoldable pub start_returns : Entrypoint → ℕ → Entrypoint
start_returns e i =
    if not (is_running (e.starts i))
    then e
    else if contains ident e.group i
    then leave_group (set_start e i returned) i
    else set_start e i returned

-- A failure in the group: the others are cancelled and joined.
unfoldable pub fail_group : Entrypoint → Entrypoint
fail_group e =
    let e₁ = cancel_starts e.group e in
    record_call (record e₁ { group = []; status = start_failed }) post_start

-- `start` has raised.
unfoldable pub start_raises : Entrypoint → ℕ → Entrypoint
start_raises e i =
    if not (is_running (e.starts i))
    then e
    else if contains ident e.group i
    then fail_group (set_start e i raised)
    else set_start e i raised

-- The loop of `stop_services`: whether or not a `stop` raises, every service is called, and then
-- discarded.
unfoldable pub stop_each : List ℕ → Entrypoint → Entrypoint
stop_each [] e = e
stop_each (i ∷ is) e = stop_each is (record_call e (stop i))

unfoldable pub discard_each : List ℕ → Entrypoint → Entrypoint
discard_each [] e = e
discard_each (i ∷ is) e = discard_each is (record e { services = discard ident i e.services })

-- `stop_services`; a receiver of `pre_stop` that raises ends it before any service is stopped.
unfoldable pub stop_services : Entrypoint → List ℕ → Bool → Entrypoint
stop_services e svc pre_stop_raises =
    let e₁ = record_call e pre_stop in
    if pre_stop_raises then e₁ else record_call (discard_each svc (stop_each svc e₁)) post_stop

-- `graceful_shutdown`, up to what the owner of the loop does.
unfoldable pub graceful_shutdown : Entrypoint → Bool → Entrypoint
graceful_shutdown e pre_stop_raises =
    let e₁ = cancel_starts e.tasks (record e { closing = true }) in
    if e.closing then e else stop_services e₁ e₁.services pre_stop_raises

pub data Event : Type 0 where
  starts_services : List ℕ → Event
  is_ready : ℕ → Event
  returns : ℕ → Event
  raises : ℕ → Event
  stops_services : List ℕ → Bool → Event
  shuts_down : Bool → Event

abbrev pub none_running : (ℕ → Start) → List ℕ → Bool
none_running starts [] = true
none_running starts (i ∷ is) = not (is_running (starts i)) && none_running starts is

abbrev pub is_empty : List ℕ → Bool
is_empty [] = true
is_empty (i ∷ is) = false

-- The histories that are followed call `start_services` as often as they like, but only after the call
-- before it has ended, and for services whose `start` does not run.
abbrev pub step : Entrypoint → Event → Entrypoint
step e (starts_services svc) =
    if is_empty e.group && none_running e.starts svc then start_services e svc else e
step e (is_ready i) = service_ready e i
step e (returns i) = start_returns e i
step e (raises i) = start_raises e i
step e (stops_services svc pre_stop_raises) = stop_services e svc pre_stop_raises
step e (shuts_down pre_stop_raises) = graceful_shutdown e pre_stop_raises

unfoldable pub run : Entrypoint → List Event → Entrypoint
run e [] = e
run e (event ∷ events) = run (step e event) events
