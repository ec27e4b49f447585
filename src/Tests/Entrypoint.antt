-- ===== src/Tests/Entrypoint.antt =====
-- Runs of aiomisc/entrypoint.py.
use aiomisc.Base.{ℕ, ◌≡◌, refl, true, false, List, [], ◌∷◌, nat_eq, list_eq, pair_eq}
use aiomisc.Base.Sets.{contains, add, discard}
use aiomisc.Entrypoint.{
  pre_start, post_start, pre_stop, post_stop, stop, new_entrypoint, is_running, start_services,
  begin_services, begin_service, service_ready, start_returns, start_raises, fail_group,
  leave_group, cancel_starts, cancel_start, stop_services, stop_each, discard_each,
  graceful_shutdown, Event, starts_services, is_ready, returns, raises, stops_services, shuts_down,
  run,
}
use aiomisc.Entrypoint.Shutdown.{run-AllStopped}
use aiomisc.Entrypoint.Calls.{graceful_shutdown-calls}

-- Service 1 serves, service 2 has started.
abbrev served : List Event
served = starts_services (1 ∷ 2 ∷ []) ∷ is_ready 1 ∷ returns 2 ∷ []

all_calls :
    (run new_entrypoint
      (starts_services (1 ∷ 2 ∷ []) ∷ is_ready 1 ∷ returns 2 ∷ shuts_down false ∷ [])).calls
    ≡ post_stop ∷ stop 2 ∷ stop 1 ∷ pre_stop ∷ post_start ∷ pre_start ∷ []
unfolding run new_entrypoint start_services begin_services begin_service service_ready start_returns
    leave_group graceful_shutdown cancel_starts cancel_start stop_services stop_each discard_each
    contains add discard
all_calls = refl

-- When one of two raises, the other is cancelled, and `post_start` is called.
failed_calls :
    (run new_entrypoint (starts_services (1 ∷ 2 ∷ []) ∷ raises 1 ∷ [])).calls
    ≡ post_start ∷ pre_start ∷ []
unfolding run new_entrypoint start_services begin_services begin_service start_raises fail_group
    cancel_starts cancel_start contains add discard
failed_calls = refl

is_open : (run new_entrypoint served).closing ≡ false
unfolding run new_entrypoint start_services begin_services begin_service service_ready start_returns
    leave_group contains add discard
is_open = refl

none_waits : (run new_entrypoint served).group ≡ []
unfolding run new_entrypoint start_services begin_services begin_service service_ready start_returns
    leave_group contains add discard
none_waits = refl

run-AllStopped_example :
    ((graceful_shutdown (run new_entrypoint served) false).services ≡ [])
    × ((i : ℕ)
        → is_running ((graceful_shutdown (run new_entrypoint served) false).starts i) ≡ false)
run-AllStopped_example = run-AllStopped served false is_open none_waits

graceful_shutdown-calls_example :
    ((graceful_shutdown (run new_entrypoint served) true).calls
      ≡ pre_stop ∷ (run new_entrypoint served).calls)
    × (graceful_shutdown (graceful_shutdown (run new_entrypoint served) true) false
        ≡ graceful_shutdown (run new_entrypoint served) true)
graceful_shutdown-calls_example =
    graceful_shutdown-calls (run new_entrypoint served) true false is_open

-- A service is stopped and started again; a shutdown whose `pre_stop` raises leaves it registered.
abbrev restarted : List Event
restarted =
    starts_services (1 ∷ [])
    ∷ returns 1
    ∷ stops_services (1 ∷ []) false
    ∷ starts_services (1 ∷ [])
    ∷ returns 1
    ∷ shuts_down true
    ∷ []

still_registered :
    ((run new_entrypoint restarted).services ≡ 1 ∷ [])
    × ((run new_entrypoint restarted).calls
        ≡ pre_stop
          ∷ post_start
          ∷ pre_start
          ∷ post_stop
          ∷ stop 1
          ∷ pre_stop
          ∷ post_start
          ∷ pre_start
          ∷ [])
unfolding run new_entrypoint start_services begin_services begin_service start_returns leave_group
    graceful_shutdown cancel_starts cancel_start stop_services stop_each discard_each contains add
    discard
still_registered = (refl, refl)
