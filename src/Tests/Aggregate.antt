-- ===== src/Tests/Aggregate.antt =====
-- Runs of aiomisc/aggregate.py; values, results and exceptions are numbers here.
use aiomisc.Base.{
  ℕ, ◌*◌, ◌≡◌, refl, true, some, List, [], ◌∷◌, ◌++◌, arith, nat_eq, list_eq, pair_eq, pos, ok,
}
use aiomisc.Aggregate.{
  Aggregator, Batch, new_aggregator, pending, raises, execute, execute_simple, Reply, results,
}
use aiomisc.Aggregate.Batches.{Event, calls, times_out, run, called, all_args, Grouped, run-Grouped}
use aiomisc.Aggregate.Results.{AllDone, execute-AllDone, Answered, execute_simple-Answered}

-- At most two calls go together.
abbrev by_two : Aggregator ℕ ℕ ℕ
by_two = record {
  max_count = some 2;
  gathering = record { args = []; futures = [] };
  batches = [];
  next_future = 0;
  states = λ _. pending;
  statistic = record { success = 0; error = 0; done = 0 };
}

made_by : new_aggregator true (pos 5) (some (pos 2)) ≡ ok by_two
unfolding new_aggregator
made_by = refl

abbrev events : List (Event ℕ ℕ ℕ)
events = calls 10 ∷ calls 20 ∷ calls 30 ∷ times_out ∷ calls 40 ∷ []

by_two-Grouped : Grouped [] by_two
unfolding all_args
by_two-Grouped = record { in_order = refl; fit = tt; paired = refl; room = omega arith }

run-Grouped_example : Grouped ([] ++ called events) (run by_two events)
run-Grouped_example = run-Grouped [] by_two events (omega arith) by_two-Grouped

abbrev batch : Batch ℕ
batch = record { args = 10 ∷ 20 ∷ []; futures = 0 ∷ 1 ∷ [] }

execute-AllDone_example : AllDone batch (execute by_two batch (λ _. pending) (raises 7))
execute-AllDone_example = execute-AllDone by_two batch (λ _. pending) (raises 7) (λ e. cc e)

abbrev doubled : List ℕ → Reply ℕ ℕ
doubled [] = results []
doubled (x ∷ []) = results (2 * x ∷ [])
doubled (x ∷ y ∷ xs) = results (2 * x ∷ 2 * y ∷ [])

execute_simple-Answered_example :
    Answered (execute_simple by_two batch doubled).states (20 ∷ 40 ∷ []) (0 ∷ 1 ∷ [])
execute_simple-Answered_example =
    execute_simple-Answered by_two batch doubled (20 ∷ 40 ∷ []) refl refl
      (refl, (refl, tt), (refl, tt, tt))
