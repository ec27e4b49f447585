-- ===== src/Aggregate.antt =====
-- aiomisc/aggregate.py: the calls that wait go together in a batch. A future is its number, and
-- `states` what is known of it. `gathering` is the batch of `_args` and `_futures`; a batch that
-- `_clear` puts aside lives on in the calls that wait for it, here in `batches`, oldest first. What
-- the aggregated function does, which futures it settles and how it ends, is an argument.
pub mod Batches
pub mod Results
use aiomisc.Base.{
  ℕ, ◌+◌, ◌-◌, ◌/◌, ◌<◌, Bool, true, false, not, Option, none, some, List, [], ◌∷◌, ◌++◌, nat_beq,
  if◌then◌else◌, ◌==◌, nat_eq, list_eq, pair_eq, length, Exn, value_error, Result, ℤ, below_one,
  magnitude, ok, err,
}

pub data Fault (E : Type 0) : Type 0 where
  by_function : E → Fault E
  result_not_set : Fault E

pub data FutureState (R E : Type 0) : Type 0 where
  pending : FutureState R E
  resolved : R → FutureState R E
  failed : Fault E → FutureState R E

-- How the aggregated function ends.
pub data Ending (E : Type 0) : Type 0 where
  returns : Ending E
  raises : E → Ending E
  is_cancelled : Ending E

pub record Batch (V : Type 0) : Type 0 where
  pub args : List V
  pub futures : List ℕ

pub record AggregateStatistic : Type 0 where
  pub success : ℕ
  pub error : ℕ
  pub done : ℕ

pub record Aggregator (V R E : Type 0) : Type 0 where
  pub max_count : Option ℕ
  pub gathering : Batch V
  pub batches : List (Batch V)
  pub next_future : ℕ
  pub states : ℕ → FutureState R E
  pub statistic : AggregateStatistic

abbrev pub is_done : {R E : Type 0} → FutureState R E → Bool
is_done pending = false
is_done _ = true

-- `self.count == self.max_count`
abbrev pub is_full : Option ℕ → ℕ → Bool
is_full none n = false
is_full (some m) n = nat_beq n m

-- max_count <= 0
abbrev pub bad_count : Option ℤ → Bool
bad_count none = false
bad_count (some x) = below_one x

abbrev pub natural : Option ℤ → Option ℕ
natural none = none
natural (some x) = some (magnitude x)

module _ {R E : Type 0} where
  abbrev pub put_state : (ℕ → FutureState R E) → ℕ → FutureState R E → ℕ → FutureState R E
  put_state states i s j = if nat_beq i j then s else states j

  abbrev pub set_if_pending : (ℕ → FutureState R E) → ℕ → FutureState R E → ℕ → FutureState R E
  set_if_pending states i s = if is_done (states i) then states else put_state states i s

  -- The loops over the futures that are not done: `_set_exception`, and the check that follows.
  unfoldable pub fail_rest : (ℕ → FutureState R E) → List ℕ → Fault E → ℕ → FutureState R E
  fail_rest states [] x = states
  fail_rest states (i ∷ is) x = fail_rest (set_if_pending states i (failed x)) is x

  -- The loop of `_to_async_aggregate` over the results and the arguments.
  unfoldable pub set_results : (ℕ → FutureState R E) → List R → List ℕ → ℕ → FutureState R E
  set_results states [] is = states
  set_results states (r ∷ rs) [] = states
  set_results states (r ∷ rs) (i ∷ is) = set_results (set_if_pending states i (resolved r)) rs is

module _ {V R E : Type 0} where
  -- `variadic` is what `_has_variadic_positional` finds of the function.
  unfoldable pub new_aggregator : Bool → ℤ → Option ℤ → Result Exn (Aggregator V R E)
  new_aggregator variadic leeway_ms max_count =
      if not variadic
      then err value_error
      else if bad_count max_count
      then err value_error
      else if below_one leeway_ms
      then err value_error
      else ok (record {
        max_count = natural max_count;
        gathering = record { args = []; futures = [] };
        batches = [];
        next_future = 0;
        states = λ _. pending;
        statistic = record { success = 0; error = 0; done = 0 };
      })

  unfoldable pub clear : Aggregator V R E → Aggregator V R E
  clear a = record a {
    batches = a.batches ++ a.gathering ∷ [];
    gathering = record { args = []; futures = [] };
  }

  -- `aggregate`, to its first await.
  unfoldable pub aggregate : Aggregator V R E → V → Aggregator V R E
  aggregate a arg =
      let joined = record a {
        gathering = record {
          args = a.gathering.args ++ arg ∷ [];
          futures = a.gathering.futures ++ a.next_future ∷ [];
        };
        next_future = a.next_future + 1;
      } in
      if is_full a.max_count (length joined.gathering.args) then clear joined else joined

  abbrev pub end_by : Aggregator V R E → List ℕ → Ending E → Aggregator V R E
  end_by a futures returns = record a {
    states = fail_rest a.states futures result_not_set;
    statistic = record a.statistic {
      success = a.statistic.success + 1;
      done = a.statistic.done + 1;
    };
  }
  end_by a futures (raises x) = record a {
    states = fail_rest a.states futures (by_function x);
    statistic = record a.statistic { error = a.statistic.error + 1; done = a.statistic.done + 1 };
  }
  end_by a futures is_cancelled = record a {
    statistic = record a.statistic { done = a.statistic.done + 1 };
  }

  -- `_execute`, for a function that has made the futures of the batch `states`, and ends.
  unfoldable pub execute :
      Aggregator V R E → Batch V → (ℕ → FutureState R E) → Ending E → Aggregator V R E
  execute a b states ending = end_by (record a { states = states }) b.futures ending

-- What the simple function does: it gives results for the arguments, or raises.
pub data Reply (R E : Type 0) : Type 0 where
  results : List R → Reply R E
  fails : E → Reply R E

module _ {V R E : Type 0} where
  abbrev pub by_reply : Aggregator V R E → Batch V → Reply R E → Aggregator V R E
  by_reply a b (results rs) = execute a b (set_results a.states rs b.futures) returns
  by_reply a b (fails x) = execute a b a.states (raises x)

  -- `_execute` of a function that `_to_async_aggregate` has wrapped.
  unfoldable pub execute_simple :
      Aggregator V R E → Batch V → (List V → Reply R E) → Aggregator V R E
  execute_simple a b func = by_reply a b (func b.args)
