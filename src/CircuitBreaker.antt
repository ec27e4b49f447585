-- ===== src/CircuitBreaker.antt =====
-- aiomisc/circuit_breaker.py. A time is a number of ticks of a clock, `unit` ticks to the second,
-- and each entry reads the clock once. A ratio is a fraction. The deque of buckets is a list, newest
-- first; the `Counter` of a bucket is shared with the calls that are under way, so the deque holds
-- the counters' addresses and `heap` their contents. The deque's own clearing leaves them alone.
-- `E` is the type of the exceptions that the wrapped functions raise.
pub mod Data
pub mod Recovery
pub mod Transitions
pub mod Opening
pub mod Validity
pub mod Counts
pub mod Histories
use aiomisc.Base.{
  ℕ, ◌+◌, ◌-◌, ◌*◌, ◌/◌, ◌%◌, ◌<◌, Bool, Option, none, some, List, [], ◌∷◌, ltb, leb, nat_beq,
  if◌then◌else◌, nat_eq, list_eq, pair_eq, length, take, Exn, value_error, Result, ok, err,
}
use aiomisc.CircuitBreaker.Data.{
  CircuitBreakerState, Counter, fresh_counter, CircuitBreakerStatistic, Ratio, ratio_ge,
  bucket_count, passing_broken_threshold, Config, CircuitBreaker, no_calls, or_default, bad_ratio,
  newest, is_upper, upper_count, recover_threshold, draw_admits, Entry, Outcome, inspected,
  CallResult, passing, broken, recovering, admitted, circuit_broken, returned, raised, done,
  refused,
}

module _ {E : Type 0} where
  unfoldable pub new_breaker :
      Ratio
      → ℕ
      → (E → Bool)
      → Option ℕ
      → Option ℕ
      → Option ℕ
      → Option (E → Result Exn Bool)
      → ℕ
      → Result Exn (CircuitBreaker E)
  new_breaker ratio response_time exceptions recovery_time broken_time passing_time inspector unit =
      if leb response_time 0
      then err value_error
      else if bad_ratio ratio
      then err value_error
      else ok (record {
        config = record {
          error_ratio = ratio;
          response_time = response_time;
          passing_time = or_default passing_time response_time;
          broken_time = or_default broken_time response_time;
          recovery_time = or_default recovery_time response_time;
          unit = unit;
          exceptions = exceptions;
          exception_inspector = inspector;
        };
        state = passing;
        statistic = [];
        heap = λ _. fresh_counter;
        next_address = 0;
        stuck_until = 0;
        recovery_at = 0;
        last_exception = none;
        counters = no_calls;
      })

  -- `int(ts - (ts % self._response_time))` for `ts = self._get_time() * self.BUCKET_COUNT`
  unfoldable pub bucket : CircuitBreaker E → ℕ → ℕ
  bucket b now = (now * bucket_count - (now * bucket_count) % b.response_time) / b.unit

  -- A new counter at the right end; the deque drops what is beyond its `maxlen`.
  unfoldable pub append_counter : CircuitBreaker E → ℕ → ℕ × CircuitBreaker E
  append_counter b current = (
    b.next_address,
    record b {
      statistic = take bucket_count ((current, b.next_address) ∷ b.statistic);
      heap = λ a. if nat_beq a b.next_address then fresh_counter else b.heap a;
      next_address = b.next_address + 1;
    },
  )

  abbrev pub or_append : CircuitBreaker E → ℕ → Option ℕ → ℕ × CircuitBreaker E
  or_append b current none = append_counter b current
  or_append b current (some address) = (address, b)

  unfoldable pub counter : CircuitBreaker E → ℕ → ℕ × CircuitBreaker E
  counter b now = or_append b (bucket b now) (newest b.statistic (bucket b now))

  -- `bucket < not_before`, in ticks
  abbrev pub is_old : CircuitBreaker E → ℕ → ℕ → Bool
  is_old b now bucket_ =
      ltb (bucket_ * b.unit + b.response_time * bucket_count) (bucket b now * b.unit)

  unfoldable pub gen_statistic : CircuitBreaker E → ℕ → List (ℕ × ℕ) → List Counter
  gen_statistic b now [] = []
  gen_statistic b now ((bucket_, address) ∷ older) =
      let rest = gen_statistic b now older in
      if is_old b now bucket_ then [] else b.heap address ∷ rest

  unfoldable pub recovery_ratio : CircuitBreaker E → ℕ → Ratio
  recovery_ratio b now =
      let seen = gen_statistic b now b.statistic in
      if nat_beq (length seen) 0
      then record { num = 0; den = 1 }
      else record { num = upper_count b.error_ratio seen; den = length seen }

  unfoldable pub get_state_delay : CircuitBreaker E → ℕ → ℕ
  get_state_delay b now = b.stuck_until - now

  abbrev pub break_at : CircuitBreaker E → ℕ → CircuitBreaker E
  break_at b now = record b { stuck_until = now + b.broken_time; state = broken; statistic = [] }

  unfoldable pub compute_by_state : CircuitBreakerState → CircuitBreaker E → ℕ → CircuitBreaker E
  compute_by_state broken b now = record b { state = recovering; recovery_at = now }
  compute_by_state passing b now =
      if ltb (length b.statistic) bucket_count
      then b
      else if ratio_ge (recovery_ratio b now) passing_broken_threshold
      then break_at b now
      else b
  compute_by_state recovering b now =
      if ratio_ge (recovery_ratio b now) (recover_threshold b.error_ratio)
      then break_at b now
      else if leb b.recovery_time (now - b.recovery_at)
      then record b { stuck_until = now + b.passing_time; state = passing }
      else b

  unfoldable pub compute_state : CircuitBreaker E → ℕ → CircuitBreaker E
  compute_state b now = if ltb now b.stuck_until then b else compute_by_state b.state b now

  abbrev pub count :
      CircuitBreaker E → (CircuitBreakerStatistic → CircuitBreakerStatistic) → CircuitBreaker E
  count b f = record b { counters = f b.counters }

  unfoldable pub enter_by_state :
      CircuitBreakerState → CircuitBreaker E → ℕ → ℕ → Ratio → Entry E × CircuitBreaker E
  enter_by_state passing b address now draw =
      (admitted address, count b (λ c. record c { call_passing = c.call_passing + 1 }))
  enter_by_state broken b address now draw =
      (circuit_broken b.last_exception, count b (λ c. record c { call_broken = c.call_broken + 1 }))
  enter_by_state recovering b address now draw =
      if draw_admits draw (now - b.recovery_at) b.recovery_time
      then (
        admitted address,
        count b (λ c. record c {
          call_recovering = c.call_recovering + 1;
          call_recovering_ok = c.call_recovering_ok + 1;
        }),
      )
      else (
        circuit_broken b.last_exception,
        count b (λ c. record c {
          call_recovering = c.call_recovering + 1;
          call_recovering_failed = c.call_recovering_failed + 1;
        }),
      )

  -- `context` up to its `yield`.
  unfoldable pub enter : CircuitBreaker E → ℕ → Ratio → Entry E × CircuitBreaker E
  enter b now draw =
      let (address, b₁) = counter b now in
      let b₂ = count (compute_state b₁ now) (λ c. record c { call_count = c.call_count + 1 }) in
      enter_by_state b₂.state b₂ address now draw

  unfoldable pub inspect_exception : Option (E → Result Exn Bool) → E → ℕ
  inspect_exception none x = 1
  inspect_exception (some inspector) x = inspected (inspector x)

  abbrev pub write : CircuitBreaker E → ℕ → Counter → CircuitBreaker E
  write b address c = record b { heap = λ a. if nat_beq a address then c else b.heap a }

  -- `_on_passing` from its `yield` on.
  unfoldable pub leave : {V : Type 0} → CircuitBreaker E → ℕ → Outcome E V → CircuitBreaker E
  unfolding inspect_exception
  leave b address (returned v) =
      let c = b.heap address in
      write (record b { last_exception = none }) address
        (record c { good = c.good + 1; total = c.total + 1 })
  leave b address (raised x) =
      let c = b.heap address in
      if b.exceptions x
      then write (record b { last_exception = some x }) address
          (record c {
            fail = c.fail + inspect_exception b.exception_inspector x;
            total = c.total + 1;
          })
      else write b address (record c { total = c.total + 1 })

  abbrev pub finish_call :
      {V : Type 0} → Outcome E V → Entry E × CircuitBreaker E → CallResult E V × CircuitBreaker E
  finish_call outcome (admitted address, b) = (done outcome, leave b address outcome)
  finish_call outcome (circuit_broken x, b) = (refused x, b)

  -- A call with no other one under way: the function is run, with the given outcome, if admitted.
  unfoldable pub call :
      {V : Type 0} → CircuitBreaker E → ℕ → Ratio → Outcome E V → CallResult E V × CircuitBreaker E
  call b now draw outcome = finish_call outcome (enter b now draw)
