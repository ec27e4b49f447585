-- ===== src/CircuitBreaker/Data.antt =====
-- The data of aiomisc/circuit_breaker.py: ratios, buckets, settings, the state of a breaker, and the
-- results of its calls.
use aiomisc.Base.{
  ℕ, suc, ◌+◌, ◌*◌, ◌^◌, Bool, false, ◌&&◌, Option, none, some, List, [], ◌∷◌, ltb, leb, nat_beq,
  if◌then◌else◌, nat_eq, list_eq, pair_eq, Exn, Result, ok,
}

pub data CircuitBreakerState : Type 0 where
  passing broken recovering : CircuitBreakerState

pub record Counter : Type 0 where
  pub fail : ℕ
  pub good : ℕ
  pub total : ℕ

abbrev pub fresh_counter : Counter
fresh_counter = record { fail = 0; good = 0; total = 0 }

pub record CircuitBreakerStatistic : Type 0 where
  pub call_count : ℕ
  pub call_passing : ℕ
  pub call_broken : ℕ
  pub call_recovering : ℕ
  pub call_recovering_ok : ℕ
  pub call_recovering_failed : ℕ

pub record Ratio : Type 0 where
  pub num : ℕ
  pub den : ℕ

-- a >= b, for positive denominators
abbrev pub ratio_ge : Ratio → Ratio → Bool
ratio_ge a b = leb (b.num * a.den) (a.num * b.den)

abbrev pub bucket_count : ℕ
bucket_count = 10

abbrev pub passing_broken_threshold : Ratio
passing_broken_threshold = record { num = 1; den = 1 }

pub record Config (E : Type 0) : Type 0 where
  pub error_ratio : Ratio
  pub response_time : ℕ
  pub passing_time : ℕ
  pub broken_time : ℕ
  pub recovery_time : ℕ
  pub unit : ℕ
  -- whether `except self._exceptions` catches an exception
  pub exceptions : E → Bool
  pub exception_inspector : Option (E → Result Exn Bool)

pub record CircuitBreaker (E : Type 0) : Type 0 where
  pub config : Config E
  pub open config use *
  pub state : CircuitBreakerState
  pub statistic : List (ℕ × ℕ)
  pub heap : ℕ → Counter
  pub next_address : ℕ
  pub stuck_until : ℕ
  pub recovery_at : ℕ
  pub last_exception : Option E
  pub counters : CircuitBreakerStatistic

abbrev pub no_calls : CircuitBreakerStatistic
no_calls = record {
  call_count = 0;
  call_passing = 0;
  call_broken = 0;
  call_recovering = 0;
  call_recovering_ok = 0;
  call_recovering_failed = 0;
}

-- `value or default`
abbrev pub or_default : Option ℕ → ℕ → ℕ
or_default none d = d
or_default (some n) d = if nat_beq n 0 then d else n

-- a > b and b >= c for the chained comparison `0.0 > error_ratio >= 1.0`
abbrev pub bad_ratio : Ratio → Bool
bad_ratio r = ltb r.num 0 && ratio_ge r (record { num = 1; den = 1 })

abbrev pub newest : List (ℕ × ℕ) → ℕ → Option ℕ
newest [] current = none
newest ((bucket_, address) ∷ older) current = if nat_beq current bucket_ then some address else none

-- Whether a bucket adds to `upper_count`.
abbrev pub is_upper : Ratio → Counter → Bool
is_upper ratio c =
    if nat_beq c.total 0 then false else ratio_ge (record { num = c.fail; den = c.total }) ratio

unfoldable pub upper_count : Ratio → List Counter → ℕ
upper_count ratio [] = 0
upper_count ratio (c ∷ cs) =
    let rest = upper_count ratio cs in if is_upper ratio c then suc rest else rest

-- RECOVER_BROKEN_THRESHOLD * error_ratio, with the threshold 0.5
abbrev pub recover_threshold : Ratio → Ratio
recover_threshold r = record { num = r.num; den = 2 * r.den }

-- `(random() + 1) < 2 ** (elapsed / recovery_time)`, where `random()` is `draw.num / draw.den`
unfoldable pub draw_admits : Ratio → ℕ → ℕ → Bool
draw_admits draw elapsed recovery_time =
    ltb ((draw.den + draw.num) ^ recovery_time) (2 ^ elapsed * draw.den ^ recovery_time)

-- What entering the context gives: the address of the counter that the body's outcome goes to,
-- or the exception that `CircuitBroken` carries.
pub data Entry (E : Type 0) : Type 0 where
  admitted : ℕ → Entry E
  circuit_broken : Option E → Entry E

pub data Outcome (E V : Type 0) : Type 0 where
  returned : V → Outcome E V
  raised : E → Outcome E V

abbrev pub inspected : Result Exn Bool → ℕ
inspected (ok false) = 0
inspected _ = 1

-- What a caller of `call` or `call_async` sees.
pub data CallResult (E V : Type 0) : Type 0 where
  done : Outcome E V → CallResult E V
  refused : Option E → CallResult E V
