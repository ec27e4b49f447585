-- ===== src/Pool.antt =====
-- aiomisc/pool.py, in steps: each goes from one await to the next. An instance is its number, and
-- numbers are given in the order of creation. How `_create_instance` and `_check_instance` end comes
-- with the step, as do the clock and the random part of the time to recycle. `creating`, `waiting`
-- and `checking` are the calls of `__acquire` that await `_create_instance`, the queue, and
-- `_check_instance`; `lost` counts the creations that raised, whose place is never given back.
pub mod Counting
pub mod Invariant
use aiomisc.Base.{
  ℕ, zero, suc, ◌+◌, ◌-◌, ◌/◌, Bool, false, ◌&&◌, Option, none, some, List, [], ◌∷◌, ◌++◌, ltb,
  nat_beq, if◌then◌else◌, is_some, nat_eq, list_eq, pair_eq, Exn, assertion_error, Result, ok, err,
}

pub record Pool : Type 0 where
  pub maxsize : ℕ
  pub recycle : Option ℕ
  pub semaphore : ℕ
  pub len : ℕ
  pub instances : List ℕ
  pub used : List ℕ
  pub recycle_bin : List ℕ
  pub recycle_times : ℕ → Option ℕ
  pub next_instance : ℕ
  pub creating : ℕ
  pub waiting : ℕ
  pub checking : List ℕ
  pub lost : ℕ

unfoldable pub count : ℕ → List ℕ → ℕ
count i [] = 0
count i (j ∷ js) = let rest = count i js in if nat_beq i j then suc rest else rest

unfoldable pub without : ℕ → List ℕ → List ℕ
without i [] = []
without i (j ∷ js) = let rest = without i js in if nat_beq i j then rest else j ∷ rest

-- `set.add`
abbrev pub with_one : ℕ → List ℕ → List ℕ
with_one i js = if ltb 0 (count i js) then js else i ∷ js

-- `assert recycle is None or recycle > 0`
unfoldable pub new_pool : ℕ → Option ℕ → Result Exn Pool
new_pool maxsize (some zero) = err assertion_error
new_pool maxsize recycle = ok (record {
  maxsize = maxsize;
  recycle = recycle;
  semaphore = maxsize;
  len = 0;
  instances = [];
  used = [];
  recycle_bin = [];
  recycle_times = λ _. none;
  next_instance = 0;
  creating = 0;
  waiting = 0;
  checking = [];
  lost = 0;
})

abbrev pub set_time : (ℕ → Option ℕ) → ℕ → Option ℕ → ℕ → Option ℕ
set_time times i t j = if nat_beq i j then t else times j

unfoldable pub recycle_instance : Pool → ℕ → Pool
recycle_instance p i = record p {
  len = p.len - 1;
  semaphore = p.semaphore + 1;
  recycle_times = set_time p.recycle_times i none;
  used = without i p.used;
  recycle_bin = p.recycle_bin ++ i ∷ [];
}

-- `__acquire`, to its first await: `semaphore.locked()` is that no place is left.
unfoldable pub acquire : Pool → Pool
acquire p =
    if nat_beq p.semaphore 0
    then record p { waiting = p.waiting + 1 }
    else record p { semaphore = p.semaphore - 1; creating = p.creating + 1 }

-- `__create_new_instance` from `_create_instance` on; then the caller awaits the queue.
unfoldable pub create_instance : Pool → Bool → ℕ → ℕ → Pool
create_instance p raises_ now deadline =
    if raises_ then record p { creating = p.creating - 1; lost = p.lost + 1 } else record p {
      creating = p.creating - 1;
      waiting = p.waiting + 1;
      len = p.len + 1;
      recycle_times =
          if is_some p.recycle
          then set_time p.recycle_times p.next_instance (some (now + deadline))
          else p.recycle_times;
      instances = p.instances ++ p.next_instance ∷ [];
      next_instance = p.next_instance + 1;
    }

-- `await self._instances.get()` comes back to one of the calls that wait.
abbrev pub get_instance : Pool → List ℕ → Pool
get_instance p [] = p
get_instance p (i ∷ is) = record p {
  instances = is;
  waiting = p.waiting - 1;
  checking = i ∷ p.checking;
}

-- How `_check_instance` ends.
pub data Check : Type 0 where
  good bad raising : Check

-- `__acquire` from `_check_instance` on. An instance that is bad is recycled, and the call starts
-- again; one whose check raises is recycled and yet handed out.
unfoldable pub check_instance : Pool → ℕ → Check → Pool
check_instance p i good = record p { checking = without i p.checking; used = with_one i p.used }
check_instance p i bad = acquire (recycle_instance (record p { checking = without i p.checking }) i)
check_instance p i raising =
    let p₁ = recycle_instance (record p { checking = without i p.checking }) i in
    record p₁ { used = with_one i p₁.used }

abbrev pub is_over : Option ℕ → ℕ → Bool
is_over none now = false
is_over (some t) now = ltb t now

-- `__release`: a missing time reads as the present.
unfoldable pub release : Pool → ℕ → ℕ → Pool
release p i now =
    let p₁ = record p { used = without i p.used } in
    if is_some p.recycle && is_over (p.recycle_times i) now
    then recycle_instance p₁ i
    else record p₁ { instances = p₁.instances ++ i ∷ [] }

-- `__recycler` takes an instance, and destroys it.
abbrev pub rest_of : List ℕ → List ℕ
rest_of [] = []
rest_of (i ∷ is) = is

unfoldable pub recycler : Pool → Pool
recycler p = record p { recycle_bin = rest_of p.recycle_bin }

-- `close`: the instances that it destroys, and the pool that is left.
unfoldable pub close : Pool → List ℕ × Pool
close p = (p.used ++ p.instances, record p { used = []; instances = [] })

-- What happens to a pool; a step that cannot be taken changes nothing.
pub data Event : Type 0 where
  acquires : Event
  creates : Bool → ℕ → ℕ → Event
  gets : Event
  checks : ℕ → Check → Event
  releases : ℕ → ℕ → Event
  destroys : Event
  closes : Event

abbrev pub step : Pool → Event → Pool
step p acquires = acquire p
step p (creates raises_ now deadline) =
    if nat_beq p.creating 0 then p else create_instance p raises_ now deadline
step p gets = if nat_beq p.waiting 0 then p else get_instance p p.instances
step p (checks i c) = if nat_beq (count i p.checking) 0 then p else check_instance p i c
step p (releases i now) = if nat_beq (count i p.used) 0 then p else release p i now
step p destroys = recycler p
step p closes = (close p).1

unfoldable pub replay : Pool → List Event → Pool
replay p [] = p
replay p (event ∷ events) = replay (step p event) events
