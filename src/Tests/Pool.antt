-- ===== src/Tests/Pool.antt =====
-- Runs of the pool of aiomisc/pool.py.
use aiomisc.Base.{◌≡◌, refl, true, false, none, some, List, [], ◌∷◌, nat_eq, list_eq, pair_eq, ok}
use aiomisc.Pool.{
  Pool, new_pool, Event, acquires, creates, gets, checks, releases, destroys, good, bad, raising,
  replay, acquire, create_instance, check_instance, count, without, recycle_instance, release,
  recycler,
}
use aiomisc.Pool.Invariant.{IsValid, replay-new_pool-IsValid}

abbrev pool : Pool
pool = record {
  maxsize = 2;
  recycle = some 10;
  semaphore = 2;
  len = 0;
  instances = [];
  used = [];
  recycle_bin = [];
  recycle_times = λ _. none;
  next_instance = 0;
  creating = 0;
  waiting = 0;
  checking = [];
  lost = 0;
}

pool_by : new_pool 2 (some 10) ≡ ok pool
unfolding new_pool
pool_by = refl

-- An instance is made, used and recycled, another turns out bad, and a creation fails.
abbrev history : List Event
history =
    acquires
    ∷ creates false 0 15
    ∷ gets
    ∷ checks 0 good
    ∷ releases 0 20
    ∷ acquires
    ∷ creates false 20 12
    ∷ gets
    ∷ checks 1 bad
    ∷ creates true 21 0
    ∷ destroys
    ∷ []

replay-IsValid_pool_history : (replay pool history).len ≡ 0
unfolding replay acquire create_instance check_instance count without recycle_instance release
    recycler
replay-IsValid_pool_history = refl

replay-new_pool-IsValid_example : IsValid (replay pool history)
replay-new_pool-IsValid_example = replay-new_pool-IsValid 2 (some 10) pool history pool_by tt

-- After a check that raises, an instance that is to be destroyed is handed out, and comes back idle.
abbrev raising_history : List Event
raising_history = acquires ∷ creates false 0 15 ∷ gets ∷ checks 0 raising ∷ releases 0 5 ∷ []

recycled_and_idle :
    ((replay pool raising_history).instances ≡ 0 ∷ [])
    × ((replay pool raising_history).recycle_bin ≡ 0 ∷ [])
unfolding replay acquire create_instance check_instance count without recycle_instance release
    recycler
recycled_and_idle = (refl, refl)
