-- ===== src/Pool/Invariant.antt =====
-- The invariant of the pool of aiomisc/pool.py: its size, and who holds an instance.
use aiomisc.Base.{
  ℕ, suc, ◌+◌, ◌≤◌, ◌≡◌, refl, inl, inr, Bool, true, false, List, [], ◌∷◌, arith, nat_beq,
  nat_beq_iff, Bool-cases, nat_eq, list_eq, pair_eq, length, length-append, zero, ap, subst, ◌&&◌,
  Option, none, some, is_some, if_cases, ok, ok-injective,
}
use aiomisc.Pool.{
  Pool, count, without, with_one, new_pool, recycle_instance, acquire, create_instance,
  get_instance, good, bad, raising, is_over, release, recycler, check_instance, Event, acquires,
  creates, gets, checks, releases, destroys, closes, step, replay,
}
use aiomisc.Pool.Counting.{count-append, count-one, count-cons, count-without, length-without}

pub record IsValid (p : Pool) : Type 0 where
  -- Every place is free, taken by a call that creates, filled, or lost.
  pub places : p.semaphore + p.creating + p.len + p.lost ≡ p.maxsize
  -- Every instance is idle, checked or used, and there is one of each.
  pub held : p.len ≡ length p.instances + length p.checking + length p.used
  pub single : (i : ℕ) → count i p.instances + count i p.checking + count i p.used ≤ 1
  pub fresh :
      (i : ℕ) → p.next_instance ≤ i → count i p.instances + count i p.checking + count i p.used ≡ 0

acquire-IsValid : (p : Pool) → IsValid p → IsValid (acquire p)
unfolding acquire
acquire-IsValid p v = elim (Bool-cases (nat_beq p.semaphore 0)) [
  | inl e ↦ rw e (record { places = v.places; held = v.held; single = v.single; fresh = v.fresh })
  | inr e ↦ rw e (record {
    places = ground (arith, v.places);
    held = v.held;
    single = v.single;
    fresh = v.fresh;
  })
]

create_instance-IsValid :
    (p : Pool) (raises_ : Bool) (now deadline : ℕ)
    → nat_beq p.creating 0 ≡ false
    → IsValid p
    → IsValid (create_instance p raises_ now deadline)
unfolding create_instance
create_instance-IsValid p true now deadline h v = record {
  places = ground (arith, v.places);
  held = v.held;
  single = v.single;
  fresh = v.fresh;
}
create_instance-IsValid p false now deadline h v = record {
  places = ground (arith, v.places);
  held = omega (arith, v.held, length-append p.instances (p.next_instance ∷ []));
  single = λ i. ground (
    arith,
    v.single i,
    v.fresh i,
    count-append i p.instances (p.next_instance ∷ []),
    count-one i p.next_instance,
    nat_beq_iff i p.next_instance,
  );
  fresh = λ i le. ground (
    arith,
    v.fresh i,
    count-append i p.instances (p.next_instance ∷ []),
    count-one i p.next_instance,
    nat_beq_iff i p.next_instance,
  );
}

get_instance-IsValid :
    (p : Pool) (is : List ℕ) → p.instances ≡ is → IsValid p → IsValid (get_instance p is)
get_instance-IsValid p [] e v = v
get_instance-IsValid p (i ∷ is) e v =
    let same : (j : ℕ) → count j p.instances ≡ count j (i ∷ is) = λ j. ap (count j) e in
    record {
      places = v.places;
      held = omega (arith, v.held, ap (λ (l : List ℕ). length l) e);
      single =
          λ j. ground (arith, v.single j, same j, count-cons j i is, count-cons j i p.checking);
      fresh =
          λ j le. ground (arith, v.fresh j, same j, count-cons j i is, count-cons j i p.checking);
    }

-- An instance that is checked is neither idle nor used.
checked_alone :
    (p : Pool) (i : ℕ)
    → IsValid p
    → nat_beq (count i p.checking) 0 ≡ false
    → (count i p.checking ≡ 1) × (count i p.used ≡ 0) × (count i p.instances ≡ 0)
checked_alone p i v h =
    (ground (arith, v.single i), ground (arith, v.single i), ground (arith, v.single i))

with_one-new : (i : ℕ) (js : List ℕ) → count i js ≡ 0 → with_one i js ≡ i ∷ js
with_one-new i js h = ground (arith, h)

without-absent : (i : ℕ) (js : List ℕ) → count i js ≡ 0 → length (without i js) ≡ length js
without-absent i js h = omega (arith, h, length-without i js)

good-IsValid :
    (p : Pool) (i : ℕ)
    → nat_beq (count i p.checking) 0 ≡ false
    → IsValid p
    → IsValid (check_instance p i good)
unfolding check_instance
good-IsValid p i h v =
    let (one, unused, idle) = checked_alone p i v h in
    rw (with_one-new i p.used unused) (record {
      places = v.places;
      held = omega (arith, v.held, one, length-without i p.checking);
      single = λ j. ground (
        arith,
        v.single j,
        one,
        count-without j i p.checking,
        count-cons j i p.used,
        nat_beq_iff j i,
      );
      fresh = λ j le. ground (
        arith,
        v.fresh j,
        v.fresh i,
        one,
        count-without j i p.checking,
        count-cons j i p.used,
        nat_beq_iff j i,
      );
    })

-- Recycling an instance that nobody holds any more, but that is counted.
recycle_instance-IsValid :
    (p : Pool) (i : ℕ)
    → count i p.checking ≡ 0
    → count i p.instances ≡ 0
    → p.semaphore + p.creating + p.len + p.lost ≡ p.maxsize
    → p.len ≡ suc (length p.instances + length p.checking + length (without i p.used))
    → ((j : ℕ) → count j p.instances + count j p.checking + count j p.used ≤ 1)
    → ((j : ℕ)
        → p.next_instance ≤ j
        → count j p.instances + count j p.checking + count j p.used ≡ 0)
    → IsValid (recycle_instance p i)
unfolding recycle_instance
recycle_instance-IsValid p i c d places held single fresh = record {
  places = omega (arith, places, held);
  held = omega (arith, held);
  single = λ j. ground (arith, single j, count-without j i p.used);
  fresh = λ j le. ground (arith, fresh j, count-without j i p.used);
}

bad-IsValid :
    (p : Pool) (i : ℕ)
    → nat_beq (count i p.checking) 0 ≡ false
    → IsValid p
    → IsValid (check_instance p i bad)
unfolding check_instance
bad-IsValid p i h v =
    let (one, unused, idle) = checked_alone p i v h in
    acquire-IsValid _ (
      recycle_instance-IsValid (record p { checking = without i p.checking }) i
        (ground (arith, count-without i i p.checking, nat_beq_iff i i)) idle v.places
        (omega (arith, v.held, one, length-without i p.checking, without-absent i p.used unused))
        (λ j. ground (arith, v.single j, count-without j i p.checking))
        (λ j le. ground (arith, v.fresh j, count-without j i p.checking)))

release-IsValid :
    (p : Pool) (i now : ℕ)
    → nat_beq (count i p.used) 0 ≡ false
    → IsValid p
    → IsValid (release p i now)
unfolding release
release-IsValid p i now h v =
    let one : count i p.used ≡ 1 = ground (arith, v.single i) in
    let idle : count i p.instances ≡ 0 = ground (arith, v.single i) in
    let unchecked : count i p.checking ≡ 0 = ground (arith, v.single i) in
    let gone : count i (without i p.used) ≡ 0 =
      ground (arith, count-without i i p.used, nat_beq_iff i i) in
    if_cases IsValid (is_some p.recycle && is_over (p.recycle_times i) now)
      (λ _.
        recycle_instance-IsValid (record p { used = without i p.used }) i unchecked idle v.places
          (omega
            (arith, v.held, one, length-without i p.used, without-absent i (without i p.used) gone))
          (λ j. ground (arith, v.single j, count-without j i p.used))
          (λ j le. ground (arith, v.fresh j, count-without j i p.used)))
      (λ _. record {
        places = v.places;
        held =
            omega (arith, v.held, one, length-without i p.used, length-append p.instances (i ∷ []));
        single = λ j. ground (
          arith,
          v.single j,
          v.single i,
          one,
          count-without j i p.used,
          count-append j p.instances (i ∷ []),
          count-one j i,
          nat_beq_iff j i,
        );
        fresh = λ j le. ground (
          arith,
          v.fresh j,
          v.fresh i,
          one,
          count-without j i p.used,
          count-append j p.instances (i ∷ []),
          count-one j i,
          nat_beq_iff j i,
        );
      })

-- No check of an instance raises, and the pool is not closed.
abbrev pub IsOpen : List Event → Type 0
IsOpen [] = Unit
IsOpen (checks i raising ∷ events) = ⊥
IsOpen (closes ∷ events) = ⊥
IsOpen (event ∷ events) = IsOpen events

step-IsValid : (p : Pool) (event : Event) → IsOpen (event ∷ []) → IsValid p → IsValid (step p event)
step-IsValid p acquires ok_ v = acquire-IsValid p v
step-IsValid p (creates raises_ now deadline) ok_ v =
    if_cases IsValid (nat_beq p.creating 0) (λ _. v)
      (λ h. create_instance-IsValid p raises_ now deadline h v)
step-IsValid p gets ok_ v =
    if_cases IsValid (nat_beq p.waiting 0) (λ _. v) (λ h. get_instance-IsValid p p.instances refl v)
step-IsValid p (checks i good) ok_ v =
    if_cases IsValid (nat_beq (count i p.checking) 0) (λ _. v) (λ h. good-IsValid p i h v)
step-IsValid p (checks i bad) ok_ v =
    if_cases IsValid (nat_beq (count i p.checking) 0) (λ _. v) (λ h. bad-IsValid p i h v)
step-IsValid p (checks i raising) ok_ v = absurd ok_
step-IsValid p closes ok_ v = absurd ok_
step-IsValid p (releases i now) ok_ v =
    if_cases IsValid (nat_beq (count i p.used) 0) (λ _. v) (λ h. release-IsValid p i now h v)
step-IsValid p destroys ok_ v =
    unfold recycler in
    record { places = v.places; held = v.held; single = v.single; fresh = v.fresh }

split_event :
    (event : Event) (events : List Event)
    → IsOpen (event ∷ events)
    → IsOpen (event ∷ []) × IsOpen events
split_event acquires events h = (tt, h)
split_event (creates _ _ _) events h = (tt, h)
split_event gets events h = (tt, h)
split_event (checks i good) events h = (tt, h)
split_event (checks i bad) events h = (tt, h)
split_event (checks i raising) events h = absurd h
split_event (releases _ _) events h = (tt, h)
split_event destroys events h = (tt, h)
split_event closes events h = absurd h

-- From a pool that satisfies the invariant, as long as no check of an instance raises and the pool is
-- not closed, and whether or not creations raise, every place of the pool stays accounted for, so that there are never more
-- instances than `maxsize`, and each instance is idle, under check or with one user, and never two
-- of these at once.
replay-IsValid :
    (p : Pool) (events : List Event) → IsOpen events → IsValid p → IsValid (replay p events)
unfolding replay
replay-IsValid p [] h v = v
replay-IsValid p (event ∷ events) h v =
    let (now_, later) = split_event event events h in
    replay-IsValid (step p event) events later (step-IsValid p event now_ v)

-- A pool that the constructor makes satisfies the invariant: all places free, and no instance.
new_pool-IsValid :
    (maxsize : ℕ) (recycle : Option ℕ) (p : Pool) → new_pool maxsize recycle ≡ ok p → IsValid p
unfolding new_pool count
new_pool-IsValid maxsize (some zero) p h = cc h
new_pool-IsValid maxsize (some (suc n)) p h =
    subst IsValid (ok-injective h) (record {
      places = omega arith;
      held = refl;
      single = λ i. omega arith;
      fresh = λ i le. refl;
    })
new_pool-IsValid maxsize none p h =
    subst IsValid (ok-injective h) (record {
      places = omega arith;
      held = refl;
      single = λ i. omega arith;
      fresh = λ i le. refl;
    })

-- Until a pool that was made is closed, as long as no check of an instance raises, and whether or not
-- creations do, every place of the pool stays accounted for, so that there are never more
-- instances than `maxsize`, and each instance is idle, under check or with one user, and never two
-- of these at once.
pub replay-new_pool-IsValid :
    (maxsize : ℕ) (recycle : Option ℕ) (p : Pool) (events : List Event)
    → new_pool maxsize recycle ≡ ok p
    → IsOpen events
    → IsValid (replay p events)
replay-new_pool-IsValid maxsize recycle p events made h =
    replay-IsValid p events h (new_pool-IsValid maxsize recycle p made)
