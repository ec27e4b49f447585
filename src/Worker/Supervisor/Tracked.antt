-- ===== src/Worker/Supervisor/Tracked.antt =====
-- The processes that aiomisc_worker/forking.py knows are those that run.
use aiomisc.Base.{
  ℕ, List, ◌∷◌, [], nat_beq, Option, none, some, sym, subst, ℕ, ◌≡◌, refl, ◌∙◌, Bool, true, false,
  none, some, List, [], ◌∷◌, arith, if◌then◌else◌, if_cases, ◌==◌, nat_eq, list_eq, pair_eq,
}
use aiomisc.Base.Sets.{contains}
use aiomisc.Base.Dict.{take_out, Dict, lookup, delete, lookup-put, lookup-delete}
use aiomisc.Worker.Supervisor.{
  at_exit, keys, main, supervise, wait_for, waited, refork, fork_all, Supervisor, new_supervisor,
  fork,
}

-- No number twice.
abbrev pub Distinct : Dict ℕ ℕ → Type 0
Distinct [] = Unit
Distinct ((p, i) ∷ d) = (lookup p d ≡ none) × Distinct d

lookup-take_out_other :
    (pid q : ℕ) (d : Dict ℕ ℕ) → (pid == q) ≡ false → lookup q (take_out pid d) ≡ lookup q d
unfolding lookup take_out
lookup-take_out_other pid q [] h = refl
lookup-take_out_other pid q ((p, i) ∷ d) h = ground (arith, lookup-take_out_other pid q d h)

pub lookup-take_out :
    (pid q : ℕ) (d : Dict ℕ ℕ)
    → Distinct d
    → lookup q (take_out pid d) ≡ (if pid == q then none else lookup q d)
unfolding lookup take_out
lookup-take_out pid q [] h = ground arith
lookup-take_out pid q ((p, i) ∷ d) h = ground (arith, h.0, lookup-take_out pid q d h.1)

take_out-Distinct : (pid : ℕ) (d : Dict ℕ ℕ) → Distinct d → Distinct (take_out pid d)
unfolding take_out
take_out-Distinct pid [] h = tt
take_out-Distinct pid ((p, i) ∷ d) h =
    if_cases Distinct (p == pid) (λ _. h.1)
      (λ other.
        (ground (arith, h.0, lookup-take_out_other pid p d, other), take_out-Distinct pid d h.1))

-- Every child that runs is known under its worker's id.
pub record IsTracked (s : Supervisor) : Type 0 where
  pub distinct : Distinct s.live
  pub known :
      (pid worker_id : ℕ)
      → lookup pid s.live ≡ some worker_id
      → lookup pid s.processes ≡ some worker_id

pub new_supervisor-IsTracked : IsTracked new_supervisor
unfolding new_supervisor lookup
new_supervisor-IsTracked = record { distinct = tt; known = λ pid i h. h }

keys_contain :
    (pid worker_id : ℕ) (d : Dict ℕ ℕ)
    → lookup pid d ≡ some worker_id
    → contains (λ (q : ℕ). q) (keys d) pid ≡ true
unfolding contains lookup
keys_contain pid i [] h = absurd (ground arith)
keys_contain pid i ((p, j) ∷ d) h = ground (arith, keys_contain pid i d, h)

module _ (os_fork : ℕ → Dict ℕ ℕ → ℕ)
    (is_new : (n : ℕ) (live : Dict ℕ ℕ) → lookup (os_fork n live) live ≡ none) where
  fork-IsTracked : (s : Supervisor) (i : ℕ) → IsTracked s → IsTracked (fork os_fork s i)
  unfolding fork lookup
  fork-IsTracked s i t =
      let pid = os_fork s.forks s.live in
      record {
        distinct = (is_new s.forks s.live, t.distinct);
        known = λ q j h. lookup-put pid q i s.processes ∙ if_same (pid == q) q j h (t.known q j);
      }
    where
      if_same :
          (b : Bool) (q j : ℕ)
          → (if b then some i else lookup q s.live) ≡ some j
          → (lookup q s.live ≡ some j → lookup q s.processes ≡ some j)
          → (if b then some i else lookup q s.processes) ≡ some j
      if_same true q j h k = h
      if_same false q j h k = k h

  -- The child that has ended, taken from both.
  without-IsTracked :
      (s : Supervisor) (pid : ℕ)
      → IsTracked s
      → IsTracked (record s { live = take_out pid s.live; processes = delete pid s.processes })
  without-IsTracked s pid t = record {
    distinct = take_out-Distinct pid s.live t.distinct;
    known = λ q j h. ground (
      arith,
      lookup-take_out pid q s.live t.distinct,
      lookup-delete pid q s.processes,
      t.known q j,
      h,
    );
  }

  ended-IsTracked :
      (s : Supervisor) (pid : ℕ) (over : List ℕ)
      → IsTracked s
      → IsTracked (record s { live = take_out pid s.live; ended = over })
  ended-IsTracked s pid over t = record {
    distinct = take_out-Distinct pid s.live t.distinct;
    known = λ q j h. ground (arith, lookup-take_out pid q s.live t.distinct, t.known q j, h);
  }

  -- The end of a child whose worker is known.
  waited-IsTracked :
      (s : Supervisor) (pid worker_id status : ℕ)
      → lookup pid s.live ≡ some worker_id
      → IsTracked s
      → IsTracked (waited os_fork s pid worker_id status)
  unfolding waited
  waited-IsTracked s pid worker_id status h t =
      if_cases IsTracked (nat_beq status 0) (λ _. ended-IsTracked s pid (worker_id ∷ s.ended) t)
        (λ _.
          subst (λ o. IsTracked (refork os_fork (record s { live = take_out pid s.live }) pid o))
            (sym (t.known pid worker_id h))
            (fork-IsTracked _ worker_id (without-IsTracked s pid t)))

  pub wait_for-IsTracked :
      (s : Supervisor) (pid status : ℕ) (o : Option ℕ)
      → lookup pid s.live ≡ o
      → IsTracked s
      → IsTracked (wait_for os_fork s pid status o)
  wait_for-IsTracked s pid status none h t = t
  wait_for-IsTracked s pid status (some worker_id) h t = waited-IsTracked s pid worker_id status h t

  supervise-IsTracked :
      (s : Supervisor) (ends : List (ℕ × ℕ)) → IsTracked s → IsTracked (supervise os_fork s ends)
  unfolding supervise
  supervise-IsTracked s [] t = t
  supervise-IsTracked s ((pid, status) ∷ more) t =
      supervise-IsTracked (wait_for os_fork s pid status (lookup pid s.live)) more
        (wait_for-IsTracked s pid status (lookup pid s.live) refl t)

  pub fork_all-IsTracked :
      (s : Supervisor) (worker_ids : List ℕ)
      → IsTracked s
      → IsTracked (fork_all os_fork s worker_ids)
  unfolding fork_all
  fork_all-IsTracked s [] t = t
  fork_all-IsTracked s (i ∷ is) t = fork_all-IsTracked (fork os_fork s i) is (fork-IsTracked s i t)

  main-IsTracked :
      (worker_ids : List ℕ) (ends : List (ℕ × ℕ)) → IsTracked (main os_fork worker_ids ends)
  unfolding main
  main-IsTracked worker_ids ends =
      supervise-IsTracked _ ends
        (fork_all-IsTracked new_supervisor worker_ids new_supervisor-IsTracked)

  -- Whichever workers have crashed or ended before, the supervisor's exit terminates every worker
  -- process that runs: its number is among those that get the signal. The operating system gives no
  -- new process the number of one that runs.
  pub at_exit-kills :
      (worker_ids : List ℕ) (ends : List (ℕ × ℕ)) (pid worker_id : ℕ)
      → lookup pid (main os_fork worker_ids ends).live ≡ some worker_id
      → contains (λ q. q) (at_exit (main os_fork worker_ids ends)).0 pid ≡ true
  unfolding at_exit
  at_exit-kills worker_ids ends pid worker_id h =
      keys_contain pid worker_id (main os_fork worker_ids ends).processes
        ((main-IsTracked worker_ids ends).known pid worker_id h)
