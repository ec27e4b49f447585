-- ===== src/Worker/Supervisor.antt =====
-- aiomisc_worker/forking.py: the process that forks the workers and replaces those that crash. `live`
-- are the children that run, as the operating system knows them, and `ended` the workers whose process
-- has ended for good, since its status was zero. `os_fork` gives the number of a new process, by how
-- many there have been and which run.
pub mod Tracked
pub mod Conserved
use aiomisc.Base.{
  ℕ, zero, ◌+◌, ◌-◌, ◌/◌, Option, none, some, List, [], ◌∷◌, nat_beq, if◌then◌else◌, nat_eq,
  list_eq, pair_eq,
}
use aiomisc.Base.Dict.{Dict, lookup, put, delete, take_out}

pub record Supervisor : Type 0 where
  pub processes : Dict ℕ ℕ
  pub live : Dict ℕ ℕ
  pub ended : List ℕ
  pub forks : ℕ

unfoldable pub new_supervisor : Supervisor
new_supervisor = record { processes = []; live = []; ended = []; forks = 0 }

abbrev pub keys : Dict ℕ ℕ → List ℕ
keys [] = []
keys ((p, i) ∷ d) = p ∷ keys d

module _ (os_fork : ℕ → Dict ℕ ℕ → ℕ) where
  -- `fork`, in the parent.
  unfoldable pub fork : Supervisor → ℕ → Supervisor
  fork s worker_id =
      let pid = os_fork s.forks s.live in
      record s {
        processes = put pid worker_id s.processes;
        live = (pid, worker_id) ∷ s.live;
        forks = s.forks + 1;
      }

  unfoldable pub fork_all : Supervisor → List ℕ → Supervisor
  fork_all s [] = s
  fork_all s (worker_id ∷ worker_ids) = fork_all (fork s worker_id) worker_ids

  -- `PROCESSES.pop(pid, None)`, and a new process if there was one.
  abbrev pub refork : Supervisor → ℕ → Option ℕ → Supervisor
  refork s pid none = s
  refork s pid (some worker_id) = fork (record s { processes = delete pid s.processes }) worker_id

  -- A turn of the loop of `main`, from `os.wait` on; `worker_id` is that of the child that has ended.
  unfoldable pub waited : Supervisor → ℕ → ℕ → ℕ → Supervisor
  waited s pid worker_id status =
      let s₁ = record s { live = take_out pid s.live } in
      if nat_beq status 0
      then record s₁ { ended = worker_id ∷ s₁.ended }
      else refork s₁ pid (lookup pid s₁.processes)

  -- Only a child that runs can end.
  abbrev pub wait_for : Supervisor → ℕ → ℕ → Option ℕ → Supervisor
  wait_for s pid status none = s
  wait_for s pid status (some worker_id) = waited s pid worker_id status

  -- The supervisor after the children have ended as listed.
  unfoldable pub supervise : Supervisor → List (ℕ × ℕ) → Supervisor
  supervise s [] = s
  supervise s ((pid, status) ∷ more) = supervise (wait_for s pid status (lookup pid s.live)) more

  -- `main`, from the forking of the workers on.
  unfoldable pub main : List ℕ → List (ℕ × ℕ) → Supervisor
  main worker_ids ends = supervise (fork_all new_supervisor worker_ids) ends

-- `at_exit`: the processes that it terminates, and the supervisor that is left.
unfoldable pub at_exit : Supervisor → List ℕ × Supervisor
at_exit s = (keys s.processes, record s { processes = [] })
