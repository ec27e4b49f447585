-- ===== src/Worker/Supervisor/Conserved.antt =====
-- No worker is lost by aiomisc_worker/forking.py: each has a process, until one ends with status zero.
use aiomisc.Base.{
  ℕ, suc, ◌+◌, ◌≡◌, refl, sym, subst, ◌∙◌, Option, none, some, List, [], ◌∷◌, arith, nat_beq, arith,
  if◌then◌else◌, if_cases, nat_eq, list_eq, pair_eq,
}
use aiomisc.Base.Dict.{take_out, Dict, lookup, delete}
use aiomisc.Worker.Supervisor.{
  Supervisor, new_supervisor, fork, fork_all, refork, waited, wait_for, supervise, main,
}
use aiomisc.Worker.Supervisor.Tracked.{
  IsTracked, wait_for-IsTracked, fork_all-IsTracked, new_supervisor-IsTracked,
}

unfoldable pub occurrences : ℕ → List ℕ → ℕ
occurrences i [] = 0
occurrences i (j ∷ js) = let rest = occurrences i js in if nat_beq i j then suc rest else rest

abbrev pub values : Dict ℕ ℕ → List ℕ
values [] = []
values ((p, i) ∷ d) = i ∷ values d

-- The processes of a worker, and those of it that have ended for good.
abbrev pub processes_of : Supervisor → ℕ → ℕ
processes_of s i = occurrences i (values s.live) + occurrences i s.ended

occurrences-take_out :
    (i pid worker_id : ℕ) (d : Dict ℕ ℕ)
    → lookup pid d ≡ some worker_id
    → occurrences i (values d)
      ≡ occurrences i (values (take_out pid d)) + (if nat_beq i worker_id then 1 else 0)
unfolding occurrences take_out lookup
occurrences-take_out i pid w [] h = absurd (ground arith)
occurrences-take_out i pid w ((p, j) ∷ d) h = ground (arith, occurrences-take_out i pid w d, h)

module _ (os_fork : ℕ → Dict ℕ ℕ → ℕ) where
  processes_of-fork :
      (s : Supervisor) (i j : ℕ)
      → processes_of (fork os_fork s j) i ≡ processes_of s i + (if nat_beq i j then 1 else 0)
  unfolding fork occurrences
  processes_of-fork s i j = ground arith

  processes_of-fork_all :
      (s : Supervisor) (i : ℕ) (js : List ℕ)
      → processes_of (fork_all os_fork s js) i ≡ processes_of s i + occurrences i js
  unfolding fork_all occurrences
  processes_of-fork_all s i [] = omega arith
  processes_of-fork_all s i (j ∷ js) =
      ground (arith, processes_of-fork_all (fork os_fork s j) i js, processes_of-fork s i j)

  processes_of-waited :
      (s : Supervisor) (i pid worker_id status : ℕ)
      → lookup pid s.live ≡ some worker_id
      → IsTracked s
      → processes_of (waited os_fork s pid worker_id status) i ≡ processes_of s i
  unfolding waited occurrences
  processes_of-waited s i pid w status h t =
      if_cases (λ s₂. processes_of s₂ i ≡ processes_of s i) (nat_beq status 0) (λ _. ended_one)
        (λ _.
          subst
            (λ o.
              processes_of (refork os_fork (record s { live = take_out pid s.live }) pid o) i
              ≡ processes_of s i)
            (sym (t.known pid w h)) forked_one)
    where
      ended_one :
          occurrences i (values (take_out pid s.live)) + occurrences i (w ∷ s.ended)
          ≡ processes_of s i
      ended_one = ground (arith, occurrences-take_out i pid w s.live h)

      forked_one :
          processes_of
            (fork os_fork
              (record s { live = take_out pid s.live; processes = delete pid s.processes })
              w)
            i
          ≡ processes_of s i
      forked_one = omega (
        arith,
        occurrences-take_out i pid w s.live h,
        processes_of-fork
            (record s { live = take_out pid s.live; processes = delete pid s.processes }) i w,
      )

  processes_of-wait_for :
      (s : Supervisor) (i pid status : ℕ) (o : Option ℕ)
      → lookup pid s.live ≡ o
      → IsTracked s
      → processes_of (wait_for os_fork s pid status o) i ≡ processes_of s i
  processes_of-wait_for s i pid status none h t = refl
  processes_of-wait_for s i pid status (some w) h t = processes_of-waited s i pid w status h t

  module _ (is_new : (n : ℕ) (live : Dict ℕ ℕ) → lookup (os_fork n live) live ≡ none) where
    processes_of-supervise :
        (s : Supervisor) (i : ℕ) (ends : List (ℕ × ℕ))
        → IsTracked s
        → processes_of (supervise os_fork s ends) i ≡ processes_of s i
    unfolding supervise
    processes_of-supervise s i [] t = refl
    processes_of-supervise s i ((pid, status) ∷ more) t =
        processes_of-supervise (wait_for os_fork s pid status (lookup pid s.live)) i more
          (wait_for-IsTracked os_fork is_new s pid status (lookup pid s.live) refl t)
        ∙ processes_of-wait_for s i pid status (lookup pid s.live) refl t

    -- Whichever processes have ended, and with which status: every worker that the supervisor was to
    -- start has its process still, or has had one that ended with status zero. So a crash never costs
    -- the pool a worker, and no worker ever has two processes.
    pub processes_of-main :
        (worker_ids : List ℕ) (ends : List (ℕ × ℕ)) (i : ℕ)
        → occurrences i (values (main os_fork worker_ids ends).live)
            + occurrences i (main os_fork worker_ids ends).ended
          ≡ occurrences i worker_ids
    unfolding main new_supervisor occurrences
    processes_of-main worker_ids ends i = omega (
      arith,
      processes_of-supervise (fork_all os_fork new_supervisor worker_ids) i ends
          (fork_all-IsTracked os_fork is_new new_supervisor worker_ids new_supervisor-IsTracked),
      processes_of-fork_all new_supervisor i worker_ids,
    )
