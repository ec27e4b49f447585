-- ===== src/Entrypoint/Starts.antt =====
-- The `start` of every service, from the beginning to the end of the entry point of
-- aiomisc/entrypoint.py: which of them run is known.
use aiomisc.Base.{
  subst, ap, ◌∙◌, refl, true, false, not, ◌&&◌, ◌||◌, ◌==◌, [], ◌∷◌, List, Bool, if_cases, inl, inr,
  Bool-cases, nat_beq, nat_eq, arith, ℕ, ◌≡◌, if◌then◌else◌, nat_beq_iff, list_eq, pair_eq,
}
use aiomisc.Base.Sets.{contains-cons, contains-discard, discard, contains}
use aiomisc.Entrypoint.{
  pre_start, starting, returned, raised, begin_service, begin_services, end_if_empty,
  start_services, leave_group, service_ready, start_returns, fail_group, start_raises, record_call,
  Start, cancelled, Entrypoint, ident, is_running, set_start, cancel_start, cancel_starts,
}

-- Every `start` that runs is awaited by its group, or kept among the tasks.
abbrev pub IsTracked : Entrypoint → Type 0
IsTracked e =
    (i : ℕ)
    → is_running (e.starts i) ≡ true
    → (contains ident e.tasks i || contains ident e.group i) ≡ true

-- Only fewer run, and the sets stay.
pub record Fewer (e f : Entrypoint) : Type 0 where
  pub same_tasks : f.tasks ≡ e.tasks
  pub same_group : f.group ≡ e.group
  pub still : (i : ℕ) → is_running (f.starts i) ≡ true → is_running (e.starts i) ≡ true

pub Fewer-trans : {e f g : Entrypoint} → Fewer e f → Fewer f g → Fewer e g
Fewer-trans h k = record {
  same_tasks = k.same_tasks ∙ h.same_tasks;
  same_group = k.same_group ∙ h.same_group;
  still = λ i r. h.still i (k.still i r);
}

pub Fewer-refl : (e : Entrypoint) → Fewer e e
Fewer-refl e = record { same_tasks = refl; same_group = refl; still = λ i r. r }

set_start-Fewer :
    (e : Entrypoint) (i : ℕ) (s : Start) → is_running s ≡ false → Fewer e (set_start e i s)
set_start-Fewer e i s n = record {
  same_tasks = refl;
  same_group = refl;
  still = λ j r. still_runs (nat_beq i j) (e.starts j) r;
}
  where
    still_runs :
        (b : Bool) (t : Start) → is_running (if b then s else t) ≡ true → is_running t ≡ true
    still_runs true t r = cc (r, n)
    still_runs false t r = r

cancel_start-Fewer : (e : Entrypoint) (i : ℕ) → Fewer e (cancel_start e i)
unfolding cancel_start
cancel_start-Fewer e i =
    if_cases (Fewer e) (is_running (e.starts i)) (λ _. set_start-Fewer e i cancelled refl)
      (λ _. Fewer-refl e)

pub cancel_starts-Fewer : (is : List ℕ) (e : Entrypoint) → Fewer e (cancel_starts is e)
unfolding cancel_starts
cancel_starts-Fewer [] e = Fewer-refl e
cancel_starts-Fewer (i ∷ is) e =
    Fewer-trans (cancel_start-Fewer e i) (cancel_starts-Fewer is (cancel_start e i))

-- What is cancelled does not run.
cancel_start-stopped : (e : Entrypoint) (i : ℕ) → is_running ((cancel_start e i).starts i) ≡ false
unfolding cancel_start
cancel_start-stopped e i =
    if_cases (λ (f : Entrypoint). is_running (f.starts i) ≡ false) (is_running (e.starts i))
      (λ _. rw ((nat_beq_iff i i).1 refl) refl) (λ n. n)

pub cancel_starts-stopped :
    (is : List ℕ) (e : Entrypoint) (i : ℕ)
    → contains ident is i ≡ true
    → is_running ((cancel_starts is e).starts i) ≡ false
unfolding cancel_starts contains
cancel_starts-stopped [] e i c = absurd (ground arith)
cancel_starts-stopped (j ∷ is) e i c = elim (Bool-cases (nat_beq j i)) [
  | inr o ↦ cancel_starts-stopped is (cancel_start e j) i (ground (arith, c, o))
  | inl s ↦ elim (Bool-cases (is_running ((cancel_starts is (cancel_start e j)).starts i))) [
    | inr n ↦ n
    | inl r ↦
        let before = (cancel_starts-Fewer is (cancel_start e j)).still i r in
        let not_now =
          subst (λ k. is_running ((cancel_start e j).starts k) ≡ false) ((nat_beq_iff j i).0 s)
            (cancel_start-stopped e j) in
        cc (before, not_now)
  ]
]

pub Fewer-IsTracked : (e f : Entrypoint) → Fewer e f → IsTracked e → IsTracked f
Fewer-IsTracked e f k t i r =
    ap (λ (s : List ℕ). contains ident s i || contains ident f.group i) k.same_tasks
    ∙ ap (λ (s : List ℕ). contains ident e.tasks i || contains ident s i) k.same_group
    ∙ t i (k.still i r)

-- The steps of the start.
begin_service-IsTracked : (e : Entrypoint) (i : ℕ) → IsTracked e → IsTracked (begin_service e i)
unfolding begin_service
begin_service-IsTracked e i t j r = ground (arith, contains-cons ident i j e.group, t j, r)

begin_services-IsTracked :
    (is : List ℕ) (e : Entrypoint) → IsTracked e → IsTracked (begin_services is e)
unfolding begin_services
begin_services-IsTracked [] e t = t
begin_services-IsTracked (i ∷ is) e t =
    begin_services-IsTracked is (begin_service e i) (begin_service-IsTracked e i t)

end_if_empty-IsTracked :
    (e : Entrypoint) (is : List ℕ) → IsTracked e → IsTracked (end_if_empty e is)
end_if_empty-IsTracked e [] t = t
end_if_empty-IsTracked e (i ∷ is) t = t

pub start_services-IsTracked :
    (e : Entrypoint) (svc : List ℕ) → IsTracked e → IsTracked (start_services e svc)
unfolding start_services
start_services-IsTracked e svc t =
    let e₀ = record (record_call e pre_start) { status = starting } in
    end_if_empty-IsTracked (begin_services svc e₀) (begin_services svc e₀).group
      (begin_services-IsTracked svc e₀ t)

-- A call leaves the group whose `start` does not run any more, or is kept.
leave_group-IsTracked :
    (e : Entrypoint) (i : ℕ)
    → ((j : ℕ)
        → is_running (e.starts j) ≡ true
        → (contains ident e.tasks j || (not (i == j) && contains ident e.group j)) ≡ true)
    → IsTracked (leave_group e i)
unfolding leave_group
leave_group-IsTracked e i h =
    end_if_empty-IsTracked (record e { group = discard ident i e.group }) (discard ident i e.group)
      (λ j r. ap (λ b. contains ident e.tasks j || b) (contains-discard ident i j e.group) ∙ h j r)

pub service_ready-IsTracked : (e : Entrypoint) (i : ℕ) → IsTracked e → IsTracked (service_ready e i)
unfolding service_ready
service_ready-IsTracked e i t =
    if_cases IsTracked (contains ident e.group i && is_running (e.starts i))
      (λ _.
        leave_group-IsTracked (record e { tasks = i ∷ e.tasks }) i
          (λ j r. ground (arith, contains-cons ident i j e.tasks, t j r)))
      (λ _. t)

pub start_returns-IsTracked : (e : Entrypoint) (i : ℕ) → IsTracked e → IsTracked (start_returns e i)
unfolding start_returns
start_returns-IsTracked e i t =
    let k = set_start-Fewer e i returned refl in
    if_cases IsTracked (not (is_running (e.starts i))) (λ _. t)
      (λ _.
        if_cases IsTracked (contains ident e.group i)
          (λ _.
            leave_group-IsTracked (set_start e i returned) i
              (λ j r. ground (arith, t j, k.still j r, stopped j, r)))
          (λ _. Fewer-IsTracked e (set_start e i returned) k t))
  where
    stopped : (j : ℕ) → is_running ((set_start e i returned).starts j) ≡ true → nat_beq i j ≡ false
    stopped j r = elim (Bool-cases (nat_beq i j)) [
      | inr o ↦ o
      | inl s ↦ absurd (ground (arith, r, s))
    ]

fail_group-IsTracked : (e : Entrypoint) → IsTracked e → IsTracked (fail_group e)
unfolding fail_group
fail_group-IsTracked e t i r =
    let k = cancel_starts-Fewer e.group e in
    ap (λ (s : List ℕ). contains ident s i || contains ident [] i) k.same_tasks
    ∙ kept (contains ident e.group i) refl
  where
    kept :
        (b : Bool)
        → contains ident e.group i ≡ b
        → (contains ident e.tasks i || contains ident [] i) ≡ true
    kept true c = cc (cancel_starts-stopped e.group e i c, r)
    kept false c = ground (arith, t i ((cancel_starts-Fewer e.group e).still i r), c)

pub start_raises-IsTracked : (e : Entrypoint) (i : ℕ) → IsTracked e → IsTracked (start_raises e i)
unfolding start_raises
start_raises-IsTracked e i t =
    let t₁ = Fewer-IsTracked e (set_start e i raised) (set_start-Fewer e i raised refl) t in
    if_cases IsTracked (not (is_running (e.starts i))) (λ _. t)
      (λ _.
        if_cases IsTracked (contains ident e.group i)
          (λ _. fail_group-IsTracked (set_start e i raised) t₁) (λ _. t₁))
