-- ===== src/Tests/Recurring.antt =====
-- Runs of aiomisc/recurring.py and aiomisc/periodic.py; exceptions are numbers here.
use aiomisc.Base.{ℕ, ◌≡◌, false, List, [], ◌∷◌, nat_eq, list_eq, pair_eq, refl, true}
use aiomisc.Recurring.{returned, raised, State, start, Run, periodic_ticks}
use aiomisc.Base.Sets.{contains, discard}
use aiomisc.Recurring.Lifecycle.{
  ident, new_periodic, start_periodic, stop_periodic, finish_task, clean_task, Event, starts, stops,
  ends, cleans, run, AllRested, run-AllCancelled,
}
use aiomisc.Recurring.Starts.{starts_from, periodic-starts}

abbrev state : State
state = record {
  clock = 0;
  statistic = record { call_count = 0; done = 0; fail = 0; sum_time = 0 };
  logged = 0;
  starts = [];
}

abbrev runs : List (Run ℕ)
runs =
    record { duration = 2; outcome = returned }
    ∷ record { duration = 30; outcome = raised 1 }
    ∷ record { duration = 1; outcome = returned }
    ∷ []

periodic-starts_example :
    (start (λ x. false) (periodic_ticks 4 10 false runs) state).1.starts ≡ 4 ∷ 16 ∷ 56 ∷ []
unfolding starts_from
periodic-starts_example = periodic-starts (λ x. false) 4 10 runs state

-- Started, stopped, and started again when the first task was gone.
abbrev restarted : List Event
restarted = starts ∷ stops ∷ ends 0 ∷ cleans 0 ∷ starts ∷ []

is_rested : AllRested new_periodic restarted
unfolding new_periodic start_periodic stop_periodic finish_task clean_task contains discard
is_rested = ((refl, refl), (tt, (tt, (tt, ((refl, refl), tt)))))

is_live : contains ident (stop_periodic (run new_periodic restarted)).live 1 ≡ true
unfolding run new_periodic start_periodic stop_periodic finish_task clean_task contains discard
is_live = refl

run-AllCancelled_example :
    contains ident (stop_periodic (run new_periodic restarted)).cancelled 1 ≡ true
run-AllCancelled_example = run-AllCancelled restarted 1 is_rested is_live

-- Started again at once: the callback of the first task makes the second unknown, and `stop` does not
-- cancel it.
lost :
    (stop_periodic (run new_periodic (starts ∷ stops ∷ starts ∷ ends 0 ∷ cleans 0 ∷ []))).cancelled
    ≡ 0 ∷ []
unfolding run new_periodic start_periodic stop_periodic finish_task clean_task contains discard
lost = refl
