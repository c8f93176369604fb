-- ===== src/Tasks/Schedules/Deps.antt =====
-- The wait of the task "extras" for both providers, in scheduleTask of internal/tasks.go.
use trailarr.Prelude.{
  ℕ, zero, suc, ◌+◌, ◌*◌, ◌≤◌, ◌<◌, ◌≡◌, ◌≢◌, refl, sym, subst, true, false, some, bytes, arith,
  Bool-cases, inl, inr,
}
use trailarr.Prelude.Maps.{GoMap}
use trailarr.Tasks.States.{TaskState}
use trailarr.Tasks.Schedules.{Scheduler, state_of, extras_may_start, wait_for_deps}

-- Both providers have run.
abbrev pub RanBoth : GoMap TaskState → Type 0
RanBoth states =
    ((state_of states (bytes "radarr")).last_execution ≢ 0)
    × ((state_of states (bytes "sonarr")).last_execution ≢ 0)

may_start-RanBoth : (states : GoMap TaskState) → extras_may_start states ≡ true → RanBoth states
unfolding extras_may_start
may_start-RanBoth states h = (ground (arith, h), ground (arith, h))

RanBoth-may_start : (states : GoMap TaskState) → RanBoth states → extras_may_start states ≡ true
unfolding extras_may_start
RanBoth-may_start states (r, s) = ground (arith, r, s)

module _ (E : Scheduler) where
  -- The poll number `k` of a wait from `at`.
  abbrev pub poll : ℕ → ℕ → ℕ
  poll at k = at + k * E.tasks_deps_wait_interval

  -- The first poll at which both have run.
  pub record FirstPoll (at run : ℕ) : Type 0 where
    pub number : ℕ
    pub instant : run ≡ poll at number
    pub ran : RanBoth (E.global_task_states run)
    pub not_before : (i : ℕ) → i < number → ¬ RanBoth (E.global_task_states (poll at i))

  next_poll : (at i : ℕ) → poll (at + E.tasks_deps_wait_interval) i ≡ poll at (suc i)
  next_poll at i = omega arith

  later :
      (at run : ℕ)
      → ¬ RanBoth (E.global_task_states at)
      → FirstPoll (at + E.tasks_deps_wait_interval) run
      → FirstPoll at run
  later at run n f = record {
    number = suc f.number;
    instant = subst (λ x. run ≡ x) (next_poll at f.number) f.instant;
    ran = f.ran;
    not_before = before;
  }
    where
      before : (i : ℕ) → i < suc f.number → ¬ RanBoth (E.global_task_states (poll at i))
      before zero l =
          subst (λ x. ¬ RanBoth (E.global_task_states x))
            (let z : at ≡ poll at 0 = omega arith in z) n
      before (suc i) l =
          subst (λ x. ¬ RanBoth (E.global_task_states x)) (next_poll at i)
            (f.not_before i (omega (arith, l)))

  at_once :
      (polls at : ℕ)
      → extras_may_start (E.global_task_states at) ≡ true
      → wait_for_deps E polls at ≡ some at
  unfolding wait_for_deps
  at_once zero at h = rw h refl
  at_once (suc polls) at h = rw h refl

  one-sleep :
      (run k at : ℕ)
      → extras_may_start (E.global_task_states at) ≡ false
      → ((polls : ℕ)
          → k ≤ polls
          → wait_for_deps E polls (at + E.tasks_deps_wait_interval) ≡ some run)
      → (polls : ℕ) → suc k ≤ polls
      → wait_for_deps E polls at ≡ some run
  unfolding wait_for_deps
  one-sleep run k at h ends zero l = absurd (omega (arith, l))
  one-sleep run k at h ends (suc n) l = rw h (ends n (omega (arith, l)))

  -- The wait ends at the first poll at which both have run, if `k` sleeps are allowed.
  abbrev pub EndsBy : ℕ → ℕ → Type 0
  EndsBy k at =
      (run : ℕ) × FirstPoll at run × ((polls : ℕ) → k ≤ polls → wait_for_deps E polls at ≡ some run)

  ends_at_once : (k at : ℕ) → extras_may_start (E.global_task_states at) ≡ true → EndsBy k at
  ends_at_once k at y = (
    at,
    record {
      number = 0;
      instant = omega arith;
      ran = may_start-RanBoth (E.global_task_states at) y;
      not_before = λ i l. absurd (omega (arith, l));
    },
    λ polls l. at_once polls at y,
  )

  ends_later :
      (k at : ℕ)
      → extras_may_start (E.global_task_states at) ≡ false
      → EndsBy k (at + E.tasks_deps_wait_interval)
      → EndsBy (suc k) at
  ends_later k at n (run, f, ends) =
      let not_yet : ¬ RanBoth (E.global_task_states at) =
        λ b. let no : ⊥ = cc (RanBoth-may_start (E.global_task_states at) b, n) in no in
      (run, later at run not_yet f, λ polls l. one-sleep run k at n ends polls l)

  pub wait_for_deps-FirstPoll :
      (k at : ℕ) → RanBoth (E.global_task_states (poll at k)) → EndsBy k at
  wait_for_deps-FirstPoll zero at r =
      let z : poll at 0 ≡ at = omega arith in
      ends_at_once 0 at (
        RanBoth-may_start (E.global_task_states at)
          (subst (λ x. RanBoth (E.global_task_states x)) z r))
  wait_for_deps-FirstPoll (suc k) at r =
      let moved = subst (λ x. RanBoth (E.global_task_states x)) (sym (next_poll at k)) r in
      let rest = wait_for_deps-FirstPoll k (at + E.tasks_deps_wait_interval) moved in
      elim (Bool-cases (extras_may_start (E.global_task_states at))) [
        | inl y ↦ ends_at_once (suc k) at y
        | inr n ↦ ends_later k at n rest
      ]
