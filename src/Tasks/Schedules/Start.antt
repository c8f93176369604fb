-- ===== src/Tasks/Schedules/Start.antt =====
-- When a task first runs, against the next execution that its schedule shows: scheduleTask and
-- calcNext of internal/tasks.go.
use trailarr.Prelude.{
  ℕ, zero, suc, ◌+◌, ◌-◌, ◌%◌, ◌^◌, ◌≤◌, ◌<◌, ◌≡◌, ◌≢◌, refl, ap, subst, ◌∙◌, true, false, min, ltb,
  eqb, Option, some, List, [], ◌∷◌, map, Bytes, bytes, ◌==◌, ==_iff, arith, Bool-cases, inl, inr,
  ◌⊎◌, if◌then◌else◌,
}
use trailarr.Prelude.Int.{ℤ, pos, negsuc}
use trailarr.Prelude.Maps.{GoMap}
use trailarr.Tasks.States.{TaskState}
use trailarr.Tasks.Schedules.{
  TaskMeta, TaskSchedule, BgTask, Scheduler, to_int64, minutes, add, calc_next, timing, state_of,
  schedule_of, build_bg_tasks, is_positive, initial_delay, first_sleep_end, schedule_task,
  started_tasks, start_background_tasks,
}
use trailarr.Tasks.Schedules.Deps.{RanBoth, poll, FirstPoll, wait_for_deps-FirstPoll}

-- The later of two instants.
abbrev pub later : ℕ → ℕ → ℕ
later a b = if ltb a b then b else a

-- The next execution that is shown, or `now` if that is past; for a task that never ran, the instant
-- its interval after the zero time in its place.
abbrev pub start_of : ℕ → TaskSchedule → ℕ
start_of now schedule =
    if eqb schedule.last_execution 0
    then later now (add 0 (minutes schedule.interval))
    else later now schedule.next_execution

abbrev pub IsPositive : ℤ → Type 0
IsPositive d = (n : ℕ) × (d ≡ pos (suc n))

positive : (d : ℤ) → is_positive d ≡ true → IsPositive d
positive (pos zero) h = let no : ⊥ = cc h in absurd no
positive (pos (suc n)) h = (n, refl)
positive (negsuc n) h = let no : ⊥ = cc h in absurd no

not-IsPositive : (d : ℤ) → is_positive d ≡ false → ¬ IsPositive d
not-IsPositive d h (n, e) = let no : ⊥ = cc (ap is_positive e, h) in no

to_int64-bound : (m n : ℕ) → to_int64 m ≡ pos n → n < 2 ^ 63
unfolding to_int64
to_int64-bound m n e = elim (Bool-cases (ltb (m % 2 ^ 64) (2 ^ 63))) [
  | inl y ↦
      let same : m % 2 ^ 64 ≡ n = cc (rw y at e) in
      let small : m % 2 ^ 64 < 2 ^ 63 = ground (arith, y) in subst (λ x. x < 2 ^ 63) same small
  | inr y ↦ let no : ⊥ = cc (rw y at e) in absurd no
]

minutes-bound : (i : ℤ) (n : ℕ) → minutes i ≡ pos n → n < 2 ^ 63
unfolding minutes
minutes-bound (pos k) n e = to_int64-bound _ n e
minutes-bound (negsuc k) n e = to_int64-bound _ n e

delay-later :
    (now last n : ℕ)
    → last ≤ now
    → n < 2 ^ 63
    → now + (if ltb (last + n) now then 0 else min (last + n - now) (2 ^ 63 - 1))
      ≡ later now (last + n)
delay-later now last n l b = ground (arith, l, b)

abbrev bg_task : GoMap ℤ → GoMap TaskState → TaskMeta → BgTask
bg_task timings states m = record {
  id = m.id;
  interval = minutes (timing timings m.id);
  last_exec = (state_of states m.id).last_execution;
}

starts :
    (now : ℕ) (timings : GoMap ℤ) (states : GoMap TaskState) (m : TaskMeta) (n : ℕ)
    → minutes (timing timings m.id) ≡ pos (suc n)
    → (state_of states m.id).last_execution ≤ now
    → now + initial_delay now (bg_task timings states m)
      ≡ start_of now (schedule_of now timings states m)
unfolding initial_delay schedule_of calc_next
starts now timings states m n e l =
    let last = (state_of states m.id).last_execution in
    let delay = delay-later now last (suc n) l (minutes-bound (timing timings m.id) (suc n) e) in
    rw (initial_delay, e)
      (delay ∙ elim (Bool-cases (eqb last 0)) [
        | inl y ↦
            let z : last ≡ 0 = ground (arith, y) in
            rw (schedule_of, calc_next, y) (ap (λ t. later now (t + suc n)) z)
        | inr y ↦ rw (schedule_of, calc_next, y) refl
      ])

module _ (E : Scheduler) where
  -- "extras" waits for both providers from the instant `at`; every other task runs at `at`.
  pub data FirstRun (id : Bytes) (at : ℕ) : ℕ → Type 0 where
    without_wait : id ≢ bytes "extras" → FirstRun id at at
    after_both : {run : ℕ} → id ≡ bytes "extras" → FirstPoll E at run → FirstRun id at run

  -- From whatever instant, both providers have run at some poll.
  abbrev pub BothRun : Type 0
  BothRun = (at : ℕ) → (k : ℕ) × RanBoth (E.global_task_states (poll E at k))

  first_run :
      (timings : GoMap ℤ) (states : GoMap TaskState) (m : TaskMeta) (n : ℕ)
      → minutes (timing timings m.id) ≡ pos (suc n)
      → E.tasks_initial_delay ≡ 0
      → (state_of states m.id).last_execution ≤ E.clock m.id
      → BothRun
      → (run : ℕ) × (enough : ℕ) × ((polls : ℕ)
          → enough ≤ polls
          → schedule_task E polls (bg_task timings states m) ≡ some run)
        × FirstRun m.id (start_of (E.clock m.id) (schedule_of (E.clock m.id) timings states m)) run
  unfolding schedule_task first_sleep_end
  first_run timings states m n e none_set l both =
      let at = start_of (E.clock m.id) (schedule_of (E.clock m.id) timings states m) in
      let ends : first_sleep_end E (bg_task timings states m) ≡ at =
        rw (first_sleep_end, none_set) (starts (E.clock m.id) timings states m n e l) in
      elim (Bool-cases (m.id == bytes "extras")) [
        | inr o ↦
            let other : m.id ≢ bytes "extras" =
              λ s. let no : ⊥ = cc ((==_iff m.id (bytes "extras")).1 s, o) in no in
            (at, 0, (λ polls k. rw (schedule_task, o) (ap some ends)), without_wait other)
        | inl y ↦
            let (k, r) = both at in
            let (run, f, waited) = wait_for_deps-FirstPoll E k at r in
            (
              run,
              k,
              (λ polls b. rw (schedule_task, y, ends) (waited polls b)),
              after_both ((==_iff m.id (bytes "extras")).0 y) f,
            )
      ]

  -- The tasks that are started and the instants of their first runs: those with a function and a
  -- positive interval.
  pub data Started (timings : GoMap ℤ) (states : GoMap TaskState)
      : List TaskMeta → List (Bytes × ℕ) → Type 0 where
    no_task : Started timings states [] []
    left_out :
        {m : TaskMeta} {metas : List TaskMeta} {runs : List (Bytes × ℕ)}
        → (m.runs ≡ false) ⊎ (¬ IsPositive (minutes (timing timings m.id)))
        → Started timings states metas runs
        → Started timings states (m ∷ metas) runs
    is_started :
        {m : TaskMeta} {metas : List TaskMeta} {runs : List (Bytes × ℕ)} {run : ℕ}
        → m.runs ≡ true
        → IsPositive (minutes (timing timings m.id))
        → FirstRun m.id (start_of (E.clock m.id) (schedule_of (E.clock m.id) timings states m)) run
        → Started timings states metas runs
        → Started timings states (m ∷ metas) ((m.id, run) ∷ runs)

  abbrev with_some : List (Bytes × ℕ) → List (Bytes × Option ℕ)
  with_some runs = map (λ r. (r.0, some r.1)) runs

  one_started :
      (timings : GoMap ℤ) (states : GoMap TaskState) (m : TaskMeta) (metas : List TaskMeta)
      (polls run : ℕ) (runs : List (Bytes × ℕ))
      → m.runs ≡ true
      → is_positive (minutes (timing timings m.id)) ≡ true
      → schedule_task E polls (bg_task timings states m) ≡ some run
      → start_background_tasks E polls timings states metas ≡ with_some runs
      → start_background_tasks E polls timings states (m ∷ metas)
        ≡ (m.id, some run) ∷ with_some runs
  unfolding start_background_tasks started_tasks build_bg_tasks
  one_started timings states m metas polls run runs y p e same =
      rw (y, p) (λ i. (m.id, e i) ∷ same i)

  -- If TasksInitialDelay is 0, no task ran after the instant at which its goroutine reads the
  -- clock, and radarr and sonarr have run at some poll: in the order of the range over tasksMeta,
  -- the tasks with a function and an interval that is positive as a Duration are started. Each
  -- first runs at the next execution that its schedule shows, or at once if that is past; for one
  -- that never ran, the instant its interval after the zero time takes that place. Only the extras
  -- then wait for the first poll at which both providers have run.
  pub start_background_tasks-Started :
      (timings : GoMap ℤ) (states : GoMap TaskState) (metas : List TaskMeta)
      → E.tasks_initial_delay ≡ 0
      → ((id : Bytes) → (state_of states id).last_execution ≤ E.clock id)
      → BothRun
      → (runs : List (Bytes × ℕ)) × (enough : ℕ) × ((polls : ℕ)
          → enough ≤ polls
          → start_background_tasks E polls timings states metas ≡ with_some runs)
        × Started timings states metas runs
  unfolding start_background_tasks started_tasks build_bg_tasks
  start_background_tasks-Started timings states [] z past both = ([], 0, (λ polls l. refl), no_task)
  start_background_tasks-Started timings states (m ∷ metas) z past both =
      let (runs, enough, same, s) =
        start_background_tasks-Started timings states metas z past both in
      elim (Bool-cases m.runs) [
        | inr n ↦ (runs, enough, (λ polls l. rw n (same polls l)), left_out (inl n) s)
        | inl y ↦ elim (Bool-cases (is_positive (minutes (timing timings m.id)))) [
          | inr n ↦ (
            runs,
            enough,
            (λ polls l. rw (y, n) (same polls l)),
            left_out (inr (not-IsPositive (minutes (timing timings m.id)) n)) s,
          )
          | inl p ↦
              let (n, e) = positive (minutes (timing timings m.id)) p in
              let (run, k, at, f) = first_run timings states m n e z (past m.id) both in
              (
                (m.id, run) ∷ runs,
                k + enough,
                (λ polls l.
                    one_started timings states m metas polls run runs y p
                      (at polls (omega (arith, l))) (same polls (omega (arith, l)))),
                is_started y (n, e) f s,
              )
        ]
      ]
