-- ===== src/Tasks/Schedules.antt =====
-- The schedules of internal/tasks.go: what GetAllTasksStatus shows, and when StartBackgroundTasks and
-- scheduleTask start a task. Instants are nanoseconds since the zero time of Go.
pub mod Deps
pub mod Start
use trailarr.Prelude.{
  ℕ, zero, suc, ◌+◌, ◌-◌, ◌*◌, ◌%◌, ◌^◌, min, ltb, eqb, Bool, true, false, ◌&&◌, not, Option, none,
  some, List, [], ◌∷◌, map, Bytes, bytes, ◌==◌, if◌then◌else◌,
}
use trailarr.Prelude.Int.{ℤ, pos, negsuc}
use trailarr.Prelude.Maps.{GoMap, find}
use trailarr.Tasks.States.{TaskState}

-- TaskMeta; `runs` says whether there is a function.
pub record TaskMeta : Type 0 where
  pub id : Bytes
  pub name : Bytes
  pub runs : Bool
  pub order : ℕ

pub record TaskSchedule : Type 0 where
  pub task_id : Bytes
  pub name : Bytes
  pub interval : ℤ
  pub last_execution : ℕ
  pub last_duration : ℕ
  pub next_execution : ℕ
  pub status : Bytes

-- time.Minute
abbrev pub minute : ℕ
minute = 60_000_000_000

-- The int64 that a sum or product of this size wraps to.
unfoldable pub to_int64 : ℕ → ℤ
to_int64 n =
    if ltb (n % 2 ^ 64) (2 ^ 63) then pos (n % 2 ^ 64) else negsuc (2 ^ 64 - n % 2 ^ 64 - 1)

-- time.Duration(interval) * time.Minute, in nanoseconds.
unfoldable pub minutes : ℤ → ℤ
unfolding to_int64
minutes (pos n) = to_int64 (n * minute)
minutes (negsuc n) = to_int64 (2 ^ 64 - (suc n * minute) % 2 ^ 64)

-- t.Add(d), for instants after the zero time.
abbrev pub add : ℕ → ℤ → ℕ
add t (pos n) = t + n
add t (negsuc n) = t - suc n

unfoldable pub calc_next : ℕ → ℕ → ℤ → ℕ
unfolding minutes
calc_next now last_execution interval =
    if eqb last_execution 0
    then add now (minutes interval)
    else add last_execution (minutes interval)

-- A key that is missing has the zero value.
abbrev pub timing : GoMap ℤ → Bytes → ℤ
timing timings id = elim (find id timings) [ none ↦ pos 0 | some n ↦ n ]

abbrev pub state_of : GoMap TaskState → Bytes → TaskState
state_of states id = elim (find id states) [
  | none ↦ record { id = []; last_execution = 0; last_duration = 0; status = [] }
  | some t ↦ t
]

unfoldable pub schedule_of : ℕ → GoMap ℤ → GoMap TaskState → TaskMeta → TaskSchedule
unfolding calc_next
schedule_of now timings states meta =
    let state = state_of states meta.id in
    record {
      task_id = state.id;
      name = meta.name;
      interval = timing timings meta.id;
      last_execution = state.last_execution;
      last_duration = state.last_duration;
      next_execution = calc_next now state.last_execution (timing timings meta.id);
      status = state.status;
    }

-- sort.Slice by the order.
unfoldable pub insert_ordered : TaskMeta → List TaskMeta → List TaskMeta
insert_ordered m [] = m ∷ []
insert_ordered m (n ∷ ns) =
    let rest = insert_ordered m ns in if ltb n.order m.order then n ∷ rest else m ∷ n ∷ ns

unfoldable pub sort_ordered : List TaskMeta → List TaskMeta
unfolding insert_ordered
sort_ordered [] = []
sort_ordered (m ∷ metas) = insert_ordered m (sort_ordered metas)

-- buildSchedules
unfoldable pub build_schedules : ℕ → GoMap ℤ → GoMap TaskState → List TaskMeta → List TaskSchedule
unfolding schedule_of sort_ordered
build_schedules now timings states metas = map (schedule_of now timings states) (sort_ordered metas)

pub record BgTask : Type 0 where
  pub id : Bytes
  pub interval : ℤ
  pub last_exec : ℕ

-- buildBgTasks; the list is the map tasksMeta in the order in which `range` visits it.
unfoldable pub build_bg_tasks : GoMap ℤ → GoMap TaskState → List TaskMeta → List BgTask
unfolding minutes
build_bg_tasks timings states [] = []
build_bg_tasks timings states (m ∷ metas) =
    let rest = build_bg_tasks timings states metas in
    if m.runs
    then record {
      id = m.id;
      interval = minutes (timing timings m.id);
      last_exec = (state_of states m.id).last_execution;
    }
      ∷ rest
    else rest

abbrev pub is_positive : ℤ → Bool
is_positive (pos zero) = false
is_positive (pos (suc n)) = true
is_positive (negsuc n) = false

-- initialDelay of scheduleTask; Sub stops at the largest Duration.
unfoldable pub initial_delay : ℕ → BgTask → ℕ
initial_delay now t =
    let due = add t.last_exec t.interval in if ltb due now then 0 else min (due - now) (2 ^ 63 - 1)

-- The test of scheduleTask for "extras".
unfoldable pub extras_may_start : GoMap TaskState → Bool
extras_may_start states =
    not (eqb (state_of states (bytes "radarr")).last_execution 0)
    && not (eqb (state_of states (bytes "sonarr")).last_execution 0)

-- TasksInitialDelay, TasksDepsWaitInterval, GlobalTaskStates at each instant, and the instant at which
-- the goroutine of a task reads the clock.
pub record Scheduler : Type 0 where
  pub tasks_initial_delay : ℕ
  pub tasks_deps_wait_interval : ℕ
  pub global_task_states : ℕ → GoMap TaskState
  pub clock : Bytes → ℕ

module _ (E : Scheduler) where
  -- The wait of "extras" from the instant `at`, for at most `polls` sleeps: none if it still waits.
  unfoldable pub wait_for_deps : ℕ → ℕ → Option ℕ
  unfolding extras_may_start
  wait_for_deps zero at = if extras_may_start (E.global_task_states at) then some at else none
  wait_for_deps (suc polls) at =
      let rest = wait_for_deps polls (at + E.tasks_deps_wait_interval) in
      if extras_may_start (E.global_task_states at) then some at else rest

  -- The end of the first sleep of scheduleTask.
  unfoldable pub first_sleep_end : BgTask → ℕ
  unfolding initial_delay
  first_sleep_end t =
      E.clock t.id
      + (if ltb 0 E.tasks_initial_delay
          then E.tasks_initial_delay
          else initial_delay (E.clock t.id) t)

  -- scheduleTask up to its first run.
  unfoldable pub schedule_task : ℕ → BgTask → Option ℕ
  unfolding wait_for_deps first_sleep_end
  schedule_task polls t =
      if t.id == bytes "extras"
      then wait_for_deps polls (first_sleep_end t)
      else some (first_sleep_end t)

  -- The loop of StartBackgroundTasks: the tasks with a goroutine, and the instants of their first runs.
  unfoldable pub started_tasks : ℕ → List BgTask → List (Bytes × Option ℕ)
  unfolding schedule_task
  started_tasks polls [] = []
  started_tasks polls (t ∷ tasks) =
      let rest = started_tasks polls tasks in
      if is_positive t.interval then (t.id, schedule_task polls t) ∷ rest else rest

  unfoldable pub start_background_tasks :
      ℕ → GoMap ℤ → GoMap TaskState → List TaskMeta → List (Bytes × Option ℕ)
  unfolding started_tasks build_bg_tasks
  start_background_tasks polls timings states metas =
      started_tasks polls (build_bg_tasks timings states metas)
