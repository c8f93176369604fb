-- ===== src/Tests/Runs.antt =====
-- The theorems of the runs and the schedules of tasks at a start with one task.
use trailarr.Prelude.{◌≡◌, refl, List, [], ◌∷◌, Bytes, bytes, ◌==◌, arith}
use trailarr.Prelude.Maps.{GoMap, find}
use trailarr.Prelude.{
  true, false, map, some, ℕ, ◌+◌, ◌*◌, ◌≤◌, ltb, if◌then◌else◌, Bool-cases, inl, inr,
}
use trailarr.Prelude.Int.{ℤ, pos}
use trailarr.Tasks.Schedules.{TaskMeta, Scheduler, state_of, start_background_tasks}
use trailarr.Tasks.Schedules.Deps.{RanBoth}
use trailarr.Tasks.Schedules.Start.{BothRun, Started, start_background_tasks-Started}
use trailarr.Tasks.States.{TaskState, state_at}
use trailarr.Tasks.Runs.{Memory, global_task_states, times_of, force_start}
use trailarr.Tasks.Runs.Steps.{System, here, next, force, force_done, report}
use trailarr.Tasks.Runs.Calm.{IsCalm, Reach-IsCalm}
use trailarr.Tasks.Runs.Overlap.{overlapping, overlapping-lost}

abbrev radarr : Bytes
radarr = bytes "radarr"

abbrev states : GoMap TaskState
states = (radarr, state_at radarr 7) ∷ []

abbrev memory : Memory
memory = record { maps = states ∷ []; current = 0 }

abbrev start : System
start = record { memory = memory; forced = []; scheduled = []; spec = times_of states }

start-IsCalm : IsCalm start
start-IsCalm = record { agrees = λ j. refl; bounded = omega arith; forced = tt }

abbrev forced : System
forced = record start { memory = force_start radarr memory; forced = (radarr, 1) ∷ [] }

abbrev done : System
done = record forced {
  memory = trailarr.Tasks.Runs.force_end radarr 1 (9, 2) forced.memory;
  forced = [];
  spec = report radarr (9, 2) forced.spec;
}

Reach-IsCalm_example : IsCalm done
Reach-IsCalm_example =
    Reach-IsCalm start-IsCalm
      (next (next here (force radarr refl) refl) (force_done radarr 1 (9, 2) [] [] refl refl) tt)

overlapping-lost_example :
    find
      (bytes "sonarr")
      (global_task_states (overlapping radarr (bytes "sonarr") (9, 2) (8, 1) memory))
    ≡ find (bytes "sonarr") (global_task_states memory)
unfolding ◌==◌
overlapping-lost_example = overlapping-lost radarr (bytes "sonarr") (9, 2) (8, 1) memory refl

abbrev extras : Bytes
extras = bytes "extras"

abbrev metas : List TaskMeta
metas =
    record { id = extras; name = bytes "Search for Missing Extras"; runs = true; order = 5 }
    ∷ record { id = radarr; name = bytes "Sync with Radarr"; runs = true; order = 1 }
    ∷ []

abbrev timings : GoMap ℤ
timings = (radarr, pos 1) ∷ (extras, pos 1) ∷ []

-- Both providers have run when the instant 100 comes.
abbrev both_states : GoMap TaskState
both_states = (radarr, state_at radarr 60) ∷ (bytes "sonarr", state_at (bytes "sonarr") 70) ∷ []

abbrev scheduler : Scheduler
scheduler = record {
  tasks_initial_delay = 0;
  tasks_deps_wait_interval = 50;
  global_task_states = λ t. if ltb t 100 then states else both_states;
  clock = λ id. 9;
}

both_states-RanBoth : RanBoth both_states
unfolding find ◌==◌
both_states-RanBoth = (omega arith, omega arith)

scheduler-BothRun : BothRun scheduler
scheduler-BothRun at =
    let late : ltb (at + 2 * 50) 100 ≡ false = ground arith in (2, rw late both_states-RanBoth)

last-past : (id : Bytes) → (state_of states id).last_execution ≤ 9
unfolding find ◌==◌
last-past id = elim (Bool-cases (radarr == id)) [
  | inl y ↦ rw y (omega arith)
  | inr n ↦ rw n (omega arith)
]

-- Radarr ran at 7 and is due every minute; the task of the extras waits for both providers.
start_background_tasks-Started_example :
    (runs : List (Bytes × ℕ)) × (enough : ℕ) × ((polls : ℕ)
      → enough ≤ polls
      → start_background_tasks scheduler polls timings states metas
        ≡ map (λ r. (r.0, some r.1)) runs)
    × Started scheduler timings states metas runs
start_background_tasks-Started_example =
    start_background_tasks-Started scheduler timings states metas refl last-past scheduler-BothRun
