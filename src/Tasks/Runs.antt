-- ===== src/Tasks/Runs.antt =====
-- How TaskHandler and runTaskAsync of internal/tasks.go keep the states of the tasks. GlobalTaskStates
-- is a reference to a Go map: TaskHandler makes a copy, works on it and makes it the global one, at
-- the start and at the end of a run; runTaskAsync writes to the global map in place. `maps` holds
-- every map that was made, and an address is an index there.
pub mod Steps
pub mod Calm
pub mod Overlap
use trailarr.Prelude.{
  ℕ, ◌≡◌, Option, none, some, List, [], ◌∷◌, ◌++◌, length, get_elem?, set, Bytes, bytes, ◌==◌,
  if◌then◌else◌,
}
use trailarr.Prelude.Maps.{GoMap, find, insert}
use trailarr.Tasks.States.{TaskState}

pub record Memory : Type 0 where
  pub maps : List (GoMap TaskState)
  pub current : ℕ

abbrev pub map_at : List (GoMap TaskState) → ℕ → GoMap TaskState
map_at maps a = elim (get_elem? maps a) [ none ↦ [] | some m ↦ m ]

-- GlobalTaskStates
abbrev pub global_task_states : Memory → GoMap TaskState
global_task_states mem = map_at mem.maps mem.current

-- LastExecution and LastDuration of states[id]; a missing task has the zero values.
unfoldable pub times_of : GoMap TaskState → Bytes → ℕ × ℕ
times_of states id = elim (find id states) [
  | none ↦ (0, 0)
  | some t ↦ (t.last_execution, t.last_duration)
]

abbrev pub running_entry : Bytes → ℕ × ℕ → TaskState
running_entry id times = record {
  id = id;
  last_execution = times.0;
  last_duration = times.1;
  status = bytes "running";
}

abbrev pub finished_entry : Bytes → ℕ × ℕ → TaskState
finished_entry id times = record {
  id = id;
  last_execution = times.0;
  last_duration = times.1;
  status = bytes "idle";
}

-- The task is marked as running and keeps its times.
unfoldable pub running : Bytes → GoMap TaskState → GoMap TaskState
running id states = insert id (running_entry id (times_of states id)) states

unfoldable pub finished : Bytes → ℕ × ℕ → GoMap TaskState → GoMap TaskState
finished id times states = insert id (finished_entry id times) states

-- TaskHandler before `syncFunc()`: the copy is the new global map, at the address `length maps`.
unfoldable pub force_start : Bytes → Memory → Memory
force_start id mem = record {
  maps = mem.maps ++ running id (global_task_states mem) ∷ [];
  current = length mem.maps;
}

-- TaskHandler after `syncFunc()`, on its own map at `a`.
unfoldable pub force_end : Bytes → ℕ → ℕ × ℕ → Memory → Memory
force_end id a times mem = record {
  maps = set mem.maps a (finished id times (map_at mem.maps a));
  current = a;
}

-- runTaskAsync before and after `syncFunc()`.
unfoldable pub async_start : Bytes → Memory → Memory
async_start id mem = record mem {
  maps = set mem.maps mem.current (running id (global_task_states mem));
}

unfoldable pub async_end : Bytes → ℕ × ℕ → Memory → Memory
async_end id times mem = record mem {
  maps = set mem.maps mem.current (finished id times (global_task_states mem));
}
