-- ===== src/Tasks/Runs/Steps.antt =====
-- Runs of tasks as a step relation: forced runs, each with the address of its own map, and runs of the
-- scheduler. `spec` is what the runs that ended have reported, the last report of each task.
use trailarr.Prelude.{ℕ, ◌≡◌, List, [], ◌∷◌, ◌++◌, length, Bytes, ◌==◌, if◌then◌else◌}
use trailarr.Tasks.Runs.{Memory, force_start, force_end, async_start, async_end}

pub record System : Type 0 where
  pub memory : Memory
  pub forced : List (Bytes × ℕ)
  pub scheduled : List Bytes
  pub spec : Bytes → ℕ × ℕ

abbrev pub report : Bytes → ℕ × ℕ → (Bytes → ℕ × ℕ) → Bytes → ℕ × ℕ
report id times spec j = if id == j then times else spec j

pub data Step (s : System) (t : System) : Type 0 where
  force :
      (id : Bytes)
      → t ≡ record s {
        memory = force_start id s.memory;
        forced = (id, length s.memory.maps) ∷ s.forced;
      }
      → Step s t
  force_done :
      (id : Bytes) (a : ℕ) (times : ℕ × ℕ) (before after : List (Bytes × ℕ))
      → s.forced ≡ before ++ (id, a) ∷ after
      → t ≡ record s {
        memory = force_end id a times s.memory;
        forced = before ++ after;
        spec = report id times s.spec;
      }
      → Step s t
  run :
      (id : Bytes)
      → t ≡ record s { memory = async_start id s.memory; scheduled = id ∷ s.scheduled }
      → Step s t
  run_done :
      (id : Bytes) (times : ℕ × ℕ) (before after : List Bytes)
      → s.scheduled ≡ before ++ id ∷ after
      → t ≡ record s {
        memory = async_end id times s.memory;
        scheduled = before ++ after;
        spec = report id times s.spec;
      }
      → Step s t

-- A forced run starts only while no other one is on its way.
abbrev pub StartsAlone : (s t : System) → Step s t → Type 0
StartsAlone s t (force id e) = s.forced ≡ []
StartsAlone s t (force_done id a times before after e f) = Unit
StartsAlone s t (run id e) = Unit
StartsAlone s t (run_done id times before after e f) = Unit

pub data Reach (s : System) : System → Type 0 where
  here : Reach s s
  next : {t u : System} → Reach s t → (st : Step t u) → StartsAlone t u st → Reach s u
