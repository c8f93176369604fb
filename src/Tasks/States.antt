-- ===== src/Tasks/States.antt =====
-- The task states of internal/tasks.go: a Go map in memory, saved as a list of the store. The lock
-- around GlobalTaskStates makes each of its uses atomic. A duration is kept in nanoseconds.
pub mod Saved
pub mod Known
use trailarr.Prelude.{
  ℕ, zero, Bool, true, false, Option, none, some, List, [], ◌∷◌, Bytes, bytes, ◌==◌, if◌then◌else◌,
}
use trailarr.Prelude.Int.{ℤ, pos, negsuc}
use trailarr.Prelude.Maps.{GoMap, find, insert}
use trailarr.Store.Outcome.{Outcome, ok, err}
use trailarr.Store.Spec.{ListStore}
use trailarr.Json.{Codec}

pub record TaskState : Type 0 where
  pub id : Bytes
  pub last_execution : ℕ
  pub last_duration : ℕ
  pub status : Bytes

-- The struct that saveTaskStates stores, without the status.
pub record SavedState : Type 0 where
  pub id : Bytes
  pub last_execution : ℕ
  pub last_duration : ℕ

abbrev pub task_times_store_key : Bytes
task_times_store_key = bytes "trailarr:task_times"

abbrev pub idle : SavedState → TaskState
idle t = record {
  id = t.id;
  last_execution = t.last_execution;
  last_duration = t.last_duration;
  status = bytes "idle";
}

abbrev pub put_state : Option SavedState → GoMap TaskState → GoMap TaskState
put_state none states = states
put_state (some t) states = insert t.id (idle t) states

unfoldable pub parse_states_from_vals :
    Codec SavedState → List Bytes → GoMap TaskState → GoMap TaskState
parse_states_from_vals C [] states = states
parse_states_from_vals C (v ∷ vals) states =
    parse_states_from_vals C vals (put_state (C.unmarshal v) states)

abbrev pub state_at : Bytes → ℕ → TaskState
state_at id last = record { id = id; last_execution = last; last_duration = 0; status = [] }

-- The interval of a task; a missing one is zero.
abbrev has_interval : Option ℤ → Bool
has_interval none = false
has_interval (some (pos zero)) = false
has_interval (some _) = true

-- A task without an interval counts as run now, the others as never run.
unfoldable pub initialize_default_states :
    List Bytes → GoMap ℤ → ℕ → GoMap TaskState → GoMap TaskState
initialize_default_states [] timings now states = states
initialize_default_states (id ∷ ids) timings now states =
    initialize_default_states ids timings now
      (insert id (state_at id (if has_interval (find id timings) then 0 else now)) states)

abbrev pub or_added : Bytes → Option TaskState → GoMap TaskState → GoMap TaskState
or_added id none states = insert id (state_at id 0) states
or_added id (some _) states = states

unfoldable pub ensure_all_tasks_exist : List Bytes → GoMap TaskState → GoMap TaskState
ensure_all_tasks_exist [] states = states
ensure_all_tasks_exist (id ∷ ids) states =
    ensure_all_tasks_exist ids (or_added id (find id states) states)

-- The copies that are saved: a state without an id gets its key.
unfoldable pub saved_states : GoMap TaskState → List SavedState
saved_states [] = []
saved_states ((id, t) ∷ states) =
    record {
      id = if t.id == [] then id else t.id;
      last_execution = t.last_execution;
      last_duration = t.last_duration;
    }
    ∷ saved_states states

module _ (S : ListStore) (C : Codec SavedState) where
  abbrev pub push_saved : S.State → Option Bytes → S.State
  push_saved s none = s
  push_saved s (some b) = (S.rpush s task_times_store_key b).1

  unfoldable pub push_all : S.State → List SavedState → S.State
  push_all s [] = s
  push_all s (t ∷ ts) = push_all (push_saved s (C.marshal t)) ts

  -- saveTaskStates: every error of the store is dropped.
  unfoldable pub save_task_states : S.State → GoMap TaskState → S.State
  unfolding push_all saved_states
  save_task_states s states = push_all (S.del s task_times_store_key).1 (saved_states states)

  abbrev parsed : Outcome (List Bytes) → GoMap TaskState
  parsed (err e) = []
  parsed (ok vals) = parse_states_from_vals C vals []

  abbrev pub or_defaults :
      S.State → List Bytes → GoMap ℤ → ℕ → GoMap TaskState → GoMap TaskState × S.State
  or_defaults s ids timings now (t ∷ states) = (t ∷ states, s)
  or_defaults s ids timings now [] =
      let states = initialize_default_states ids timings now [] in
      (states, save_task_states s states)

  -- LoadTaskStates; `ids` are the keys of tasksMeta. The first part of the result is the new
  -- GlobalTaskStates.
  unfoldable pub load_task_states : S.State → List Bytes → GoMap ℤ → ℕ → GoMap TaskState × S.State
  unfolding parse_states_from_vals initialize_default_states ensure_all_tasks_exist save_task_states
  load_task_states s ids timings now =
      let r =
        or_defaults s ids timings now
          (parsed (S.lrange s task_times_store_key (pos 0) (negsuc 0))) in
      (ensure_all_tasks_exist ids r.0, r.1)
