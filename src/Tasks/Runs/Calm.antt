-- ===== src/Tasks/Runs/Calm.antt =====
-- Forced runs one at a time, among any runs of the scheduler.
use trailarr.Prelude.{
  ℕ, ◌<◌, ◌≡◌, refl, ap, subst, ◌∙◌, List, [], ◌∷◌, ◌++◌, length, get_elem?-set_self,
  get_elem?-append_last, length-set, length-append, set, Bytes, ◌==◌, ==_iff, arith, if◌then◌else◌,
  Bool-cases, inl, inr,
}
use trailarr.Prelude.Maps.{GoMap, insert, find-insert}
use trailarr.Tasks.States.{TaskState}
use trailarr.Tasks.Runs.{
  Memory, map_at, global_task_states, times_of, running_entry, finished_entry, running, finished,
  force_start, force_end, async_start, async_end,
}
use trailarr.Tasks.Runs.Steps.{
  System, report, Step, force, force_done, run, run_done, StartsAlone, Reach, here, next,
}

times_of-insert :
    (id j : Bytes) (t : TaskState) (m : GoMap TaskState)
    → times_of (insert id t m) j
      ≡ (if id == j then (t.last_execution, t.last_duration) else times_of m j)
unfolding times_of
times_of-insert id j t m = ground (arith, find-insert id j t m)

pub times_of-running :
    (id j : Bytes) (m : GoMap TaskState) → times_of (running id m) j ≡ times_of m j
unfolding running
times_of-running id j m =
    times_of-insert id j (running_entry id (times_of m id)) m ∙ elim (Bool-cases (id == j)) [
      | inl y ↦ rw y (ap (times_of m) ((==_iff id j).0 y))
      | inr n ↦ rw n refl
    ]

pub times_of-finished :
    (id j : Bytes) (times : ℕ × ℕ) (m : GoMap TaskState)
    → times_of (finished id times m) j ≡ (if id == j then times else times_of m j)
unfolding finished
times_of-finished id j times m = times_of-insert id j (finished_entry id times) m

-- Every forced run works on the global map.
abbrev OnGlobal : ℕ → List (Bytes × ℕ) → Type 0
OnGlobal a [] = Unit
OnGlobal a (f ∷ fs) = (f.1 ≡ a) × OnGlobal a fs

OnGlobal-rest :
    (a : ℕ) (before after : List (Bytes × ℕ)) (id : Bytes) (b : ℕ)
    → OnGlobal a (before ++ (id, b) ∷ after)
    → (b ≡ a) × OnGlobal a (before ++ after)
OnGlobal-rest a [] after id b h = h
OnGlobal-rest a (f ∷ before) after id b h =
    let (e, r) = OnGlobal-rest a before after id b h.1 in (e, (h.0, r))

-- The global map has the last report of every task.
pub record IsCalm (s : System) : Type 0 where
  pub agrees : (j : Bytes) → times_of (global_task_states s.memory) j ≡ s.spec j
  pub bounded : s.memory.current < length s.memory.maps
  pub forced : OnGlobal s.memory.current s.forced

map_at-set :
    (maps : List (GoMap TaskState)) (a : ℕ) (m : GoMap TaskState)
    → a < length maps
    → map_at (set maps a m) a ≡ m
map_at-set maps a m h = rw (map_at, get_elem?-set_self maps a m h) refl

map_at-append_last :
    (maps : List (GoMap TaskState)) (m : GoMap TaskState)
    → map_at (maps ++ m ∷ []) (length maps) ≡ m
map_at-append_last maps m = rw (map_at, get_elem?-append_last maps m) refl

-- A write to a map that is there.
in_place :
    (mem : Memory) (m : GoMap TaskState)
    → mem.current < length mem.maps
    → (map_at (set mem.maps mem.current m) mem.current ≡ m)
      × (mem.current < length (set mem.maps mem.current m))
in_place mem m h =
    (map_at-set mem.maps mem.current m h, omega (arith, length-set mem.maps mem.current m))

reported :
    (s : System) (j id : Bytes) (times : ℕ × ℕ) {m : GoMap TaskState}
    → m ≡ finished id times (global_task_states s.memory)
    → times_of (global_task_states s.memory) j ≡ s.spec j
    → times_of m j ≡ report id times s.spec j
reported s j id times w a =
    ap (λ m. times_of m j) w
    ∙ times_of-finished id j times (global_task_states s.memory)
    ∙ ap (λ o. if id == j then times else o) a

Step-IsCalm : (s t : System) (st : Step s t) → StartsAlone s t st → IsCalm s → IsCalm t
unfolding force_start force_end async_start async_end
Step-IsCalm s t (force id e) alone c = rw e (record {
  agrees = λ j.
      ap (λ m. times_of m j)
        (map_at-append_last s.memory.maps (running id (global_task_states s.memory)))
      ∙ times_of-running id j (global_task_states s.memory)
      ∙ c.agrees j;
  bounded =
      omega (arith, length-append s.memory.maps (running id (global_task_states s.memory) ∷ []));
  forced = rw alone (refl, tt);
})
Step-IsCalm s t (force_done id a times before after f e) alone c =
    let (same, rest) =
      OnGlobal-rest s.memory.current before after id a
        (subst (OnGlobal s.memory.current) f c.forced) in
    let (w, b) = in_place s.memory (finished id times (global_task_states s.memory)) c.bounded in
    rw (e, same)
      (record { agrees = λ j. reported s j id times w (c.agrees j); bounded = b; forced = rest })
Step-IsCalm s t (run id e) alone c =
    let (w, b) = in_place s.memory (running id (global_task_states s.memory)) c.bounded in
    rw e (record {
      agrees = λ j.
          ap (λ m. times_of m j) w
          ∙ times_of-running id j (global_task_states s.memory)
          ∙ c.agrees j;
      bounded = b;
      forced = c.forced;
    })
Step-IsCalm s t (run_done id times before after f e) alone c =
    let (w, b) = in_place s.memory (finished id times (global_task_states s.memory)) c.bounded in
    rw e (record {
      agrees = λ j. reported s j id times w (c.agrees j);
      bounded = b;
      forced = c.forced;
    })

-- If the global map has the last report of every task at the start, and forced runs start only
-- while no other forced run is on its way, it has it in every state that forced runs and runs of
-- the scheduler reach.
pub Reach-IsCalm : {s t : System} → IsCalm s → Reach s t → IsCalm t
Reach-IsCalm c here = c
Reach-IsCalm c (next {t} {u} r st alone) = Step-IsCalm t u st alone (Reach-IsCalm c r)
