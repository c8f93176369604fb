-- ===== src/Tasks/Runs/Overlap.antt =====
-- Two forced runs that overlap: the report of the one that ends first.
use trailarr.Prelude.{
  ℕ, ◌≡◌, refl, ap, ◌∙◌, false, some, List, [], ◌∷◌, ◌++◌, length, get_elem?, get_elem?-set_self,
  get_elem?-set_other, get_elem?-append_left, get_elem?-append_last, get_elem?-length,
  length-append, set, Bytes, ◌==◌, arith,
}
use trailarr.Prelude.Maps.{GoMap, find, find-insert}
use trailarr.Tasks.States.{TaskState}
use trailarr.Tasks.Runs.{
  Memory, map_at, global_task_states, times_of, running_entry, finished_entry, running, finished,
  force_start, force_end,
}

-- The run of `i` starts, then that of `j` starts and ends, then that of `i` ends.
abbrev pub overlapping : Bytes → Bytes → ℕ × ℕ → ℕ × ℕ → Memory → Memory
overlapping i j times_i times_j mem =
    let first = force_start i mem in
    let second = force_start j first in
    force_end i (length mem.maps) times_i (force_end j (length first.maps) times_j second)

-- The map at `length maps` after a second map was added and written.
own_map {ℓ} :
    {A : Type ℓ} (maps : List A) (x y z : A)
    → get_elem? (set ((maps ++ x ∷ []) ++ y ∷ []) (length (maps ++ x ∷ [])) z) (length maps)
      ≡ some x
own_map maps x y z =
    let a = length maps in
    let b = length (maps ++ x ∷ []) in
    get_elem?-set_other ((maps ++ x ∷ []) ++ y ∷ []) b a z
      (omega (arith, length-append maps (x ∷ [])))
    ∙ get_elem?-append_left (maps ++ x ∷ []) (y ∷ []) a (omega (arith, length-append maps (x ∷ [])))
    ∙ get_elem?-append_last maps x

kept :
    (i j : Bytes) (times : ℕ × ℕ) (maps : List (GoMap TaskState)) (m : GoMap TaskState) (a : ℕ)
    → (i == j) ≡ false
    → get_elem? maps a ≡ some (running i m)
    → find j (map_at (set maps a (finished i times (map_at maps a))) a) ≡ find j m
unfolding running finished
kept i j times maps m a h e =
    let r = running i m in
    let there : map_at maps a ≡ r = rw (map_at, e) refl in
    ap (find j) (
      rw
        (
          map_at,
          get_elem?-set_self maps a (finished i times (map_at maps a))
              (get_elem?-length maps a r e),
        )
        refl)
    ∙ find-insert i j (finished_entry i times) (map_at maps a)
    ∙ rw (h, there) (find-insert i j (running_entry i (times_of m i)) m ∙ rw h refl)

-- If a forced run of a second task starts and ends while a forced run of another one is on its
-- way, then after the first one ended the global map has for the second task what it had before
-- both: its report is lost.
pub overlapping-lost :
    (i j : Bytes) (times_i times_j : ℕ × ℕ) (mem : Memory)
    → (i == j) ≡ false
    → find j (global_task_states (overlapping i j times_i times_j mem))
      ≡ find j (global_task_states mem)
unfolding force_start force_end
overlapping-lost i j times_i times_j mem h =
    let m = global_task_states mem in
    let first = force_start i mem in
    let second = force_start j first in
    let b = length first.maps in
    let z = finished j times_j (map_at second.maps b) in
    kept i j times_i (set second.maps b z) m (length mem.maps) h
      (own_map mem.maps (running i m) (running j (global_task_states first)) z)
