-- ===== src/Tasks/Queue/Report.antt =====
-- What the two readers of the queue answer: the 100 runs that were queued last.
use trailarr.Prelude.{
  ℕ, zero, suc, ◌≤◌, ◌≡◌, refl, ap, sym, subst, List, [], ◌∷◌, ◌++◌, map, length, length-take, take,
  drop, arith, ltb, inl, inr, Bool-cases,
}
use mathlib.Core.List.{Perm}
use mathlib.Core.List.Perm
use trailarr.Store.Outcome.{ok}
use trailarr.Store.Spec.{ListStore, IsListStore}
use trailarr.Store.Log.{read_all}
use trailarr.Json.{Codec, Holds, decode_all-Holds}
use trailarr.Tasks.Queue.{
  SyncQueueItem, TaskStatus, task_status, task_queue_store_key, insert_queued,
  sort_task_queues_by_queued_desc, task_queue_handler, build_task_queues,
}

abbrev pub IsAbove : ℕ → List TaskStatus → Type 0
IsAbove n [] = Unit {0}
IsAbove n (t ∷ ts) = (t.queued ≤ n) × IsAbove n ts

abbrev pub IsNewestFirst : List TaskStatus → Type 0
IsNewestFirst [] = Unit {0}
IsNewestFirst (t ∷ ts) = IsAbove t.queued ts × IsNewestFirst ts

IsAbove-trans : (n m : ℕ) (ts : List TaskStatus) → m ≤ n → IsAbove m ts → IsAbove n ts
IsAbove-trans n m [] l h = tt
IsAbove-trans n m (t ∷ ts) l (a, b) = (omega arith, IsAbove-trans n m ts l b)

insert_queued-IsAbove :
    (n : ℕ) (t : TaskStatus) (us : List TaskStatus)
    → t.queued ≤ n
    → IsAbove n us
    → IsAbove n (insert_queued t us)
unfolding insert_queued
insert_queued-IsAbove n t [] l h = (l, tt)
insert_queued-IsAbove n t (u ∷ us) l (a, b) = elim (Bool-cases (ltb t.queued u.queued)) [
  | inl e ↦ rw e (a, insert_queued-IsAbove n t us l b)
  | inr e ↦ rw e (l, (a, b))
]

insert_queued-IsNewestFirst :
    (t : TaskStatus) (us : List TaskStatus) → IsNewestFirst us → IsNewestFirst (insert_queued t us)
unfolding insert_queued
insert_queued-IsNewestFirst t [] h = (tt, tt)
insert_queued-IsNewestFirst t (u ∷ us) (a, b) = elim (Bool-cases (ltb t.queued u.queued)) [
  | inl e ↦
      rw e
        (insert_queued-IsAbove u.queued t us (ground arith) a, insert_queued-IsNewestFirst t us b)
  | inr e ↦
      let l : u.queued ≤ t.queued = ground arith in
      rw e ((l, IsAbove-trans t.queued u.queued us l a), (a, b))
]

insert_queued-Perm : (t : TaskStatus) (us : List TaskStatus) → Perm (insert_queued t us) (t ∷ us)
unfolding insert_queued
insert_queued-Perm t [] = Perm.refl (t ∷ [])
insert_queued-Perm t (u ∷ us) = elim (Bool-cases (ltb t.queued u.queued)) [
  | inl e ↦ rw e (Perm.trans (Perm.cons u (insert_queued-Perm t us)) (Perm.swap t u us))
  | inr e ↦ rw e (Perm.refl (t ∷ u ∷ us))
]

pub sort-IsNewestFirst : (ts : List TaskStatus) → IsNewestFirst (sort_task_queues_by_queued_desc ts)
unfolding sort_task_queues_by_queued_desc
sort-IsNewestFirst [] = tt
sort-IsNewestFirst (t ∷ ts) =
    insert_queued-IsNewestFirst t (sort_task_queues_by_queued_desc ts) (sort-IsNewestFirst ts)

pub sort-Perm : (ts : List TaskStatus) → Perm (sort_task_queues_by_queued_desc ts) ts
unfolding sort_task_queues_by_queued_desc
sort-Perm [] = Perm.refl []
sort-Perm (t ∷ ts) =
    Perm.trans (insert_queued-Perm t (sort_task_queues_by_queued_desc ts))
      (Perm.cons t (sort-Perm ts))

take-drop : (n : ℕ) (ts : List TaskStatus) → take n ts ++ drop n ts ≡ ts
take-drop zero ts = refl
take-drop (suc n) [] = refl
take-drop (suc n) (t ∷ ts) = ap (◌∷◌ t) (take-drop n ts)

-- `shown` holds at most 100 of the runs `all`, the newest first; what it leaves out, `older`, comes
-- after it in that order.
pub record ShowsNewest (all shown : List TaskStatus) : Type 0 where
  pub older : List TaskStatus
  pub sorted : IsNewestFirst (shown ++ older)
  pub perm : Perm (shown ++ older) all
  pub short : length shown ≤ 100

shows_newest :
    (ts : List TaskStatus) → ShowsNewest ts (take 100 (sort_task_queues_by_queued_desc ts))
shows_newest ts =
    let sorted = sort_task_queues_by_queued_desc ts in
    record {
      older = drop 100 sorted;
      sorted = subst IsNewestFirst (sym (take-drop 100 sorted)) (sort-IsNewestFirst ts);
      perm = subst (λ us. Perm us ts) (sym (take-drop 100 sorted)) (sort-Perm ts);
      short = omega (arith, length-take 100 sorted);
    }

-- On a store that keeps the promise, with entries that decode, the handler and buildTaskQueues
-- answer the same: at most 100 runs, the newest first, and with the older ones that are left out a
-- permutation of all runs.
pub task_queue_handler-ShowsNewest :
    (S : ListStore) (laws : IsListStore S) (C : Codec SyncQueueItem) (s : S.State)
    (items : List SyncQueueItem)
    → S.IsValid s
    → Holds C (S.view s task_queue_store_key) items
    → (task_queue_handler S C s ≡ ok (build_task_queues S C s))
      × ShowsNewest (map task_status items) (build_task_queues S C s)
unfolding task_queue_handler build_task_queues
task_queue_handler-ShowsNewest S laws C s items h held =
    let read = read_all S laws s task_queue_store_key h in
    let decoded = decode_all-Holds C (S.view s task_queue_store_key) items held in
    (
      rw (task_queue_handler, build_task_queues, read) refl,
      rw (build_task_queues, read, decoded) (shows_newest (map task_status items)),
    )
