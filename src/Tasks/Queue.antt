-- ===== src/Tasks/Queue.antt =====
-- The task queue of internal/tasks.go: a list of the store with one entry for each run of a task.
-- Instants are nanoseconds since the zero time.
pub mod Update
pub mod Restart
pub mod Report
pub mod Run
use trailarr.Prelude.{
  ℕ, zero, suc, ◌+◌, ◌-◌, ◌≡◌, Bool, true, false, ◌&&◌, Option, none, some, List, [], ◌∷◌, map,
  length, get_elem?, take, Bytes, bytes, ◌==◌, eqb, ltb, if◌then◌else◌,
}
use trailarr.Prelude.Int.{ℤ, pos, negsuc}
use trailarr.Store.Outcome.{Outcome, ok, err, bad_json, ◌>>=◌}
use trailarr.Store.Spec.{ListStore}
use trailarr.Store.Log.{then_trim}
use trailarr.Json.{Codec, entry, decode_all}

pub record SyncQueueItem : Type 0 where
  pub task_id : Bytes
  pub queued : ℕ
  pub started : ℕ
  pub ended : ℕ
  pub duration : ℤ
  pub status : Bytes
  pub error : Bytes

abbrev pub task_queue_store_key : Bytes
task_queue_store_key = bytes "trailarr:task_queue"

abbrev pub status_queued : Bytes
status_queued = bytes "queued"

abbrev pub status_running : Bytes
status_running = bytes "running"

-- -TaskQueueMaxLen
abbrev pub trim_from : ℤ
trim_from = negsuc 999

-- qi.TaskId == taskId && qi.Queued.Equal(queued)
unfoldable pub matches : Bytes → ℕ → SyncQueueItem → Bool
matches task_id queued qi = qi.task_id == task_id && eqb qi.queued queued

-- var newItem SyncQueueItem, with its two fields set.
abbrev pub new_item : Bytes → ℕ → SyncQueueItem
new_item task_id queued = record {
  task_id = task_id;
  queued = queued;
  started = 0;
  ended = 0;
  duration = pos 0;
  status = [];
  error = [];
}

module _ (C : Codec SyncQueueItem) where
  abbrev pub or_earlier :
      Bytes → ℕ → ℕ → Option SyncQueueItem → Option (ℕ × SyncQueueItem) → Option (ℕ × SyncQueueItem)
  or_earlier task_id queued i none earlier = earlier
  or_earlier task_id queued i (some qi) earlier =
      if matches task_id queued qi then some (i, qi) else earlier

  -- `for i := len(vals) - 1; i >= 0; i--`, with i + 1 given.
  unfoldable pub search : Bytes → ℕ → List Bytes → ℕ → Option (ℕ × SyncQueueItem)
  search task_id queued vals zero = none
  search task_id queued vals (suc i) =
      or_earlier task_id queued i (entry C vals i) (search task_id queued vals i)

  -- The entry that a start of the program writes back in place of `v`, if any.
  unfoldable pub requeue_value : Bytes → Option Bytes
  requeue_value v = elim (C.unmarshal v) [
    | none ↦ none
    | some qi ↦
        if qi.status == status_running
        then C.marshal (record qi { status = status_queued })
        else none
  ]

module _ (S : ListStore) (C : Codec SyncQueueItem) where
  unfoldable pub push_task_queue_item : S.State → SyncQueueItem → Outcome (Unit {0}) × S.State
  push_task_queue_item s item = elim (C.marshal item) [
    | none ↦ (err bad_json, s)
    | some b ↦ then_trim S task_queue_store_key trim_from (S.rpush s task_queue_store_key b)
  ]

  unfoldable pub set_item : S.State → ℕ → SyncQueueItem → Outcome (Unit {0}) × S.State
  set_item s i item = elim (C.marshal item) [
    | none ↦ (err bad_json, s)
    | some b ↦ S.lset s task_queue_store_key (pos i) b
  ]

  abbrev set_or_push :
      S.State
      → Bytes
      → ℕ
      → (SyncQueueItem → SyncQueueItem)
      → Option (ℕ × SyncQueueItem)
      → Outcome (Unit {0}) × S.State
  set_or_push s task_id queued update (some (i, qi)) = set_item s i (update qi)
  set_or_push s task_id queued update none =
      push_task_queue_item s (update (new_item task_id queued))

  unfoldable pub update_task_queue_item :
      S.State → Bytes → ℕ → (SyncQueueItem → SyncQueueItem) → Outcome (Unit {0}) × S.State
  update_task_queue_item s task_id queued update =
      elim (S.lrange s task_queue_store_key (pos 0) (negsuc 0)) [
        | err e ↦ (err e, s)
        | ok vals ↦ set_or_push s task_id queued update (search C task_id queued vals (length vals))
      ]

  -- The body of the loop of init: errors of LSet are dropped.
  abbrev pub requeue_at : ℕ → Option Bytes → S.State → S.State
  requeue_at i none s = s
  requeue_at i (some b) s = (S.lset s task_queue_store_key (pos i) b).1

  unfoldable pub requeue_loop : ℕ → List Bytes → S.State → S.State
  requeue_loop i [] s = s
  requeue_loop i (v ∷ vs) s = requeue_loop (i + 1) vs (requeue_at i (requeue_value C v) s)

  -- init: the runs that the last process left running are queued again.
  unfoldable pub requeue_running : S.State → S.State
  requeue_running s = elim (S.lrange s task_queue_store_key (pos 0) (negsuc 0)) [
    | err e ↦ s
    | ok vals ↦ requeue_loop 0 vals s
  ]

-- The callback of wrapWithQueue; `error` is the text of the error of the task, if it failed.
unfoldable pub ended_run : ℕ → ℕ → Option Bytes → SyncQueueItem → SyncQueueItem
ended_run start stop error qi = record qi {
  status = elim error [ none ↦ bytes "success" | some _ ↦ bytes "failed" ];
  started = start;
  ended = stop;
  duration = pos (stop - start);
  error = elim error [ none ↦ [] | some text ↦ text ];
}

abbrev pub running_run : Bytes → ℕ → SyncQueueItem
running_run task_id start = record (new_item task_id start) {
  started = start;
  status = status_running;
}

module _ (S : ListStore) (C : Codec SyncQueueItem) where
  -- The start of wrapWithQueue's function: the run is logged as running, then the task runs. `sync`
  -- is the task, which may change the store.
  abbrev pub pushed_run : S.State → Bytes → ℕ → Outcome (Unit {0}) × S.State
  pushed_run s task_id start = push_task_queue_item S C s (running_run task_id start)

  abbrev pub ran : S.State → Bytes → ℕ → (S.State → Option Bytes × S.State) → Option Bytes × S.State
  ran s task_id start sync = sync (pushed_run s task_id start).1

  -- The whole function; the clock does not go back between start and end.
  unfoldable pub wrap_with_queue :
      S.State → Bytes → ℕ → ℕ → (S.State → Option Bytes × S.State) → S.State
  unfolding push_task_queue_item update_task_queue_item
  wrap_with_queue s task_id start stop sync =
      let done = ran s task_id start sync in
      (update_task_queue_item S C done.1 task_id start (ended_run start stop done.0)).1

-- TaskStatus as the queue fills it; the duration is kept in nanoseconds.
pub record TaskStatus : Type 0 where
  pub task_id : Bytes
  pub queued : ℕ
  pub started : ℕ
  pub ended : ℕ
  pub duration : ℤ
  pub status : Bytes
  pub error : Bytes

unfoldable pub task_status : SyncQueueItem → TaskStatus
task_status qi = record {
  task_id = qi.task_id;
  queued = qi.queued;
  started = qi.started;
  ended = qi.ended;
  duration = qi.duration;
  status = qi.status;
  error = qi.error;
}

-- queues[i].Queued.After(queues[j].Queued); sort.Slice leaves the order of equal instants open.
unfoldable pub insert_queued : TaskStatus → List TaskStatus → List TaskStatus
insert_queued t [] = t ∷ []
insert_queued t (u ∷ us) = if ltb t.queued u.queued then u ∷ insert_queued t us else t ∷ u ∷ us

unfoldable pub sort_task_queues_by_queued_desc : List TaskStatus → List TaskStatus
unfolding insert_queued
sort_task_queues_by_queued_desc [] = []
sort_task_queues_by_queued_desc (t ∷ ts) = insert_queued t (sort_task_queues_by_queued_desc ts)

module _ (S : ListStore) (C : Codec SyncQueueItem) where
  -- The handler of internal/queue.go.
  unfoldable pub task_queue_handler : S.State → Outcome (List TaskStatus)
  task_queue_handler s = S.lrange s task_queue_store_key (pos 0) (negsuc 0) >>= λ vals.
      ok (take 100 (sort_task_queues_by_queued_desc (map task_status (decode_all C vals))))

  -- buildTaskQueues answers an error with an empty list.
  unfoldable pub build_task_queues : S.State → List TaskStatus
  build_task_queues s = elim (S.lrange s task_queue_store_key (pos 0) (negsuc 0)) [
    | err e ↦ []
    | ok vals ↦ take 100 (sort_task_queues_by_queued_desc (map task_status (decode_all C vals)))
  ]
