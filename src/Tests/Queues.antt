-- ===== src/Tests/Queues.antt =====
-- The theorems of the log and of the queues at concrete states of the map store. The codecs here
-- keep one text field, and give the other fields of a sample when they read.
use trailarr.Prelude.{
  ℕ, zero, suc, subst, sym, true, inl, ◌<◌, ◌≡◌, refl, false, Option, none, some, List, [], ◌∷◌,
  ◌++◌, Bytes, bytes, ◌==◌, set, map, take, get_elem?, get_elem?-length, arith, if◌then◌else◌,
}
use trailarr.Prelude.Int.{pos}
use trailarr.Prelude.Maps.{find}
use mathlib.Core.List.{reverse}
use trailarr.Store.Outcome.{ok}
use trailarr.Store.Recent.{last_n}
use trailarr.Store.Spec.{Replaced}
use trailarr.Store.Mem.{Mem, list_at}
use trailarr.Store.Mem.Lists.{mem_store, mem_store-IsListStore}
use trailarr.Json.{Codec, Holds}
use trailarr.History.{HistoryEvent, history_store_key, append_history_event, history_handler}
use trailarr.History.Newest.{append-history_handler}
use trailarr.Tasks.Queue.{
  SyncQueueItem, task_queue_store_key, status_running, update_task_queue_item, matches, new_item,
  running_run, ended_run, wrap_with_queue, requeue_running, task_status, task_queue_handler,
  build_task_queues,
}
use trailarr.Tasks.Queue.Update.{update-Replaced}
use trailarr.Tasks.Queue.Restart.{EachRequeued, QueuedFit, requeue_running-EachRequeued}
use trailarr.Bbolt.Table.{table_bbolt}
use trailarr.Store.Client.{World, rpush}
use trailarr.Store.Client.Promise.{IsUsable, store_view, client_store}
use trailarr.Store.Client.Laws.{client_store-IsListStore, rpush_lem}
use trailarr.Tasks.Queue.Report.{ShowsNewest, task_queue_handler-ShowsNewest}
use trailarr.Tasks.Queue.Run.{wrap_with_queue-Holds}

abbrev list_mem : Bytes → List Bytes → Mem
list_mem key vs = record { kv = []; hashes = []; lists = (key, vs) ∷ [] }

abbrev event : Bytes → HistoryEvent
event action = record {
  action = action;
  media_title = [];
  media_type = bytes "movie";
  media_id = pos 1;
  extra_type = [];
  extra_title = [];
  date = 0;
}

abbrev event_codec : Codec HistoryEvent
event_codec = record { marshal = λ e. some e.action; unmarshal = λ b. some (event b) }

append-history_handler_example :
    history_handler mem_store event_codec
      (append_history_event mem_store event_codec
        (list_mem history_store_key (bytes "download" ∷ []))
        (event (bytes "delete"))).1
    ≡ ok (take 1000 (event (bytes "delete") ∷ reverse (event (bytes "download") ∷ [])))
unfolding ◌==◌ find
append-history_handler_example =
    append-history_handler mem_store mem_store-IsListStore event_codec
      (list_mem history_store_key (bytes "download" ∷ [])) (event (bytes "delete")) (bytes "delete")
      (event (bytes "download") ∷ []) tt tt tt tt (record { written = refl; read = refl }) refl

-- A run of the health check, queued at 7.
abbrev run : Bytes → SyncQueueItem
run status = record (new_item (bytes "healthcheck") 7) { started = 7; status = status }

abbrev run_codec : Codec SyncQueueItem
run_codec = record { marshal = λ q. some q.status; unmarshal = λ b. some (run b) }

abbrev task_mem : Mem
task_mem = list_mem task_queue_store_key (bytes "success" ∷ status_running ∷ [])

abbrev task_runs : List SyncQueueItem
task_runs = run (bytes "success") ∷ run status_running ∷ []

abbrev fail : SyncQueueItem → SyncQueueItem
fail q = record q { status = bytes "failed" }

past_end : (j : ℕ) → 1 < j → (p : SyncQueueItem) → get_elem? task_runs j ≡ some p → ⊥
past_end j l p e = omega (arith, get_elem?-length task_runs j p e)

update_example :
    Replaced mem_store task_mem task_queue_store_key
      (set (list_at task_mem task_queue_store_key) 1 (bytes "failed"))
      (update_task_queue_item mem_store run_codec task_mem (bytes "healthcheck") 7 fail)
unfolding ◌==◌ find matches
update_example =
    update-Replaced mem_store mem_store-IsListStore run_codec task_mem task_runs
      (bytes "healthcheck") 7 fail (bytes "failed") tt refl tt 1 (run status_running) refl
      (refl, refl) (λ j l p e. absurd (past_end j l p e)) refl

no_radarr :
    (j : ℕ) (p : SyncQueueItem)
    → get_elem? task_runs j ≡ some p
    → matches (bytes "radarr") 7 p ≡ false
unfolding matches ◌==◌
no_radarr zero p e =
    let same : run (bytes "success") ≡ p = cc e in
    subst (λ x. matches (bytes "radarr") 7 x ≡ false) same refl
no_radarr (suc zero) p e =
    let same : run status_running ≡ p = cc e in
    subst (λ x. matches (bytes "radarr") 7 x ≡ false) same refl
no_radarr (suc (suc j)) p e = let no : ⊥ = cc e in absurd no

-- A database whose queue has one run, which the last process left running.
abbrev stopped : World table_bbolt
stopped = record {
  disk = [];
  bolt_client = true;
  bolt_once = true;
  store_client = some (record { on_disk = true; mem = none });
}

stopped-IsUsable : IsUsable table_bbolt stopped
unfolding trailarr.Bbolt.Table.find
stopped-IsUsable = inl (
  record { on_disk = true; mem = none },
  record { client = refl; bolt = refl; numbered = record { at = λ k. tt } },
)

abbrev restarted : World table_bbolt
restarted = (rpush table_bbolt stopped task_queue_store_key status_running).1

left_running :
    Replaced
      (client_store table_bbolt)
      stopped
      task_queue_store_key
      (status_running ∷ [])
      (rpush table_bbolt stopped task_queue_store_key status_running)
unfolding trailarr.Bbolt.Table.find
left_running =
    rpush_lem table_bbolt stopped task_queue_store_key status_running stopped-IsUsable (omega arith)
      (omega arith) (λ _. omega arith)

one_running : store_view table_bbolt restarted task_queue_store_key ≡ status_running ∷ []
unfolding ◌==◌
one_running = left_running.views task_queue_store_key

queued-fits :
    (b : Bytes) (q : SyncQueueItem)
    → run_codec.unmarshal status_running ≡ some q
    → run_codec.marshal (record q { status = bytes "queued" }) ≡ some b
    → (client_store table_bbolt).ValueFits b
queued-fits b q e m =
    let same : bytes "queued" ≡ b = cc m in
    subst (client_store table_bbolt).ValueFits same (omega arith)

requeue_running_example :
    (bs : List Bytes) × EachRequeued run_codec
      (store_view table_bbolt restarted task_queue_store_key)
      bs
    × Replaced
        (client_store table_bbolt)
        restarted
        task_queue_store_key
        bs
        (ok tt, requeue_running (client_store table_bbolt) run_codec restarted)
requeue_running_example =
    requeue_running-EachRequeued (client_store table_bbolt) (client_store-IsListStore table_bbolt)
      run_codec restarted left_running.valid
      (subst (QueuedFit (client_store table_bbolt) (client_store-IsListStore table_bbolt) run_codec)
        (sym one_running) (queued-fits, tt))

task_queue_handler_example :
    (task_queue_handler mem_store run_codec task_mem
      ≡ ok (build_task_queues mem_store run_codec task_mem))
    × ShowsNewest (map task_status task_runs) (build_task_queues mem_store run_codec task_mem)
unfolding ◌==◌ find
task_queue_handler_example =
    task_queue_handler-ShowsNewest mem_store mem_store-IsListStore run_codec task_mem task_runs tt
      refl

-- A task that succeeds and leaves the store alone.
abbrev quiet : Mem → Option Bytes × Mem
quiet m = (none, m)

abbrev ended_codec : Codec SyncQueueItem
ended_codec = record {
  marshal = λ q. some q.status;
  unmarshal = λ b. some (
      if b == status_running
      then running_run (bytes "healthcheck") 7
      else ended_run 7 9 none (running_run (bytes "healthcheck") 7));
}

wrap_with_queue_example :
    Holds ended_codec
      (list_at
        (wrap_with_queue mem_store ended_codec
          (list_mem task_queue_store_key [])
          (bytes "healthcheck")
          7
          9
          quiet)
        task_queue_store_key)
      (last_n 1000 ([] ++ ended_run 7 9 none (running_run (bytes "healthcheck") 7) ∷ []))
unfolding ◌==◌ find ended_run
wrap_with_queue_example =
    wrap_with_queue-Holds mem_store mem_store-IsListStore ended_codec
      (list_mem task_queue_store_key []) [] (bytes "healthcheck") 7 9 quiet status_running
      (bytes "success") tt refl tt tt tt tt (record { written = refl; read = refl })
      (record { written = refl; read = refl }) tt refl
