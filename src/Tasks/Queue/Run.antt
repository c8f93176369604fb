-- ===== src/Tasks/Queue/Run.antt =====
-- wrapWithQueue: the entry of a run, from its start to its end.
use trailarr.Prelude.{
  ℕ, ◌<◌, ◌≡◌, refl, ap, ◌∙◌, sym, subst, Option, some, List, [], ◌∷◌, ◌++◌, length, length-append,
  get_elem?-length, set, Bytes, arith,
}
use trailarr.Store.Recent.{last_n, last_n-append, stay, set-last, get_elem?-last}
use trailarr.Store.Spec.{ListStore, IsListStore, Replaced}
use trailarr.Store.Log.{logged, view-Replaced}
use trailarr.Json.{Codec, Encodes, Holds, Holds-append, Holds-last_n, Holds-set}
use trailarr.Tasks.Queue.{
  SyncQueueItem, task_queue_store_key, push_task_queue_item, running_run, ended_run,
  wrap_with_queue, ran, pushed_run,
}
use trailarr.Tasks.Queue.Update.{update-Replaced}

past :
    (xs : List SyncQueueItem) (run : SyncQueueItem) (j : ℕ)
    → length xs < j
    → j < length (xs ++ run ∷ [])
    → ⊥
past xs run j l m = omega (arith, length-append xs (run ∷ []))

module _ (S : ListStore) (laws : IsListStore S) (C : Codec SyncQueueItem) where
  push-Replaced :
      (s : S.State) (item : SyncQueueItem) (b : Bytes)
      → S.IsValid s
      → S.KeyFits task_queue_store_key
      → S.ValueFits b
      → S.Room s task_queue_store_key 1
      → C.marshal item ≡ some b
      → Replaced S s task_queue_store_key
          (last_n 1000 (S.view s task_queue_store_key ++ b ∷ []))
          (push_task_queue_item S C s item)
  unfolding push_task_queue_item
  push-Replaced s item b h k f r e =
      rw (push_task_queue_item, e) (logged S laws 999 s task_queue_store_key b h k f r)

  module _ (s : S.State) (items : List SyncQueueItem) (task_id : Bytes) (start stop : ℕ)
      (sync : S.State → Option Bytes × S.State) where
    abbrev key : Bytes
    key = task_queue_store_key

    abbrev run : SyncQueueItem
    run = running_run task_id start

    abbrev final : SyncQueueItem
    final = ended_run start stop (ran S C s task_id start sync).0 run

    -- On a store that keeps the promise, if the task itself leaves the queue alone and both
    -- encodings fit: its run ends as the last of at most 1000 entries, with its final status in
    -- place of "running".
    pub wrap_with_queue-Holds :
        (b d : Bytes)
        → S.IsValid s
        → Holds C (S.view s key) items
        → S.KeyFits key
        → S.ValueFits b
        → S.ValueFits d
        → S.Room s key 1
        → Encodes C run b
        → Encodes C final d
        → S.IsValid (ran S C s task_id start sync).1
        → S.view (ran S C s task_id start sync).1 key
          ≡ S.view (pushed_run S C s task_id start).1 key
        → Holds C
            (S.view (wrap_with_queue S C s task_id start stop sync) key)
            (last_n 1000 (items ++ final ∷ []))
    unfolding wrap_with_queue
    wrap_with_queue-Holds b d h held k f f' room e e' valid quiet =
        let p = pushed_run S C s task_id start in
        let u = ran S C s task_id start sync in
        let a = push-Replaced s run b h k f room e.written in
        let before = stay 999 items in
        let its : List SyncQueueItem = before ++ run ∷ [] in
        let pushed : Holds C (S.view u.1 key) its =
          subst (Holds C (S.view u.1 key)) (last_n-append 999 items run) (
            subst (λ vs. Holds C vs (last_n 1000 (items ++ run ∷ [])))
              (sym (quiet ∙ view-Replaced S laws s key _ p a))
              (Holds-last_n C 1000 _ _ (
                Holds-append C (S.view s key) (b ∷ []) items (run ∷ []) held
                  (ap (λ o. o ∷ []) e.read)))) in
        let r =
          update-Replaced S laws C u.1 its task_id start (ended_run start stop u.0) d valid pushed
            f' (length before) run (get_elem?-last before run []) (refl, refl)
            (λ j l x y. absurd (past before run j l (get_elem?-length its j x y))) e'.written in
        let now : Holds C (set (S.view u.1 key) (length before) d) (set its (length before) final) =
          Holds-set C (S.view u.1 key) its (length before) d final pushed e'.read in
        subst (Holds C (S.view (wrap_with_queue S C s task_id start stop sync) key))
          (set-last before run final [] ∙ sym (last_n-append 999 items final))
          (subst (λ vs. Holds C vs (set its (length before) final))
            (sym (view-Replaced S laws u.1 key _ _ r)) now)
