-- ===== src/Tasks/Queue/Update.antt =====
-- updateTaskQueueItem: which entry it changes, and what it does if there is none.
use trailarr.Prelude.{
  ℕ, zero, suc, ◌<◌, ◌≤◌, ◌≡◌, refl, ◌∙◌, sym, true, false, none, some, List, [], ◌∷◌, ◌++◌, length,
  get_elem?, get_elem?-length, set, Bytes, ◌==◌, ==_iff, eqb, arith, inl, inr, Bool-cases,
  Option-cases,
}
use native.Mathlib.Decide.{dec_lt}
use trailarr.Store.Recent.{last_n}
use trailarr.Store.Spec.{ListStore, IsListStore, Replaced}
use trailarr.Store.Log.{logged, read_all}
use trailarr.Json.{Codec, Holds, entry, entry-Holds, length-Holds}
use trailarr.Tasks.Queue.{
  SyncQueueItem, task_queue_store_key, matches, new_item, search, push_task_queue_item, set_item,
  update_task_queue_item,
}

module _ (C : Codec SyncQueueItem) where
  -- The entries from `i` to `n` that unmarshal do not match.
  abbrev pub NoMatch : Bytes → ℕ → List Bytes → ℕ → ℕ → Type 0
  NoMatch task_id queued vals i n =
      (j : ℕ)
      → i ≤ j
      → j < n
      → (q : SyncQueueItem) → entry C vals j ≡ some q
      → matches task_id queued q ≡ false

  module _ (task_id : Bytes) (queued : ℕ) (vals : List Bytes) where
    search-skip :
        (i : ℕ)
        → ((q : SyncQueueItem) → entry C vals i ≡ some q → matches task_id queued q ≡ false)
        → search C task_id queued vals (suc i) ≡ search C task_id queued vals i
    unfolding search
    search-skip i h = elim (Option-cases (entry C vals i)) [
      | inl e ↦ rw e refl
      | inr (q, e) ↦ rw (e, h q e) refl
    ]

    search-hit :
        (i : ℕ) (q : SyncQueueItem)
        → entry C vals i ≡ some q
        → matches task_id queued q ≡ true
        → search C task_id queued vals (suc i) ≡ some (i, q)
    unfolding search
    search-hit i q e m = rw (e, m) refl

    -- The last match is found.
    pub search-last :
        (n i : ℕ) (q : SyncQueueItem)
        → i < n
        → entry C vals i ≡ some q
        → matches task_id queued q ≡ true
        → NoMatch task_id queued vals (suc i) n
        → search C task_id queued vals n ≡ some (i, q)
    search-last zero i q l e m later = absurd (omega arith)
    search-last (suc n) i q l e m later = elim (dec_lt i n) [
      | yes k ↦
          search-skip n (λ p f. later n (omega arith) (omega arith) p f)
          ∙ search-last n i q k e m (λ j a b. later j a (omega arith))
      | no k ↦ let s : n ≡ i = omega arith in rw s (search-hit i q e m)
    ]

    pub search-none :
        (n : ℕ) → NoMatch task_id queued vals 0 n → search C task_id queued vals n ≡ none
    unfolding search
    search-none zero h = refl
    search-none (suc n) h =
        search-skip n (λ p f. h n (omega arith) (omega arith) p f)
        ∙ search-none n (λ j a b. h j a (omega arith))

-- The run of a task that was queued at an instant.
abbrev pub IsRun : Bytes → ℕ → SyncQueueItem → Type 0
IsRun task_id queued q = (q.task_id ≡ task_id) × (q.queued ≡ queued)

IsRun-matches :
    (task_id : Bytes) (queued : ℕ) (q : SyncQueueItem)
    → IsRun task_id queued q
    → matches task_id queued q ≡ true
unfolding matches
IsRun-matches task_id queued q (t, i) =
    let same = (==_iff q.task_id task_id).1 t in ground (arith, same, i)

not-matches :
    (task_id : Bytes) (queued : ℕ) (q : SyncQueueItem)
    → ¬ IsRun task_id queued q
    → matches task_id queued q ≡ false
unfolding matches
not-matches task_id queued q n = elim (Bool-cases (q.task_id == task_id)) [
  | inr o ↦ rw o refl
  | inl y ↦ elim (Bool-cases (eqb q.queued queued)) [
    | inr o ↦ rw (y, o) refl
    | inl z ↦
        let at : q.queued ≡ queued = ground (arith, z) in
        absurd (n ((==_iff q.task_id task_id).0 y, at))
  ]
]

module _ (S : ListStore) (laws : IsListStore S) (C : Codec SyncQueueItem) where
  module _ (s : S.State) (items : List SyncQueueItem) (task_id : Bytes) (queued : ℕ)
      (update : SyncQueueItem → SyncQueueItem) (b : Bytes) (valid : S.IsValid s)
      (held : Holds C (S.view s task_queue_store_key) items) (fits : S.ValueFits b) where
    -- On a store that keeps the promise, with entries that decode: the last entry with the task id
    -- and the instant is rewritten by the update, and every other entry and list stays.
    pub update-Replaced :
        (i : ℕ) (q : SyncQueueItem)
        → get_elem? items i ≡ some q
        → IsRun task_id queued q
        → ((j : ℕ)
            → i < j
            → (p : SyncQueueItem) → get_elem? items j ≡ some p
            → ¬ IsRun task_id queued p)
        → C.marshal (update q) ≡ some b
        → Replaced S s task_queue_store_key
            (set (S.view s task_queue_store_key) i b)
            (update_task_queue_item S C s task_id queued update)
    unfolding update_task_queue_item set_item
    update-Replaced i q e m later w =
        let vals = S.view s task_queue_store_key in
        let l : i < length vals =
          omega (arith, length-Holds C vals items held, get_elem?-length items i q e) in
        let found : search C task_id queued vals (length vals) ≡ some (i, q) =
          search-last C task_id queued vals (length vals) i q l
            (entry-Holds C vals items i held ∙ e) (IsRun-matches task_id queued q m)
            (λ j a _ p f.
              not-matches task_id queued p
                (later j (omega arith) p (sym (entry-Holds C vals items j held) ∙ f))) in
        rw
          (update_task_queue_item, read_all S laws s task_queue_store_key valid, found, set_item, w)
          (laws.lset_lem s task_queue_store_key i b valid fits l)

    -- On a store that keeps the promise, with entries that decode and none of them a match: the
    -- update of a new item is appended, and the last 1000 entries stay.
    pub update-missing :
        S.KeyFits task_queue_store_key
        → S.Room s task_queue_store_key 1
        → ((j : ℕ) (p : SyncQueueItem)
            → get_elem? items j ≡ some p
            → matches task_id queued p ≡ false)
        → C.marshal (update (new_item task_id queued)) ≡ some b
        → Replaced S s task_queue_store_key
            (last_n 1000 (S.view s task_queue_store_key ++ b ∷ []))
            (update_task_queue_item S C s task_id queued update)
    unfolding update_task_queue_item push_task_queue_item
    update-missing k r absent w =
        let vals = S.view s task_queue_store_key in
        let found : search C task_id queued vals (length vals) ≡ none =
          search-none C task_id queued vals (length vals)
            (λ j _ _ p f. absent j p (sym (entry-Holds C vals items j held) ∙ f)) in
        rw
          (
            update_task_queue_item,
            read_all S laws s task_queue_store_key valid,
            found,
            push_task_queue_item,
            w,
          )
          (logged S laws 999 s task_queue_store_key b valid k fits r)
