-- ===== src/Downloads/Changes.antt =====
-- DedupLatestByYouTubeID and DiffDownloadQueue: what the watcher reports.
use trailarr.Prelude.{
  ◌≡◌, refl, ap, ◌∙◌, Option, none, some, List, [], ◌∷◌, Bytes, ◌==◌, ==_iff, ltb, if◌then◌else◌,
  inl, inr, Bool-cases, Option-cases,
}
use trailarr.Prelude.Maps.{GoMap, find, insert, find-insert}
use trailarr.Downloads.Items.{
  DownloadQueueItem, newer, dedup_loop, index_loop, changed_loop, diff_download_queue,
}

-- The reference: the item with this id that was queued last, the first of those at one instant.
abbrev pub later_of : Option DownloadQueueItem → DownloadQueueItem → Option DownloadQueueItem
later_of none item = some item
later_of (some prev) item = if ltb prev.queued_at item.queued_at then some item else some prev

unfoldable pub latest :
    Bytes → Option DownloadQueueItem → List DownloadQueueItem → Option DownloadQueueItem
latest id best [] = best
latest id best (item ∷ queue) =
    latest id (if item.youtube_id == id then later_of best item else best) queue

dedup_step :
    (id : Bytes) (item : DownloadQueueItem) (m : GoMap DownloadQueueItem)
    → find id (if newer item (find item.youtube_id m) then insert item.youtube_id item m else m)
      ≡ (if item.youtube_id == id then later_of (find id m) item else find id m)
dedup_step id item m =
    let put = find-insert item.youtube_id id item m in
    elim (Bool-cases (item.youtube_id == id)) [
      | inl e ↦
          let same : item.youtube_id ≡ id = (==_iff item.youtube_id id).0 e in
          elim (Option-cases (find id m)) [
            | inl n ↦ rw (ap (λ k. find k m) same ∙ n, put, e, n) refl
            | inr (prev, n) ↦ elim (Bool-cases (ltb prev.queued_at item.queued_at)) [
              | inl l ↦ rw (ap (λ k. find k m) same ∙ n, n, l, put, e) refl
              | inr l ↦ rw (ap (λ k. find k m) same ∙ n, l, e, n, l) refl
            ]
          ]
      | inr e ↦ elim (Bool-cases (newer item (find item.youtube_id m))) [
        | inl y ↦ rw (y, put, e) refl
        | inr y ↦ rw (y, e) refl
      ]
    ]

-- The map that DedupLatestByYouTubeID builds has, for each id, the item that was queued last, and
-- of several at that instant the first.
pub dedup_loop-latest :
    (id : Bytes) (queue : List DownloadQueueItem) (m : GoMap DownloadQueueItem)
    → find id (dedup_loop queue m) ≡ latest id (find id m) queue
unfolding dedup_loop latest
dedup_loop-latest id [] m = refl
dedup_loop-latest id (item ∷ queue) m =
    dedup_loop-latest id queue
      (if newer item (find item.youtube_id m) then insert item.youtube_id item m else m)
    ∙ ap (λ best. latest id best queue) (dedup_step id item m)

-- The reference for the diff: the last status of an id in the old queue.
unfoldable pub last_with :
    Bytes → Option DownloadQueueItem → List DownloadQueueItem → Option DownloadQueueItem
last_with id found [] = found
last_with id found (item ∷ queue) =
    last_with id (if item.youtube_id == id then some item else found) queue

index_loop-last_with :
    (id : Bytes) (queue : List DownloadQueueItem) (m : GoMap DownloadQueueItem)
    → find id (index_loop queue m) ≡ last_with id (find id m) queue
unfolding index_loop last_with
index_loop-last_with id [] m = refl
index_loop-last_with id (item ∷ queue) m =
    index_loop-last_with id queue (insert item.youtube_id item m)
    ∙ ap (λ found. last_with id found queue) (find-insert item.youtube_id id item m)

-- The status that an id has last in a queue.
abbrev pub HasStatus : List DownloadQueueItem → Bytes → Bytes → Type 0
HasStatus queue id status =
    (last : DownloadQueueItem) × (last_with id none queue ≡ some last) × (last.status ≡ status)

-- What is left of a new queue when the items whose status did not change are taken out.
pub data Changed (old_queue : List DownloadQueueItem)
    : List DownloadQueueItem → List DownloadQueueItem → Type 0 where
  at_end : Changed old_queue [] []
  unchanged :
      {item : DownloadQueueItem} {queue changed : List DownloadQueueItem}
      → HasStatus old_queue item.youtube_id item.status
      → Changed old_queue queue changed
      → Changed old_queue (item ∷ queue) changed
  is_changed :
      {item : DownloadQueueItem} {queue changed : List DownloadQueueItem}
      → ¬ HasStatus old_queue item.youtube_id item.status
      → Changed old_queue queue changed
      → Changed old_queue (item ∷ queue) (item ∷ changed)

changed_loop-Changed :
    (old_queue new_queue : List DownloadQueueItem)
    → Changed old_queue new_queue (changed_loop (index_loop old_queue []) new_queue)
unfolding changed_loop find
changed_loop-Changed old_queue [] = at_end
changed_loop-Changed old_queue (item ∷ queue) =
    let seen = index_loop-last_with item.youtube_id old_queue [] in
    let rest = changed_loop-Changed old_queue queue in
    elim (Option-cases (last_with item.youtube_id none old_queue)) [
      | inl e ↦ rw (seen, e) (is_changed (λ (last, at, s). let no : ⊥ = cc (e, at) in no) rest)
      | inr (old, e) ↦ elim (Bool-cases (old.status == item.status)) [
        | inl y ↦ rw (seen, e, y) (unchanged (old, e, (==_iff old.status item.status).0 y) rest)
        | inr n ↦
            rw (seen, e, n)
              (is_changed
                (λ ((last, at, s) : HasStatus old_queue item.youtube_id item.status).
                  let same : old ≡ last = cc (e, at) in
                  let equal : old.status ≡ item.status = ap (λ x. x.status) same ∙ s in
                  let no : ⊥ = cc ((==_iff old.status item.status).1 equal, n) in no)
                rest)
      ]
    ]

-- DiffDownloadQueue lists, in order, exactly the new items whose id does not occur in the old
-- queue, or whose last item there has another status.
pub diff_download_queue-Changed :
    (old_queue new_queue : List DownloadQueueItem)
    → Changed old_queue new_queue (diff_download_queue old_queue new_queue)
unfolding diff_download_queue
diff_download_queue-Changed = changed_loop-Changed
