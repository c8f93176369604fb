-- ===== src/Downloads/Items.antt =====
-- DownloadQueueItem and DownloadStatus of internal/youtube.go, and the functions on a loaded queue.
-- Instants are nanoseconds since the zero time; a pointer to a status is an Option.
use trailarr.Prelude.{
  ℕ, Bool, true, false, not, Option, none, some, List, [], ◌∷◌, Bytes, bytes, ◌==◌, eqb, ltb,
  if◌then◌else◌,
}
use trailarr.Prelude.Int.{ℤ, pos, negsuc}
use trailarr.Prelude.Maps.{GoMap, find, insert}

pub record DownloadQueueItem : Type 0 where
  pub media_type : Bytes
  pub media_id : ℤ
  pub media_title : Bytes
  pub extra_type : Bytes
  pub extra_title : Bytes
  pub youtube_id : Bytes
  pub queued_at : ℕ
  pub status : Bytes
  pub reason : Bytes

pub record DownloadStatus : Type 0 where
  pub status : Bytes
  pub updated_at : ℕ
  pub error : Bytes

abbrev pub status_queued : Bytes
status_queued = bytes "queued"

abbrev pub status_downloading : Bytes
status_downloading = bytes "downloading"

abbrev pub status_failed : Bytes
status_failed = bytes "failed"

abbrev pub status_rejected : Bytes
status_rejected = bytes "rejected"

-- What findLastQueueStatus gives for an item.
abbrev pub status_of : DownloadQueueItem → DownloadStatus
status_of item = record { status = item.status; updated_at = item.queued_at; error = [] }

abbrev pub or_this : Bytes → DownloadQueueItem → Option DownloadStatus → Option DownloadStatus
or_this youtube_id item (some st) = some st
or_this youtube_id item none = if item.youtube_id == youtube_id then some (status_of item) else none

-- The loop from the end: a later item decides first.
unfoldable pub find_last_queue_status : List DownloadQueueItem → Bytes → Option DownloadStatus
find_last_queue_status [] youtube_id = none
find_last_queue_status (item ∷ queue) youtube_id =
    or_this youtube_id item (find_last_queue_status queue youtube_id)

-- DedupLatestByYouTubeID: the first item, or a later one that was queued after it.
abbrev pub newer : DownloadQueueItem → Option DownloadQueueItem → Bool
newer item none = true
newer item (some prev) = ltb prev.queued_at item.queued_at

unfoldable pub dedup_loop :
    List DownloadQueueItem → GoMap DownloadQueueItem → GoMap DownloadQueueItem
dedup_loop [] m = m
dedup_loop (item ∷ queue) m =
    dedup_loop queue
      (if newer item (find item.youtube_id m) then insert item.youtube_id item m else m)

abbrev pub map_values : GoMap DownloadQueueItem → List DownloadQueueItem
map_values [] = []
map_values ((_, v) ∷ m) = v ∷ map_values m

unfoldable pub dedup_latest_by_youtube_id : List DownloadQueueItem → List DownloadQueueItem
unfolding dedup_loop
dedup_latest_by_youtube_id queue = map_values (dedup_loop queue [])

-- DiffDownloadQueue: the new items whose id is unknown or has another status.
unfoldable pub index_loop :
    List DownloadQueueItem → GoMap DownloadQueueItem → GoMap DownloadQueueItem
index_loop [] m = m
index_loop (item ∷ queue) m = index_loop queue (insert item.youtube_id item m)

abbrev pub differs : DownloadQueueItem → Option DownloadQueueItem → Bool
differs item none = true
differs item (some old) = not (old.status == item.status)

unfoldable pub changed_loop :
    GoMap DownloadQueueItem → List DownloadQueueItem → List DownloadQueueItem
changed_loop old_map [] = []
changed_loop old_map (item ∷ queue) =
    let rest = changed_loop old_map queue in
    if differs item (find item.youtube_id old_map) then item ∷ rest else rest

unfoldable pub diff_download_queue :
    List DownloadQueueItem → List DownloadQueueItem → List DownloadQueueItem
unfolding index_loop changed_loop
diff_download_queue old_queue new_queue = changed_loop (index_loop old_queue []) new_queue

-- An entry of a media cache, as the queue reads it: parseMediaID of its id, and its title if it is
-- a string.
pub record CachedMedia : Type 0 where
  pub id : Option ℤ
  pub title : Option Bytes

abbrev pub eqb_ℤ : ℤ → ℤ → Bool
eqb_ℤ (pos a) (pos b) = eqb a b
eqb_ℤ (negsuc a) (negsuc b) = eqb a b
eqb_ℤ _ _ = false

abbrev has_id : ℤ → Option ℤ → Bool
has_id media_id none = false
has_id media_id (some i) = eqb_ℤ i media_id

abbrev pub title_or : Option Bytes → Option Bytes → Option Bytes
title_or (some t) rest = some t
title_or none rest = rest

-- The title of the first entry with that id and a title.
unfoldable pub title_of : ℤ → List CachedMedia → Option Bytes
title_of media_id [] = none
title_of media_id (m ∷ ms) =
    let rest = title_of media_id ms in if has_id media_id m.id then title_or m.title rest else rest

abbrev pub with_title : DownloadQueueItem → Option Bytes → DownloadQueueItem
with_title item none = item
with_title item (some t) = record item { media_title = t }

-- fillMediaTitleIfMissing; `items` is the cache of the item's media type, empty if it has none.
unfoldable pub fill_media_title_if_missing :
    DownloadQueueItem → List CachedMedia → DownloadQueueItem
unfolding title_of
fill_media_title_if_missing item items =
    if item.media_title == [] then with_title item (title_of item.media_id items) else item

-- GetBatchDownloadStatusHandler, for one id: the status in memory, in the queue, a rejection, the
-- media cache, and else "missing". `rejected` is the reason of a rejection.
unfoldable pub batch_status :
    ℕ
    → GoMap DownloadStatus
    → List DownloadQueueItem
    → GoMap Bytes
    → (Bytes → Bool)
    → Bytes
    → DownloadStatus
batch_status now statuses queue rejected exists_in_cache id = elim (find id statuses) [
  | some st ↦ st
  | none ↦ elim (find_last_queue_status queue id) [
    | some st ↦ st
    | none ↦ elim (find id rejected) [
      | some reason ↦ record { status = status_rejected; updated_at = now; error = reason }
      | none ↦
          if exists_in_cache id
          then record { status = bytes "exists"; updated_at = now; error = [] }
          else record { status = bytes "missing"; updated_at = 0; error = [] }
    ]
  ]
]

-- The whole answer: one status for each id of the request.
unfoldable pub batch_statuses :
    ℕ
    → GoMap DownloadStatus
    → List DownloadQueueItem
    → GoMap Bytes
    → (Bytes → Bool)
    → List Bytes
    → GoMap DownloadStatus
    → GoMap DownloadStatus
batch_statuses now statuses queue rejected exists_in_cache [] out = out
batch_statuses now statuses queue rejected exists_in_cache (id ∷ ids) out =
    batch_statuses now statuses queue rejected exists_in_cache ids
      (insert id (batch_status now statuses queue rejected exists_in_cache id) out)
