-- ===== src/Downloads/Worker.antt =====
-- The download queue in the store and the worker that empties it: internal/youtube.go. The download
-- itself and the lookup of a rejection are arguments; broadcasts and pauses change no state.
pub mod Next
pub mod Process
pub mod Progress
pub mod Drain
use trailarr.Prelude.{
  ℕ, zero, suc, ◌+◌, ◌≡◌, Bool, true, false, ◌&&◌, not, Option, none, some, List, [], ◌∷◌, Bytes,
  bytes, ◌==◌, get_elem?, if◌then◌else◌,
}
use trailarr.Prelude.Int.{ℤ, pos, negsuc}
use trailarr.Prelude.Maps.{GoMap, insert}
use trailarr.Store.Outcome.{Outcome, ok, err, succeeded}
use trailarr.Store.Spec.{ListStore}
use trailarr.Json.{Codec, entry, decode_all}
use trailarr.Downloads.Items.{
  DownloadQueueItem, DownloadStatus, CachedMedia, status_queued, status_downloading, status_failed,
  status_rejected, fill_media_title_if_missing,
}

abbrev pub download_queue : Bytes
download_queue = bytes "trailarr:download_queue"

-- What DownloadYouTubeExtra returns: an error with its text, metadata with its status, or neither.
pub data Download : Type 0 where
  failed_with : Bytes → Download
  returned : Bytes → Download
  nothing : Download

-- finalStatus and failReason.
unfoldable pub final_status : Download → Bytes × Bytes
final_status (failed_with text) = (status_failed, text)
final_status (returned status) = (status, [])
final_status nothing = (status_failed, bytes "No metadata returned from download")

unfoldable pub downloading : DownloadQueueItem → DownloadQueueItem
downloading q = record q { status = status_downloading }

unfoldable pub finished : Bytes × Bytes → DownloadQueueItem → DownloadQueueItem
finished (final, reason) q =
    if final == status_failed && not (reason == [])
    then record q { status = final; reason = reason }
    else record q { status = final }

module _ (C : Codec DownloadQueueItem) where
  -- `b, _ := json.Marshal(item)`: an error leaves b nil.
  abbrev pub marshal_or_nil : DownloadQueueItem → Bytes
  marshal_or_nil item = elim (C.marshal item) [ none ↦ [] | some b ↦ b ]

  -- The loop of NextQueuedItem from index `i`.
  abbrev pub or_later :
      ℕ → Option DownloadQueueItem → Option (ℕ × DownloadQueueItem) → Option (ℕ × DownloadQueueItem)
  or_later i none later = later
  or_later i (some item) later = if item.status == status_queued then some (i, item) else later

  unfoldable pub next_from : ℕ → List Bytes → Option (ℕ × DownloadQueueItem)
  next_from i [] = none
  next_from i (v ∷ vs) = or_later i (C.unmarshal v) (next_from (i + 1) vs)

module _ (S : ListStore) (C : Codec DownloadQueueItem) where
  -- The store and downloadStatusMap.
  pub record Downloads : Type 0 where
    pub store : S.State
    pub statuses : GoMap DownloadStatus

  abbrev pub read_queue : S.State → Outcome (List Bytes)
  read_queue s = S.lrange s download_queue (pos 0) (negsuc 0)

  -- loadQueueFromStore and GetCurrentDownloadQueue: an error gives an empty queue.
  unfoldable pub load_queue_from_store : S.State → List DownloadQueueItem
  load_queue_from_store s = elim (read_queue s) [ err e ↦ [] | ok items ↦ decode_all C items ]

  unfoldable pub next_queued_item : S.State → Option (ℕ × DownloadQueueItem)
  next_queued_item s = elim (read_queue s) [ err e ↦ none | ok queue ↦ next_from C 0 queue ]

  -- AddToDownloadQueue; `source` has no effect. An error of marshalling returns early, one of RPush
  -- does not keep the status from being set.
  unfoldable pub add_to_download_queue :
      Downloads → DownloadQueueItem → List CachedMedia → ℕ → Downloads
  add_to_download_queue w item items now =
      let filled = fill_media_title_if_missing item items in
      let queued = record filled { status = status_queued; queued_at = now } in
      elim (C.marshal queued) [
        | none ↦ w
        | some b ↦ record {
          store = (S.rpush w.store download_queue b).1;
          statuses =
              insert queued.youtube_id
                (record { status = status_queued; updated_at = now; error = [] }) w.statuses;
        }
      ]

  abbrev is_rejected : Outcome (Option Bytes) → Bool
  is_rejected (ok (some status)) = status == status_rejected
  is_rejected _ = false

  -- skipRejectedExtra; `lookup` is the status of the extra that GetExtraByYoutubeId returns.
  unfoldable pub skip_rejected_extra :
      Downloads → DownloadQueueItem → Outcome (Option Bytes) → Bool × Downloads
  skip_rejected_extra w item lookup =
      if is_rejected lookup
      then (
        true,
        record w { store = (S.lrem w.store download_queue (pos 1) (marshal_or_nil C item)).1 },
      )
      else (false, w)

  abbrev set_downloading : Downloads → ℕ → Bytes → ℕ → Option DownloadQueueItem → Downloads
  set_downloading w idx id now none = w
  set_downloading w idx id now (some q) = record {
    store = (S.lset w.store download_queue (pos idx) (marshal_or_nil C (downloading q))).1;
    statuses =
        insert id (record { status = status_downloading; updated_at = now; error = [] }) w.statuses;
  }

  unfoldable pub mark_item_downloading :
      Downloads → ℕ → DownloadQueueItem → ℕ → Outcome (Unit {0}) × Downloads
  unfolding downloading
  mark_item_downloading w idx item now = elim (read_queue w.store) [
    | err e ↦ (err e, w)
    | ok queue ↦ (ok tt, set_downloading w idx item.youtube_id now (entry C queue idx))
  ]

  abbrev set_finished : S.State → ℕ → Bytes × Bytes → Option DownloadQueueItem → S.State
  set_finished s idx final none = s
  set_finished s idx final (some q) =
      (S.lset s download_queue (pos idx) (marshal_or_nil C (finished final q))).1

  unfoldable pub update_final_status_in_store :
      S.State → ℕ → Bytes × Bytes → Outcome (Unit {0}) × S.State
  update_final_status_in_store s idx final = elim (read_queue s) [
    | err e ↦ (err e, s)
    | ok queue ↦ (ok tt, set_finished s idx final (entry C queue idx))
  ]

  -- The item whose encoding is removed at the end: changed only if the update failed.
  abbrev pub item_to_remove :
      Bytes × Bytes → DownloadQueueItem → Outcome (Unit {0}) → DownloadQueueItem
  item_to_remove final item (ok _) = item
  item_to_remove final item (err e) = finished final item

  -- Steps 2 to 7 of processQueueItem, for an item that is not rejected.
  unfoldable pub download_item : Downloads → ℕ → DownloadQueueItem → Download → ℕ → Downloads
  download_item w idx item result now =
      let marked = (mark_item_downloading w idx item now).1 in
      let final = final_status result in
      let updated = update_final_status_in_store marked.store idx final in
      record {
        store =
            (S.lrem updated.1 download_queue (pos 1)
              (marshal_or_nil C (item_to_remove final item updated.0))).1;
        statuses =
            insert item.youtube_id (record { status = final.0; updated_at = now; error = final.1 })
              marked.statuses;
      }

  unfoldable pub process_queue_item :
      Downloads → ℕ → DownloadQueueItem → Outcome (Option Bytes) → Download → ℕ → Downloads
  process_queue_item w idx item lookup result now =
      let r = skip_rejected_extra w item lookup in
      if r.0 then r.1 else download_item r.1 idx item result now

  -- StartDownloadQueueWorker cleans the queue first.
  unfoldable pub start_worker : Downloads → Downloads
  start_worker w = record w { store = (S.del w.store download_queue).1 }

  -- The rounds of its loop that find an item, at most `rounds` of them; the lookup and the download
  -- are functions of the item.
  unfoldable pub work :
      (DownloadQueueItem → Outcome (Option Bytes))
      → (DownloadQueueItem → Download)
      → ℕ
      → ℕ
      → Downloads
      → Downloads
  work lookup result now zero w = w
  work lookup result now (suc rounds) w = elim (next_queued_item w.store) [
    | none ↦ w
    | some (idx, item) ↦
        work lookup result now rounds
          (process_queue_item w idx item (lookup item) (result item) now)
  ]
