-- ===== src/Extras/Wanted.antt =====
-- The extras of a wanted item that the task puts in the download queue: processWantedItem,
-- processExtraDownload and waitForDownloadQueueDrain of internal/tasks.go. What the search, TMDB and
-- FindMediaPathByID answer, the extras on disk, the cancellation and the clock are arguments.
pub mod Drain
pub mod Due
pub mod Paced
use trailarr.Prelude.{
  ℕ, zero, suc, Bool, true, false, Option, none, some, List, [], ◌∷◌, Bytes, ◌==◌, if◌then◌else◌,
}
use trailarr.Prelude.Int.{ℤ}
use trailarr.Prelude.Maps.{GoMap}
use trailarr.Store.Outcome.{Outcome, ok, err}
use trailarr.Store.Spec.{ListStore}
use trailarr.Json.{Codec}
use trailarr.Downloads.Items.{DownloadQueueItem, CachedMedia, status_queued}
use trailarr.Downloads.Worker.{Downloads, read_queue, add_to_download_queue}
use trailarr.Settings.Sections.{ExtraTypesConfig}
use trailarr.Extras.Merge.{Extra, RejectedExtra}
use trailarr.Extras.Missing.{
  rejected_ids, mark_rejected_extras, mark_downloaded_extras, is_download_due, item_of,
}

-- fetchExtrasOrTMDB: the extras, and whether they come from TMDB, which is asked if there are none.
unfoldable pub fetch_extras_or_tmdb :
    Outcome (List Extra) → Outcome (List Extra) → Outcome (List Extra × Bool)
fetch_extras_or_tmdb (err e) tmdb = err e
fetch_extras_or_tmdb (ok (x ∷ extras)) tmdb = ok (x ∷ extras, false)
fetch_extras_or_tmdb (ok []) (err e) = err e
fetch_extras_or_tmdb (ok []) (ok []) = ok ([], false)
fetch_extras_or_tmdb (ok []) (ok (x ∷ extras)) = ok (x ∷ extras, true)

module _ (S : ListStore) (C : Codec DownloadQueueItem) where
  abbrev pub or_queued : Option DownloadQueueItem → Bool → Bool
  or_queued none later = later
  or_queued (some q) later = if q.status == status_queued then true else later

  unfoldable pub is_queued_in : List Bytes → Bool
  is_queued_in [] = false
  is_queued_in (v ∷ vals) = or_queued (C.unmarshal v) (is_queued_in vals)

  -- isDownloadQueueQueuedPresent
  unfoldable pub is_download_queue_queued_present : S.State → Bool
  unfolding is_queued_in
  is_download_queue_queued_present s = elim (read_queue S C s) [
    | err e ↦ false
    | ok vals ↦ is_queued_in vals
  ]

  -- waitForDownloadQueueDrain, for at most `polls` sleeps: none if it still waits. `others` is what
  -- the worker and the other callers do to the queue during a sleep.
  unfoldable pub wait_for_download_queue_drain :
      (Downloads S C → Downloads S C) → ℕ → Downloads S C → Option (Downloads S C)
  unfolding is_download_queue_queued_present
  wait_for_download_queue_drain others zero w =
      if is_download_queue_queued_present w.store then none else some w
  wait_for_download_queue_drain others (suc polls) w =
      let rest = wait_for_download_queue_drain others polls (others w) in
      if is_download_queue_queued_present w.store then rest else some w

module _ (S : ListStore) (C : Codec DownloadQueueItem) (media_type : Bytes) (media_id : ℤ)
    (items : List CachedMedia) (clock : ℕ → ℕ) (mapping : GoMap Bytes) (cfg : ExtraTypesConfig)
    (others : Downloads S C → Downloads S C) (polls : ℕ) (cancelled : ℕ → Bool) where
  -- handleTypeFilteredExtraDownload
  unfoldable pub handle_type_filtered_extra_download :
      Downloads S C → Extra → ℕ → Option (Downloads S C)
  unfolding wait_for_download_queue_drain add_to_download_queue
  handle_type_filtered_extra_download w e now =
      elim (wait_for_download_queue_drain S C others polls w) [
        | none ↦ none
        | some drained ↦ some (
            add_to_download_queue S C drained (item_of S C media_type media_id items clock e) items
              now)
      ]

  -- The loop of processWantedItem over processExtraDownload from the extra number `j`, with `k`
  -- downloads so far; the context may be cancelled before an extra.
  unfoldable pub process_loop : Bool → Downloads S C → List Extra → ℕ → ℕ → Option (Downloads S C)
  unfolding is_download_due handle_type_filtered_extra_download
  process_loop used_tmdb w [] j k = some w
  process_loop used_tmdb w (e ∷ extras) j k = elim (cancelled j) [
    | true ↦ some w
    | false ↦ elim (is_download_due mapping cfg used_tmdb e) [
      | false ↦ process_loop used_tmdb w extras (suc j) k
      | true ↦ elim (handle_type_filtered_extra_download w e (clock k)) [
        | none ↦ none
        | some next ↦ process_loop used_tmdb next extras (suc j) (suc k)
      ]
    ]
  ]

  module _ (equal_fold : Bytes → Bytes → Bool) (sanitize : Bytes → Bytes)
      (existing : List (Bytes × Bytes)) (rejected : List RejectedExtra) where
    -- toDownload
    unfoldable pub to_download : Bool → List Extra → List Extra
    unfolding mark_downloaded_extras mark_rejected_extras rejected_ids
    to_download true extras = extras
    to_download false extras =
        mark_rejected_extras (rejected_ids rejected)
          (mark_downloaded_extras equal_fold sanitize mapping existing extras)

    abbrev with_path :
        Outcome Bytes → Option (Downloads S C) → Downloads S C → Option (Downloads S C)
    with_path (err e) processed w = some w
    with_path (ok []) processed w = some w
    with_path (ok (c ∷ path)) processed w = processed

    unfoldable pub process_wanted_item :
        Outcome (List Extra)
        → Outcome (List Extra)
        → Outcome Bytes
        → Downloads S C
        → Option (Downloads S C)
    unfolding fetch_extras_or_tmdb process_loop to_download
    process_wanted_item search tmdb media_path w = elim (fetch_extras_or_tmdb search tmdb) [
      | err e ↦ some w
      | ok ([], used_tmdb) ↦ some w
      | ok (x ∷ extras, used_tmdb) ↦
          with_path media_path (process_loop used_tmdb w (to_download used_tmdb (x ∷ extras)) 0 0) w
    ]
