-- ===== src/Extras/Missing.antt =====
-- The missing extras that DownloadMissingExtras of internal/extras.go puts in the download queue, and
-- the tests of processExtraDownload of internal/tasks.go. The extras on disk, equality up to case,
-- SanitizeFilename and the clock are arguments.
pub mod Queued
use trailarr.Prelude.{
  ℕ, zero, suc, ◌+◌, Bool, true, false, ◌&&◌, ◌||◌, not, Option, none, some, List, [], ◌∷◌, ◌++◌,
  map, Bytes, bytes, ◌==◌, if◌then◌else◌,
}
use trailarr.Prelude.Int.{ℤ}
use trailarr.Prelude.Maps.{GoMap, find, insert}
use trailarr.Slices.{filter}
use trailarr.Store.Spec.{ListStore}
use trailarr.Json.{Codec}
use trailarr.Downloads.Items.{DownloadQueueItem, CachedMedia, status_rejected}
use trailarr.Downloads.Worker.{Downloads, add_to_download_queue}
use trailarr.Settings.Sections.{ExtraTypesConfig, canonicalize_extra_type, is_extra_type_enabled}
use trailarr.Extras.Merge.{Extra, RejectedExtra}

abbrev pub status_missing : Bytes
status_missing = bytes "missing"

-- rejectedYoutubeIds
unfoldable pub rejected_ids : List RejectedExtra → GoMap Bool
rejected_ids [] = []
rejected_ids (r ∷ rejected) = insert r.youtube_id true (rejected_ids rejected)

abbrev pub is_rejected_id : GoMap Bool → Bytes → Bool
is_rejected_id ids id = elim (find id ids) [ none ↦ false | some _ ↦ true ]

-- MarkRejectedExtrasInMemory
unfoldable pub mark_rejected_extras : GoMap Bool → List Extra → List Extra
mark_rejected_extras ids [] = []
mark_rejected_extras ids (e ∷ extras) =
    (if is_rejected_id ids e.youtube_id then record e { status = status_rejected } else e)
    ∷ mark_rejected_extras ids extras

-- MarkDownloadedExtras: `existing` holds type and title of the extras on disk.
module _ (equal_fold : Bytes → Bytes → Bool) (sanitize : Bytes → Bytes)
    (mapping : GoMap Bytes) where
  unfoldable pub is_on_disk : List (Bytes × Bytes) → Bytes → Bytes → Bool
  is_on_disk [] typ title = false
  is_on_disk ((existing_type, existing_title) ∷ existing) typ title =
      (equal_fold existing_title title
        && (equal_fold existing_type typ
            || equal_fold (existing_type ++ bytes "s") typ
            || equal_fold existing_type (typ ++ bytes "s")))
      || is_on_disk existing typ title

  unfoldable pub mark_downloaded_extras : List (Bytes × Bytes) → List Extra → List Extra
  unfolding is_on_disk canonicalize_extra_type
  mark_downloaded_extras existing [] = []
  mark_downloaded_extras existing (e ∷ extras) =
      let typ = canonicalize_extra_type mapping e.extra_type in
      record e {
        extra_type = typ;
        status =
            if is_on_disk existing typ (sanitize e.extra_title)
            then bytes "downloaded"
            else status_missing;
      }
      ∷ mark_downloaded_extras existing extras

module _ (mapping : GoMap Bytes) (cfg : ExtraTypesConfig) where
  abbrev pub is_enabled : Extra → Bool
  is_enabled extra = is_extra_type_enabled cfg (canonicalize_extra_type mapping extra.extra_type)

  -- shouldDownloadExtra
  unfoldable pub should_download_extra : Extra → Bool
  should_download_extra extra =
      if not (extra.status == status_missing) || extra.youtube_id == []
      then false
      else if extra.status == status_rejected
      then false
      else is_enabled extra

  -- The decision of processExtraDownload.
  unfoldable pub is_download_due : Bool → Extra → Bool
  is_download_due used_tmdb extra =
      if not (is_enabled extra)
      then false
      else if not used_tmdb && extra.status == status_rejected
      then false
      else (used_tmdb && not (extra.youtube_id == []))
        || (not used_tmdb && extra.status == status_missing && not (extra.youtube_id == []))

module _ (S : ListStore) (C : Codec DownloadQueueItem) (media_type : Bytes) (media_id : ℤ)
    (items : List CachedMedia) (clock : ℕ → ℕ) where
  abbrev pub item_of : Extra → DownloadQueueItem
  item_of extra = record {
    media_type = media_type;
    media_id = media_id;
    media_title = [];
    extra_type = extra.extra_type;
    extra_title = extra.extra_title;
    youtube_id = extra.youtube_id;
    queued_at = 0;
    status = [];
    reason = [];
  }

  -- handleExtraDownload, at the instant `now`.
  unfoldable pub handle_extra_download : Downloads S C → Extra → ℕ → Downloads S C
  unfolding add_to_download_queue
  handle_extra_download w extra now =
      if extra.status == status_rejected
      then w
      else add_to_download_queue S C w (item_of extra) items now

  -- The loop of filterAndDownloadExtras; `k` counts the downloads.
  unfoldable pub download_loop : Downloads S C → List Extra → ℕ → Downloads S C
  unfolding handle_extra_download
  download_loop w [] k = w
  download_loop w (e ∷ extras) k =
      download_loop (handle_extra_download w e (clock k)) extras (suc k)

  module _ (mapping : GoMap Bytes) (cfg : ExtraTypesConfig) where
    -- filterAndDownloadExtras
    unfoldable pub filter_and_download_extras :
        Downloads S C → List Extra → List RejectedExtra → Downloads S C
    unfolding download_loop mark_rejected_extras rejected_ids should_download_extra filter
    filter_and_download_extras w extras rejected =
        let marked = mark_rejected_extras (rejected_ids rejected) extras in
        download_loop w (filter marked (should_download_extra mapping cfg)) 0
