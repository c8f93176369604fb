-- ===== src/Tests/Missing.antt =====
-- The theorems of the missing extras at a concrete map store. The codec keeps the id only.
use trailarr.Prelude.{
  ◌≡◌, refl, false, none, some, Option, List, [], ◌∷◌, ◌++◌, Bytes, bytes, ◌==◌, ◌&&◌, not, map,
  length,
}
use trailarr.Prelude.Int.{pos}
use trailarr.Prelude.Maps.{find}
use trailarr.Slices.{filter}
use trailarr.Store.Outcome.{ok}
use trailarr.Store.Spec.{Replaced}
use trailarr.Store.Mem.{list_at}
use trailarr.Store.Mem.Lists.{mem_store, mem_store-IsListStore}
use trailarr.Json.{Codec}
use trailarr.Downloads.Items.{DownloadQueueItem}
use trailarr.Downloads.Worker.{Downloads, download_queue}
use trailarr.Settings.Sections.{default_extra_types, is_extra_type_enabled, canonicalize_extra_type}
use trailarr.Extras.Merge.{Extra, RejectedExtra}
use trailarr.Extras.Missing.{status_missing, rejected_ids, filter_and_download_extras}
use trailarr.Extras.Missing.Queued.{queued_items, queued_item, filter_and_download_extras-Queued}

abbrev extra : Bytes → Extra
extra youtube_id = record {
  id = [];
  extra_type = bytes "Trailers";
  extra_title = [];
  youtube_id = youtube_id;
  status = status_missing;
  reason = [];
}

abbrev rejected : RejectedExtra
rejected = record {
  media_type = bytes "movie";
  media_id = pos 1;
  extra_type = bytes "Trailers";
  extra_title = [];
  youtube_id = bytes "y1";
  reason = [];
}

abbrev item_codec : Codec DownloadQueueItem
item_codec = record { marshal = λ q. some q.youtube_id; unmarshal = λ b. none }

abbrev downloads : Downloads mem_store item_codec
downloads = record {
  store = record { kv = []; hashes = []; lists = (download_queue, bytes "y0" ∷ []) ∷ [] };
  statuses = [];
}

abbrev extras : List Extra
extras = extra (bytes "y1") ∷ extra (bytes "y2") ∷ []

filter_and_download_extras-Queued_example :
    Replaced mem_store downloads.store download_queue
      (list_at downloads.store download_queue ++ bytes "y2" ∷ [])
      (
        ok tt,
        (filter_and_download_extras mem_store item_codec
            (bytes "movie")
            (pos 1)
            []
            (λ k. k)
            []
            default_extra_types
            downloads
            extras
            (rejected ∷ [])).store,
      )
unfolding filter queued_items queued_item rejected_ids find ◌==◌ is_extra_type_enabled
    canonicalize_extra_type trailarr.Prelude.Maps.insert
    trailarr.Downloads.Items.fill_media_title_if_missing
filter_and_download_extras-Queued_example =
    filter_and_download_extras-Queued mem_store item_codec (bytes "movie") (pos 1) [] (λ k. k) []
      default_extra_types mem_store-IsListStore downloads extras (rejected ∷ []) (bytes "y2" ∷ [])
      tt tt (tt, tt) tt refl
