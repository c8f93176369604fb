-- ===== src/Tests/Wanted.antt =====
-- The theorem of the extras of a wanted item at a concrete map store, with a worker that takes the
-- whole queue in one sleep. The codec keeps the id, and reads every entry as a queued item.
use trailarr.Prelude.{
  ◌≡◌, refl, sym, subst, ◌≤◌, ℕ, Bool, false, some, List, [], ◌∷◌, Bytes, bytes, ◌==◌, inr, arith,
}
use trailarr.Prelude.Int.{pos}
use trailarr.Store.Outcome.{Outcome, ok}
use trailarr.Store.Log.{read_all}
use trailarr.Store.Mem.Lists.{mem_store, mem_store-IsListStore}
use trailarr.Json.{Codec, decode_all}
use trailarr.Downloads.Items.{DownloadQueueItem, status_queued}
use trailarr.Downloads.Worker.{Downloads, download_queue, load_queue_from_store}
use trailarr.Settings.Sections.{default_extra_types}
use trailarr.Extras.Merge.{Extra, RejectedExtra}
use trailarr.Extras.Wanted.{process_wanted_item, fetch_extras_or_tmdb}
use trailarr.Extras.Wanted.Drain.{NoneQueued, iterate}
use trailarr.Extras.Wanted.Paced.{Paced, Drains, to_queue, process_wanted_item-Paced}

abbrev extra : Bytes → Extra
extra youtube_id = record {
  id = [];
  extra_type = bytes "Trailers";
  extra_title = youtube_id;
  youtube_id = youtube_id;
  status = [];
  reason = [];
}

abbrev rejected : RejectedExtra
rejected = record {
  media_type = bytes "movie";
  media_id = pos 1;
  extra_type = bytes "Trailers";
  extra_title = [];
  youtube_id = bytes "y1";
  reason = [];
}

abbrev item : Bytes → DownloadQueueItem
item youtube_id = record {
  media_type = bytes "movie";
  media_id = pos 1;
  media_title = [];
  extra_type = bytes "Trailers";
  extra_title = [];
  youtube_id = youtube_id;
  queued_at = 0;
  status = status_queued;
  reason = [];
}

abbrev codec : Codec DownloadQueueItem
codec = record { marshal = λ q. some q.youtube_id; unmarshal = λ b. some (item b) }

abbrev downloads : Downloads mem_store codec
downloads = record {
  store = record { kv = []; hashes = []; lists = (download_queue, bytes "y0" ∷ []) ∷ [] };
  statuses = [];
}

abbrev take_all : Downloads mem_store codec → Downloads mem_store codec
take_all w = record w { store = (mem_store.del w.store download_queue).1 }

-- The queue that is left loads as empty.
left-empty :
    (w : Downloads mem_store codec) → load_queue_from_store mem_store codec (take_all w).store ≡ []
unfolding load_queue_from_store ◌==◌ decode_all
left-empty w =
    let gone = mem_store-IsListStore.del_lem w.store download_queue tt in
    let seen : mem_store.view (take_all w).store download_queue ≡ [] = gone.views download_queue in
    rw
      (
        load_queue_from_store,
        read_all mem_store mem_store-IsListStore (take_all w).store download_queue tt,
        seen,
      )
      refl

abbrev never : ℕ → Bool
never j = false

take_all-Drains :
    Drains mem_store codec (bytes "movie") (pos 1) [] (λ k. k) [] default_extra_types take_all never
unfolding iterate
take_all-Drains w = (1, subst NoneQueued (sym (left-empty w)) tt)

abbrev same_text : Bytes → Bytes → Bool
same_text a b = a == b

abbrev found : Outcome (List Extra)
found = ok (extra (bytes "y1") ∷ extra (bytes "y2") ∷ extra (bytes "y3") ∷ [])

-- Of three extras one is rejected and one is on disk.
process_wanted_item-Paced_example :
    (last : Downloads mem_store codec) × (enough : ℕ) × ((polls : ℕ)
      → enough ≤ polls
      → process_wanted_item mem_store codec
          (bytes "movie")
          (pos 1)
          []
          (λ k. k)
          []
          default_extra_types
          take_all
          polls
          never
          same_text
          (λ s. s)
          ((bytes "Trailers", bytes "y2") ∷ [])
          (rejected ∷ [])
          found
          (ok [])
          (ok (bytes "/m/a"))
          downloads
        ≡ some last)
    × Paced mem_store codec
        (bytes "movie")
        (pos 1)
        []
        (λ k. k)
        []
        default_extra_types
        take_all
        never
        downloads
        (to_queue mem_store codec
          (bytes "movie")
          (pos 1)
          []
          (λ k. k)
          []
          default_extra_types
          take_all
          never
          same_text
          (λ s. s)
          ((bytes "Trailers", bytes "y2") ∷ [])
          (rejected ∷ [])
          false
          (extra (bytes "y1") ∷ extra (bytes "y2") ∷ extra (bytes "y3") ∷ [])
          3)
        0
        last
unfolding fetch_extras_or_tmdb
process_wanted_item-Paced_example =
    process_wanted_item-Paced mem_store codec (bytes "movie") (pos 1) [] (λ k. k) []
      default_extra_types take_all never same_text (λ s. s) ((bytes "Trailers", bytes "y2") ∷ [])
      (rejected ∷ []) found (ok []) (ok (bytes "/m/a")) downloads false (extra (bytes "y1"))
      (extra (bytes "y2") ∷ extra (bytes "y3") ∷ []) b'/' (bytes "m/a") 3 refl refl
      (record { before = λ i l. refl; stops = inr (omega arith) }) take_all-Drains
