-- ===== src/Tests/Downloads.antt =====
-- The theorems of the download queue at a concrete state of the map store. The codec keeps the
-- status, and gives the other fields of a sample when it reads.
use trailarr.Prelude.{
  sym, ℕ, zero, suc, subst, ◌≡◌, ◌≢◌, refl, ap, ◌∙◌, true, false, Option, some, List, [], ◌∷◌,
  Bytes, bytes, ◌==◌, set, get_elem?,
}
use trailarr.Prelude.Int.{pos}
use trailarr.Prelude.Maps.{find, insert}
use trailarr.Store.Outcome.{Outcome, ok}
use trailarr.Store.Spec.{Replaced}
use trailarr.Store.Mem.{Mem, list_at}
use trailarr.Store.Mem.Lists.{mem_store, mem_store-IsListStore}
use trailarr.Json.{Encodes, Codec, Holds}
use trailarr.Downloads.Items.{DownloadQueueItem}
use trailarr.Downloads.Items
use trailarr.Downloads.Worker.{
  Download, returned, Downloads, download_queue, downloading, finished, final_status, download_item,
  process_queue_item,
}
use trailarr.Downloads.Worker.Next.{IsFirstQueued, count_queued}
use trailarr.Downloads.Worker.Process.{download_item-Replaced}
use trailarr.Downloads.Worker.Progress.{NotRejected, process_queue_item-progress}
use trailarr.Downloads.Changes.{Changed, diff_download_queue-Changed}
use trailarr.Downloads.Worker.{work}
use trailarr.Downloads.Worker.Drain.{QueuedOnce, AllOf, Drained, work-Drained}

abbrev list_mem : Bytes → List Bytes → Mem
list_mem key vs = record { kv = []; hashes = []; lists = (key, vs) ∷ [] }

abbrev item : Bytes → DownloadQueueItem
item status = record {
  media_type = bytes "movie";
  media_id = pos 1;
  media_title = [];
  extra_type = bytes "Trailers";
  extra_title = [];
  youtube_id = bytes "y1";
  queued_at = 5;
  status = status;
  reason = [];
}

abbrev item_codec : Codec DownloadQueueItem
item_codec = record { marshal = λ q. some q.status; unmarshal = λ b. some (item b) }

abbrev downloads : Downloads mem_store item_codec
downloads = record {
  store = list_mem download_queue (bytes "failed" ∷ Items.status_queued ∷ []);
  statuses = [];
}

abbrev items : List DownloadQueueItem
items = item (bytes "failed") ∷ item Items.status_queued ∷ []

abbrev loaded : Download
loaded = returned (bytes "downloaded")

other_items :
    (j : ℕ)
    → 1 ≢ j
    → (q : DownloadQueueItem) → get_elem? items j ≡ some q
    → q ≢ item Items.status_queued
unfolding ◌==◌
other_items zero d q e r =
    let same : item (bytes "failed") ≡ q = cc e in
    let was : false ≡ true = ap (λ x. x.status == Items.status_queued) (same ∙ r) in
    let no : ⊥ = cc was in no
other_items (suc zero) d q e r = absurd (d refl)
other_items (suc (suc j)) d q e r = let no : ⊥ = cc e in no

first_item : IsFirstQueued items 1 (item Items.status_queued)
unfolding ◌==◌ count_queued
first_item = record { at = refl; queued = refl; before = refl }

-- The extra is known as a failed download.
abbrev known : Outcome (Option Bytes)
known = ok (some Items.status_failed)

known-NotRejected : NotRejected known
unfolding ◌==◌
known-NotRejected status e r =
    let same : Items.status_failed ≡ bytes "rejected" = cc (e, r) in
    let no : false ≡ true = ap (λ x. x == bytes "rejected") same in cc no

process_queue_item_example :
    Holds item_codec
      (list_at
        (process_queue_item mem_store item_codec downloads 1
          (item Items.status_queued)
          known
          loaded
          8).store
        download_queue)
      (set items 1 (finished (final_status loaded) (item Items.status_queued)))
    × (suc (count_queued (set items 1 (finished (final_status loaded) (item Items.status_queued))))
        ≡ count_queued items)
unfolding ◌==◌ find finished final_status downloading
process_queue_item_example =
    process_queue_item-progress mem_store mem_store-IsListStore item_codec downloads items 1
      (item Items.status_queued) known loaded 8 Items.status_queued (bytes "downloading")
      (bytes "downloaded") known-NotRejected tt refl first_item tt tt tt
      (record { written = refl; read = refl }) (record { written = refl; read = refl })
      (record { written = refl; read = refl }) refl other_items

download_item_example :
    Replaced mem_store downloads.store download_queue
      (set (list_at downloads.store download_queue) 1 (bytes "downloaded"))
      (
        ok tt,
        (download_item mem_store item_codec downloads 1 (item Items.status_queued) loaded 8).store,
      )
unfolding ◌==◌ find finished final_status downloading
download_item_example =
    download_item-Replaced mem_store mem_store-IsListStore item_codec downloads items 1
      (item Items.status_queued) loaded 8 Items.status_queued (bytes "downloading")
      (bytes "downloaded") tt refl refl tt tt tt (record { written = refl; read = refl })
      (record { written = refl; read = refl }) (record { written = refl; read = refl }) refl refl
      other_items

diff_example :
    Changed items
      (item (bytes "downloaded") ∷ item Items.status_queued ∷ [])
      (Items.diff_download_queue items (item (bytes "downloaded") ∷ item Items.status_queued ∷ []))
diff_example =
    diff_download_queue-Changed items (item (bytes "downloaded") ∷ item Items.status_queued ∷ [])

-- Only the item whose status changed is reported.
diff_run :
    Items.diff_download_queue items (item (bytes "downloaded") ∷ item Items.status_queued ∷ [])
    ≡ item (bytes "downloaded") ∷ []
unfolding Items.diff_download_queue Items.index_loop Items.changed_loop find insert ◌==◌
diff_run = refl

-- The items that occur: the sample with some status.
abbrev IsSample : DownloadQueueItem → Type 0
IsSample q = (s : Bytes) × (q ≡ item s)

sample-Encodes :
    (q : DownloadQueueItem) → IsSample q → (b : Bytes) × Encodes item_codec q b × Unit {0}
sample-Encodes q (s, e) =
    subst (λ x. (b : Bytes) × Encodes item_codec x b × Unit {0}) (sym e)
      (s, record { written = refl; read = refl }, tt)

downloading-IsSample : (q : DownloadQueueItem) → IsSample q → IsSample (downloading q)
unfolding downloading
downloading-IsSample q (s, e) = (bytes "downloading", ap downloading e)

finished-IsSample :
    (q : DownloadQueueItem) → IsSample q → IsSample (finished (final_status loaded) q)
unfolding finished final_status ◌==◌
finished-IsSample q (s, e) = (bytes "downloaded", ap (finished (final_status loaded)) e)

samples : AllOf IsSample items
samples zero q e = let same : item (bytes "failed") ≡ q = cc e in (bytes "failed", sym same)
samples (suc zero) q e =
    let same : item Items.status_queued ≡ q = cc e in (Items.status_queued, sym same)
samples (suc (suc j)) q e = let no : ⊥ = cc e in absurd no

not_first :
    (q : DownloadQueueItem)
    → get_elem? items 0 ≡ some q
    → (q.status == Items.status_queued) ≡ true
    → ⊥
unfolding ◌==◌
not_first q e y =
    let same : item (bytes "failed") ≡ q = cc e in
    let no : false ≡ true = ap (λ x. x.status == Items.status_queued) same ∙ y in cc no

past_items : (j : ℕ) (q : DownloadQueueItem) → get_elem? items (suc (suc j)) ≡ some q → ⊥
past_items j q e = cc e

items-QueuedOnce : QueuedOnce items
items-QueuedOnce zero j q a b y = absurd (not_first q a y)
items-QueuedOnce (suc i) zero q a b y = absurd (not_first q b y)
items-QueuedOnce (suc zero) (suc zero) q a b y = refl
items-QueuedOnce (suc (suc i)) (suc j) q a b y = absurd (past_items i q a)
items-QueuedOnce (suc zero) (suc (suc j)) q a b y = absurd (past_items j q b)

work_example :
    Drained mem_store mem_store-IsListStore item_codec
      (work mem_store item_codec (λ _. known) (λ _. loaded) 8 1 downloads)
      2
unfolding ◌==◌ find count_queued final_status
work_example =
    work-Drained mem_store mem_store-IsListStore item_codec IsSample (λ _. known) (λ _. loaded) 8
      sample-Encodes downloading-IsSample finished-IsSample tt (λ _ _. known-NotRejected)
      (λ _. refl) 1 downloads items
      (record { valid = tt; held = refl; once = items-QueuedOnce; all = samples }) refl
