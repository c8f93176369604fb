-- ===== src/Downloads/Worker/Progress.antt =====
-- A round of the worker: processQueueItem on what NextQueuedItem gave.
use trailarr.Prelude.{
  ℕ, suc, ◌≡◌, ◌≢◌, refl, sym, subst, true, false, Option, none, some, List, get_elem?, set, Bytes,
  bytes, ◌==◌, ==_ne,
}
use trailarr.Prelude.Int.{pos}
use trailarr.Store.Outcome.{Outcome, ok, err}
use trailarr.Store.Spec.{ListStore, IsListStore, Replaced, remove_count}
use trailarr.Store.Log.{view-Replaced}
use trailarr.Json.{Codec, Encodes, Holds, Holds-set}
use trailarr.Downloads.Items.{DownloadQueueItem, status_queued, status_rejected}
use trailarr.Downloads.Worker.{
  Download, Downloads, download_queue, downloading, finished, final_status, skip_rejected_extra,
  process_queue_item,
}
use trailarr.Downloads.Worker.Next.{is_queued, count_queued, count_queued-set, IsFirstQueued}
use trailarr.Downloads.Worker.Process.{finished-status, download_item-Replaced, marshalled}

-- The lookup failed, found nothing, or found an extra with another status.
abbrev pub NotRejected : Outcome (Option Bytes) → Type 0
NotRejected lookup = (status : Bytes) → lookup ≡ ok (some status) → status ≢ bytes "rejected"

pub NotRejected-skip :
    (S : ListStore) (C : Codec DownloadQueueItem) (w : Downloads S C) (item : DownloadQueueItem)
    (lookup : Outcome (Option Bytes))
    → NotRejected lookup
    → skip_rejected_extra S C w item lookup ≡ (false, w)
unfolding skip_rejected_extra
NotRejected-skip S C w item (err e) n = refl
NotRejected-skip S C w item (ok none) n = refl
NotRejected-skip S C w item (ok (some status)) n =
    rw (skip_rejected_extra, ==_ne status status_rejected (n status refl)) refl

module _ (S : ListStore) (laws : IsListStore S) (C : Codec DownloadQueueItem) where
  -- On a store that keeps the promise, an item whose extra is rejected is not downloaded: the
  -- first entry that equals its encoding is removed, and the other lists stay.
  pub process_queue_item-rejected :
      (w : Downloads S C) (i : ℕ) (item : DownloadQueueItem) (status b : Bytes) (result : Download)
      (now : ℕ)
      → S.IsValid w.store
      → S.KeyFits download_queue
      → (status == status_rejected) ≡ true
      → C.marshal item ≡ some b
      → Replaced S w.store download_queue
          (remove_count (pos 1) b (S.view w.store download_queue))
          (ok tt, (process_queue_item S C w i item (ok (some status)) result now).store)
  unfolding process_queue_item skip_rejected_extra
  process_queue_item-rejected w i item status b result now h short r m =
      rw (process_queue_item, skip_rejected_extra, r)
        (subst
          (λ x.
            Replaced S w.store download_queue
              (remove_count (pos 1) b (S.view w.store download_queue))
              (ok tt, (S.lrem w.store download_queue (pos 1) x).1))
          (sym (marshalled S laws C item b m))
          (let q = laws.lrem_lem w.store download_queue (pos 1) b h short in
            record { returned = refl; valid = q.valid; views = q.views }))

  -- On a store that keeps the promise, for the first queued item, which no other entry equals, a
  -- final status other than "queued" and encodings that fit, if the lookup of its extra fails,
  -- finds nothing or finds a status other than "rejected": processQueueItem leaves the finished
  -- item in its place, and one queued item less.
  pub process_queue_item-progress :
      (w : Downloads S C) (items : List DownloadQueueItem) (i : ℕ) (item : DownloadQueueItem)
      (lookup : Outcome (Option Bytes)) (result : Download) (now : ℕ) (queued marked done : Bytes)
      → NotRejected lookup
      → S.IsValid w.store
      → Holds C (S.view w.store download_queue) items
      → IsFirstQueued items i item
      → S.KeyFits download_queue
      → S.ValueFits marked
      → S.ValueFits done
      → Encodes C item queued
      → Encodes C (downloading item) marked
      → Encodes C (finished (final_status result) item) done
      → ((final_status result).0 == status_queued) ≡ false
      → ((j : ℕ) → i ≢ j → (q : DownloadQueueItem) → get_elem? items j ≡ some q → q ≢ item)
      → Holds C
          (S.view (process_queue_item S C w i item lookup result now).store download_queue)
          (set items i (finished (final_status result) item))
        × (suc (count_queued (set items i (finished (final_status result) item)))
            ≡ count_queued items)
  unfolding process_queue_item
  process_queue_item-progress w items i item lookup result now queued marked done n h held f short
        fits fits' e e' e'' is only =
      let final = finished (final_status result) item in
      let r =
        download_item-Replaced S laws C w items i item result now queued marked done h held f.at
          short fits fits' e e' e'' f.queued is only in
      let seen = view-Replaced S laws w.store download_queue _ _ r in
      let ends : is_queued final ≡ false =
        subst (λ s. (s == status_queued) ≡ false) (sym (finished-status (final_status result) item))
          is in
      (
        rw (process_queue_item, NotRejected-skip S C w item lookup n)
            (subst (λ vs. Holds C vs (set items i final)) (sym seen)
              (Holds-set C (S.view w.store download_queue) items i done final held e''.read)),
        count_queued-set items i item final f.at f.queued ends,
      )
