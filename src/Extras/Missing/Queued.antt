-- ===== src/Extras/Missing/Queued.antt =====
-- Which extras are queued, and what the queue holds afterwards.
use trailarr.Prelude.{
  ℕ, suc, ◌≡◌, refl, sym, ap, subst, ◌∙◌, Bool, true, false, ◌&&◌, not, some, List, [], ◌∷◌, ◌++◌,
  map, length, Bytes, ◌==◌, ==_iff, arith, if◌then◌else◌, Bool-cases, inl, inr,
}
use trailarr.Prelude.Int.{ℤ}
use trailarr.Prelude.Maps.{GoMap}
use trailarr.Slices.{filter}
use trailarr.Slices.Filtered.{AllPass, AllPass-filter}
use trailarr.Store.Outcome.{ok}
use trailarr.Store.Spec.{ListStore, IsListStore, Replaced}
use trailarr.Store.Rewrite.{push_each, AllFit, appended}
use trailarr.Json.{Codec}
use trailarr.Downloads.Items.{
  DownloadQueueItem, CachedMedia, status_queued, status_rejected, fill_media_title_if_missing,
}
use trailarr.Downloads.Worker.{Downloads, download_queue, add_to_download_queue}
use trailarr.Settings.Sections.{ExtraTypesConfig}
use trailarr.Extras.Merge.{Extra, RejectedExtra}
use trailarr.Extras.Missing.{
  status_missing, rejected_ids, is_rejected_id, mark_rejected_extras, is_enabled,
  should_download_extra, is_download_due, item_of, handle_extra_download, download_loop,
  filter_and_download_extras,
}

missing-not-rejected :
    (st : Bytes) → (st == status_missing) ≡ true → (st == status_rejected) ≡ false
unfolding ◌==◌
missing-not-rejected st h =
    let e : st ≡ status_missing = (==_iff st status_missing).0 h in
    subst (λ x. (x == status_rejected) ≡ false) (sym e) refl

module _ (mapping : GoMap Bytes) (cfg : ExtraTypesConfig) where
  -- What is missing, has an id and is of an enabled type.
  abbrev pub is_wanted : Extra → Bool
  is_wanted e = e.status == status_missing && not (e.youtube_id == []) && is_enabled mapping cfg e

  should-wanted : (e : Extra) → should_download_extra mapping cfg e ≡ is_wanted e
  unfolding should_download_extra
  should-wanted e = elim (Bool-cases (e.status == status_missing)) [
    | inl y ↦ rw (should_download_extra, y, missing-not-rejected e.status y) (ground arith)
    | inr n ↦ rw (should_download_extra, n) refl
  ]

  pub due-wanted : (e : Extra) → is_download_due mapping cfg false e ≡ is_wanted e
  unfolding is_download_due
  due-wanted e = elim (Bool-cases (e.status == status_missing)) [
    | inl y ↦ rw (is_download_due, y, missing-not-rejected e.status y) (ground arith)
    | inr n ↦ rw (is_download_due, n) (ground arith)
  ]

  pub rejected-unwanted : (e : Extra) → is_wanted (record e { status = status_rejected }) ≡ false
  unfolding ◌==◌
  rejected-unwanted e = refl

  -- Marking the rejected extras and then filtering is filtering the extras that are not rejected.
  filter-marked :
      (ids : GoMap Bool) (extras : List Extra)
      → filter (mark_rejected_extras ids extras) (should_download_extra mapping cfg)
        ≡ filter extras (λ e. not (is_rejected_id ids e.youtube_id) && is_wanted e)
  unfolding filter mark_rejected_extras
  filter-marked ids [] = refl
  filter-marked ids (e ∷ extras) = elim (Bool-cases (is_rejected_id ids e.youtube_id)) [
    | inl y ↦
        rw (y, should-wanted (record e { status = status_rejected }), rejected-unwanted e)
          (filter-marked ids extras)
    | inr n ↦
        rw (n, should-wanted e)
          (ap (λ rest. if is_wanted e then e ∷ rest else rest) (filter-marked ids extras))
  ]

module _ (S : ListStore) (C : Codec DownloadQueueItem) (media_type : Bytes) (media_id : ℤ)
    (items : List CachedMedia) (clock : ℕ → ℕ) where
  -- The entry that AddToDownloadQueue makes of an extra.
  unfoldable pub queued_item : Extra → ℕ → DownloadQueueItem
  queued_item e now =
      record (fill_media_title_if_missing (item_of S C media_type media_id items clock e) items) {
        status = status_queued;
        queued_at = now;
      }

  unfoldable pub queued_items : List Extra → ℕ → List DownloadQueueItem
  queued_items [] k = []
  queued_items (e ∷ extras) k = queued_item e (clock k) ∷ queued_items extras (suc k)

  add-pushed :
      (w : Downloads S C) (e : Extra) (now : ℕ) (b : Bytes)
      → C.marshal (queued_item e now) ≡ some b
      → (add_to_download_queue S C w
          (item_of S C media_type media_id items clock e)
          items
          now).store
        ≡ (S.rpush w.store download_queue b).1
  unfolding add_to_download_queue queued_item
  add-pushed w e now b h = rw (add_to_download_queue, h) refl

  module _ (mapping : GoMap Bytes) (cfg : ExtraTypesConfig) where
    wanted_download :
        (w : Downloads S C) (e : Extra) (now : ℕ)
        → is_wanted mapping cfg e ≡ true
        → handle_extra_download S C media_type media_id items clock w e now
          ≡ add_to_download_queue S C w (item_of S C media_type media_id items clock e) items now
    unfolding handle_extra_download
    wanted_download w e now h =
        let m : (e.status == status_missing) ≡ true = ground (arith, h) in
        rw (handle_extra_download, missing-not-rejected e.status m) refl

    loop-pushed :
        (w : Downloads S C) (extras : List Extra) (k : ℕ) (bs : List Bytes)
        → AllPass (should_download_extra mapping cfg) extras
        → map C.marshal (queued_items extras k) ≡ map some bs
        → (download_loop S C media_type media_id items clock w extras k).store
          ≡ push_each S download_queue w.store bs
    unfolding download_loop push_each queued_items
    loop-pushed w [] k [] a h = refl
    loop-pushed w [] k (b ∷ bs) a h = let no : ⊥ = cc h in absurd no
    loop-pushed w (e ∷ extras) k [] a h = let no : ⊥ = cc h in absurd no
    loop-pushed w (e ∷ extras) k (b ∷ bs) (p, a) h =
        let head : C.marshal (queued_item e (clock k)) ≡ some b = cc h in
        let tail : map C.marshal (queued_items extras (suc k)) ≡ map some bs = cc h in
        let next = handle_extra_download S C media_type media_id items clock w e (clock k) in
        loop-pushed next extras (suc k) bs a tail
        ∙ ap (λ s. push_each S download_queue s bs)
            (ap (λ x. x.store)
                (wanted_download w e (clock k) (sym (should-wanted mapping cfg e) ∙ p))
              ∙ add-pushed w e (clock k) b head)

    -- On a store that keeps the promise, with encodings that fit and room for them:
    -- filterAndDownloadExtras appends to the download queue, in order, an entry for each extra
    -- whose id is not rejected, that is missing, has an id and is of an enabled type, and changes
    -- no other list.
    pub filter_and_download_extras-Queued :
        (laws : IsListStore S) (w : Downloads S C) (extras : List Extra)
        (rejected : List RejectedExtra) (bs : List Bytes)
        → S.IsValid w.store
        → S.KeyFits download_queue
        → AllFit S bs
        → S.Room w.store download_queue (length bs)
        → map C.marshal (
            queued_items
              (filter extras (λ e.
                not (is_rejected_id (rejected_ids rejected) e.youtube_id)
                && is_wanted mapping cfg e))
              0)
          ≡ map some bs
        → Replaced S w.store download_queue (S.view w.store download_queue ++ bs) (
          ok tt,
          (filter_and_download_extras S C media_type media_id items clock mapping cfg w extras
              rejected).store,
        )
    unfolding filter_and_download_extras
    filter_and_download_extras-Queued laws w extras rejected bs h k f room m =
        let ids = rejected_ids rejected in
        let marked = mark_rejected_extras ids extras in
        let same = filter-marked mapping cfg ids extras in
        let e =
          loop-pushed w (filter marked (should_download_extra mapping cfg)) 0 bs
            (AllPass-filter (should_download_extra mapping cfg) marked)
            (ap (λ es. map C.marshal (queued_items es 0)) same ∙ m) in
        subst
          (λ t. Replaced S w.store download_queue (S.view w.store download_queue ++ bs) (ok tt, t))
          (sym e) (appended S laws download_queue k w.store bs h f room)
