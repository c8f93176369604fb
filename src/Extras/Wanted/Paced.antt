-- ===== src/Extras/Wanted/Paced.antt =====
-- How the task queues the extras of a wanted item, internal/tasks.go: one at a time.
use trailarr.Prelude.{
  ℕ, zero, suc, ◌+◌, ◌≤◌, ◌<◌, ◌≡◌, refl, sym, ap, subst, ◌∙◌, Bool, true, false, some, List, [],
  ◌∷◌, take, length, Bytes, arith, Bool-cases, inl, inr, ◌⊎◌,
}
use trailarr.Prelude.Int.{ℤ}
use trailarr.Prelude.Maps.{GoMap}
use trailarr.Slices.{filter}
use trailarr.Store.Outcome.{Outcome, ok}
use trailarr.Store.Spec.{ListStore}
use trailarr.Json.{Codec}
use trailarr.Downloads.Items.{DownloadQueueItem, CachedMedia}
use trailarr.Downloads.Worker.{Downloads, load_queue_from_store, add_to_download_queue}
use trailarr.Settings.Sections.{ExtraTypesConfig}
use trailarr.Extras.Merge.{Extra, RejectedExtra}
use trailarr.Extras.Missing.{
  rejected_ids, mark_rejected_extras, mark_downloaded_extras, is_download_due, item_of,
}
use trailarr.Extras.Wanted.{
  fetch_extras_or_tmdb, handle_type_filtered_extra_download, process_loop, to_download,
  process_wanted_item,
}
use trailarr.Extras.Wanted.Due.{has_enabled_id, filter-tmdb, is_open, filter-local}
use trailarr.Extras.Wanted.Drain.{NoneQueued, iterate, DrainedFrom, wait-DrainedFrom}

module _ (S : ListStore) (C : Codec DownloadQueueItem) (media_type : Bytes) (media_id : ℤ)
    (items : List CachedMedia) (clock : ℕ → ℕ) (mapping : GoMap Bytes) (cfg : ExtraTypesConfig)
    (others : Downloads S C → Downloads S C) (cancelled : ℕ → Bool) where
  -- The extras are added in order, each when no item waits in the queue.
  pub data Paced : Downloads S C → List Extra → ℕ → Downloads S C → Type 0 where
    no_more : {w : Downloads S C} {k : ℕ} → Paced w [] k w
    one_more :
        {w : Downloads S C} {e : Extra} {extras : List Extra} {k : ℕ} {last : Downloads S C}
        (drained : Downloads S C)
        → DrainedFrom S C others w drained
        → Paced
            (add_to_download_queue S C drained
              (item_of S C media_type media_id items clock e)
              items
              (clock k))
            extras
            (suc k)
            last
        → Paced w (e ∷ extras) k last

  -- Whatever the queue holds, no item waits after some number of sleeps.
  abbrev pub Drains : Type 0
  Drains =
      (w : Downloads S C)
      → (d : ℕ) × NoneQueued (load_queue_from_store S C (iterate others d w).store)

  -- The context is cancelled before the extra number `m`, or there are no more than `m` extras.
  pub record StopsAt (extras : List Extra) (j m : ℕ) : Type 0 where
    pub before : (i : ℕ) → i < m → cancelled (j + i) ≡ false
    pub stops : (cancelled (j + m) ≡ true) ⊎ (length extras ≤ m)

  StopsAt-next :
      (e : Extra) (extras : List Extra) (j m : ℕ)
      → StopsAt (e ∷ extras) j (suc m)
      → StopsAt extras (suc j) m
  StopsAt-next e extras j m s = record {
    before = λ i l.
        let moved : j + suc i ≡ suc j + i = omega arith in
        subst (λ x. cancelled x ≡ false) moved (s.before (suc i) (omega (arith, l)));
    stops =
        let moved : j + suc m ≡ suc j + m = omega arith in
        elim s.stops [
          | inl c ↦ inl (subst (λ x. cancelled x ≡ true) moved c)
          | inr l ↦ inr (omega (arith, l))
        ];
  }

  -- From some number of polls on, the loop ends in the same state.
  abbrev Ends : Bool → Downloads S C → List Extra → ℕ → ℕ → ℕ → Type 0
  Ends used w extras j k m =
      (last : Downloads S C) × (enough : ℕ) × ((polls : ℕ)
        → enough ≤ polls
        → process_loop S C media_type media_id items clock mapping cfg others polls cancelled used w
            extras j k
          ≡ some last)
      × Paced w (filter (take m extras) (is_download_due mapping cfg used)) k last

  loop-Ends :
      (used : Bool) (w : Downloads S C) (extras : List Extra) (j k m : ℕ)
      → Drains
      → StopsAt extras j m
      → Ends used w extras j k m
  unfolding process_loop filter handle_type_filtered_extra_download
  loop-Ends used w [] j k zero dr s = (w, 0, (λ polls l. refl), no_more)
  loop-Ends used w [] j k (suc m) dr s = (w, 0, (λ polls l. refl), no_more)
  loop-Ends used w (e ∷ extras) j k zero dr s = elim s.stops [
    | inr l ↦ absurd (omega (arith, l))
    | inl c ↦
        let c' : cancelled j ≡ true =
          subst (λ x. cancelled x ≡ true) (let z : j + 0 ≡ j = omega arith in z) c in
        (w, 0, (λ polls l. rw (process_loop, c') refl), no_more)
  ]
  loop-Ends used w (e ∷ extras) j k (suc m) dr s =
      let c : cancelled j ≡ false =
        subst (λ x. cancelled x ≡ false) (let z : j + 0 ≡ j = omega arith in z)
          (s.before 0 (omega arith)) in
      let s' = StopsAt-next e extras j m s in
      elim (Bool-cases (is_download_due mapping cfg used e)) [
        | inr n ↦
            let (last, enough, ends, p) = loop-Ends used w extras (suc j) k m dr s' in
            (last, enough, (λ polls l. rw (process_loop, c, n) (ends polls l)), rw n p)
        | inl y ↦
            let (d, h) = dr w in
            let (drained, r, waited) = wait-DrainedFrom S C others d w h in
            let next =
              add_to_download_queue S C drained (item_of S C media_type media_id items clock e)
                items (clock k) in
            let (last, enough, ends, p) = loop-Ends used next extras (suc j) (suc k) m dr s' in
            (
              last,
              d + enough,
              λ polls l.
                  rw
                    (
                      process_loop,
                      c,
                      y,
                      handle_type_filtered_extra_download,
                      waited polls (omega (arith, l)),
                    )
                    (ends polls (omega (arith, l))),
              rw y (one_more drained r p),
            )
      ]

  length-mark_rejected :
      (rejected : List RejectedExtra) (extras : List Extra)
      → length (mark_rejected_extras (rejected_ids rejected) extras) ≡ length extras
  unfolding mark_rejected_extras
  length-mark_rejected rejected [] = refl
  length-mark_rejected rejected (e ∷ extras) = ap suc (length-mark_rejected rejected extras)

  module _ (equal_fold : Bytes → Bytes → Bool) (sanitize : Bytes → Bytes)
      (existing : List (Bytes × Bytes)) (rejected : List RejectedExtra) where
    length-mark_downloaded :
        (extras : List Extra)
        → length (mark_downloaded_extras equal_fold sanitize mapping existing extras)
          ≡ length extras
    unfolding mark_downloaded_extras
    length-mark_downloaded [] = refl
    length-mark_downloaded (e ∷ extras) = ap suc (length-mark_downloaded extras)

    -- What is queued of the first `m` extras: all with an id and of an enabled type, if they come
    -- from TMDB; else those that are missing on disk as well and not rejected.
    abbrev pub to_queue : Bool → List Extra → ℕ → List Extra
    to_queue true extras m = filter (take m extras) (has_enabled_id mapping cfg)
    to_queue false extras m =
        filter (take m (mark_downloaded_extras equal_fold sanitize mapping existing extras))
          (is_open mapping cfg rejected)

    abbrev downloads : Bool → List Extra → List Extra
    downloads used extras =
        to_download S C media_type media_id items clock mapping cfg others 0 cancelled equal_fold
          sanitize existing rejected used extras

    downloads-to_queue :
        (used : Bool) (extras : List Extra) (m : ℕ)
        → filter (take m (downloads used extras)) (is_download_due mapping cfg used)
          ≡ to_queue used extras m
    unfolding to_download
    downloads-to_queue true extras m = filter-tmdb mapping cfg (take m extras)
    downloads-to_queue false extras m =
        filter-local mapping cfg rejected
          (mark_downloaded_extras equal_fold sanitize mapping existing extras) m

    length-downloads :
        (used : Bool) (extras : List Extra) → length (downloads used extras) ≡ length extras
    unfolding to_download
    length-downloads true extras = refl
    length-downloads false extras =
        length-mark_rejected rejected
          (mark_downloaded_extras equal_fold sanitize mapping existing extras)
        ∙ length-mark_downloaded extras

    -- If extras and a path of the media are found, the context is cancelled before the extra
    -- number `m` and not before (or there are no more than `m` extras), and whatever the download
    -- queue holds, after some number of sleeps none of its items is queued: processWantedItem
    -- returns, and of the first `m` extras it adds those to queue (from TMDB, those with an id and
    -- of an enabled type; else those that are also missing on disk and not rejected), in order,
    -- each when no item of the queue is queued.
    pub process_wanted_item-Paced :
        (search tmdb : Outcome (List Extra)) (media_path : Outcome Bytes) (w : Downloads S C)
        (used : Bool) (x : Extra) (extras : List Extra) (c : ℕ) (path : Bytes) (m : ℕ)
        → fetch_extras_or_tmdb search tmdb ≡ ok (x ∷ extras, used)
        → media_path ≡ ok (c ∷ path)
        → StopsAt (x ∷ extras) 0 m
        → Drains
        → (last : Downloads S C) × (enough : ℕ) × ((polls : ℕ)
            → enough ≤ polls
            → process_wanted_item S C media_type media_id items clock mapping cfg others polls
                cancelled equal_fold sanitize existing rejected search tmdb media_path w
              ≡ some last)
          × Paced w (to_queue used (x ∷ extras) m) 0 last
    unfolding process_wanted_item to_download
    process_wanted_item-Paced search tmdb media_path w used x extras c path m f p s dr =
        let stops : StopsAt (downloads used (x ∷ extras)) 0 m = record {
          before = s.before;
          stops = elim s.stops [
            | inl y ↦ inl y
            | inr l ↦ inr (subst (λ n. n ≤ m) (sym (length-downloads used (x ∷ extras))) l)
          ];
        } in
        let (last, enough, ends, r) =
          loop-Ends used w (downloads used (x ∷ extras)) 0 0 m dr stops in
        (
          last,
          enough,
          λ polls l. rw (process_wanted_item, f, p) (ends polls l),
          subst (λ es. Paced w es 0 last) (downloads-to_queue used (x ∷ extras) m) r,
        )
