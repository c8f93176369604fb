-- ===== src/Downloads/Worker/Drain.antt =====
-- The loop of the worker: how many rounds it needs.
use trailarr.Prelude.{
  ℕ, zero, suc, ◌≡◌, refl, ap, sym, subst, true, false, Option, some, List, [], ◌∷◌, length,
  length-set, get_elem?, set, Bytes, ◌==◌, arith, inl, inr, ◌⊎◌, Option-cases,
}
use trailarr.Store.Outcome.{Outcome}
use trailarr.Store.Spec.{ListStore, IsListStore}
use trailarr.Store.Log.{view-Replaced}
use trailarr.Json.{Codec, Encodes, Holds, Holds-set}
use trailarr.Downloads.Items.{DownloadQueueItem, status_queued}
use trailarr.Downloads.Worker.{
  Download, Downloads, download_queue, downloading, finished, final_status, next_queued_item,
  process_queue_item, work,
}
use trailarr.Downloads.Worker.Next.{
  is_queued, count_queued, count_queued-set, IsFirstQueued, IsNext, next_queued_item-IsNext,
}
use trailarr.Downloads.Worker.Process.{finished-status, download_item-Replaced}
use trailarr.Downloads.Worker.Progress.{NotRejected, NotRejected-skip}

get_elem?-set :
    (items : List DownloadQueueItem) (i j : ℕ) (f q : DownloadQueueItem)
    → get_elem? (set items i f) j ≡ some q
    → (q ≡ f) ⊎ (get_elem? items j ≡ some q)
get_elem?-set [] i j f q e = inr e
get_elem?-set (a ∷ items) zero zero f q e = let same : q ≡ f = cc e in inl same
get_elem?-set (a ∷ items) zero (suc j) f q e = inr e
get_elem?-set (a ∷ items) (suc i) zero f q e = inr e
get_elem?-set (a ∷ items) (suc i) (suc j) f q e = get_elem?-set items i j f q e

-- A queued item stands at one index only.
abbrev pub QueuedOnce : List DownloadQueueItem → Type 0
QueuedOnce items =
    (i j : ℕ) (q : DownloadQueueItem)
    → get_elem? items i ≡ some q
    → get_elem? items j ≡ some q
    → is_queued q ≡ true
    → i ≡ j

abbrev pub AllOf : (DownloadQueueItem → Type 0) → List DownloadQueueItem → Type 0
AllOf P items = (j : ℕ) (q : DownloadQueueItem) → get_elem? items j ≡ some q → P q

QueuedOnce-set :
    (items : List DownloadQueueItem) (k : ℕ) (f : DownloadQueueItem)
    → QueuedOnce items
    → is_queued f ≡ false
    → QueuedOnce (set items k f)
QueuedOnce-set items k f h d i j q a b y =
    let differs : (q ≡ f) → ⊥ = λ s. let no : ⊥ = cc (ap is_queued s, d, y) in no in
    elim (get_elem?-set items k i f q a) [
      | inl s ↦ absurd (differs s)
      | inr a' ↦ elim (get_elem?-set items k j f q b) [
        | inl s ↦ absurd (differs s)
        | inr b' ↦ h i j q a' b' y
      ]
    ]

AllOf-set :
    (P : DownloadQueueItem → Type 0) (items : List DownloadQueueItem) (k : ℕ)
    (f : DownloadQueueItem)
    → AllOf P items
    → P f
    → AllOf P (set items k f)
AllOf-set P items k f h p j q e = elim (get_elem?-set items k j f q e) [
  | inl s ↦ subst P (sym s) p
  | inr e' ↦ h j q e'
]

module _ (S : ListStore) (laws : IsListStore S) (C : Codec DownloadQueueItem) where
  -- A store whose queue holds the items, each queued one once.
  pub record Loaded (P : DownloadQueueItem → Type 0) (w : Downloads S C)
      (items : List DownloadQueueItem) : Type 0 where
    pub valid : S.IsValid w.store
    pub held : Holds C (S.view w.store download_queue) items
    pub once : QueuedOnce items
    pub all : AllOf P items

  -- A queue of the same length in which no item is queued.
  pub record Drained (w : Downloads S C) (n : ℕ) : Type 0 where
    pub items : List DownloadQueueItem
    pub held : Holds C (S.view w.store download_queue) items
    pub size : length items ≡ n
    pub done : count_queued items ≡ 0

  -- `P` describes the items that occur: each has an encoding that fits, and stays such an item when
  -- it is downloading and when it is finished.
  module _ (P : DownloadQueueItem → Type 0) (lookup : DownloadQueueItem → Outcome (Option Bytes))
      (result : DownloadQueueItem → Download) (now : ℕ)
      (encodes : (q : DownloadQueueItem) → P q → (b : Bytes) × Encodes C q b × S.ValueFits b)
      (starts : (q : DownloadQueueItem) → P q → P (downloading q))
      (ends : (q : DownloadQueueItem) → P q → P (finished (final_status (result q)) q))
      (short : S.KeyFits download_queue)
      (allowed : (q : DownloadQueueItem) → P q → NotRejected (lookup q))
      (final : (q : DownloadQueueItem)
        → ((final_status (result q)).0 == status_queued) ≡ false) where
    round-Loaded :
        (w : Downloads S C) (items : List DownloadQueueItem) (i : ℕ) (item : DownloadQueueItem)
        → Loaded P w items
        → IsFirstQueued items i item
        → Loaded P
            (process_queue_item S C w i item (lookup item) (result item) now)
            (set items i (finished (final_status (result item)) item))
          × (suc (count_queued (set items i (finished (final_status (result item)) item)))
              ≡ count_queued items)
    unfolding process_queue_item
    round-Loaded w items i item l f =
        let p = l.all i item f.at in
        let g = finished (final_status (result item)) item in
        let (queued, e, _) = encodes item p in
        let (marked, e', fits) = encodes (downloading item) (starts item p) in
        let (done, e'', fits') = encodes g (ends item p) in
        let r =
          download_item-Replaced S laws C w items i item (result item) now queued marked done
            l.valid l.held f.at short fits fits' e e' e'' f.queued (final item)
            (λ j d q at same.
              d (
                l.once i j item f.at (subst (λ x. get_elem? items j ≡ some x) same at) f.queued)) in
        let ended : is_queued g ≡ false =
          subst (λ s. (s == status_queued) ≡ false)
            (sym (finished-status (final_status (result item)) item)) (final item) in
        let seen = view-Replaced S laws w.store download_queue _ _ r in
        (
          rw (process_queue_item, NotRejected-skip S C w item (lookup item) (allowed item p))
              (record {
                valid = r.valid;
                held =
                    subst (λ vs. Holds C vs (set items i g)) (sym seen)
                      (Holds-set C (S.view w.store download_queue) items i done g l.held e''.read);
                once = QueuedOnce-set items i g l.once ended;
                all = AllOf-set P items i g l.all (ends item p);
              }),
          count_queued-set items i item g f.at f.queued ended,
        )

    -- On a store that keeps the promise, if no two queued items are equal, every item that occurs
    -- has an encoding that fits and a lookup that fails, finds nothing or finds a status other
    -- than "rejected", and no download ends as "queued": after as many rounds as there are queued
    -- items the worker has none left, and the queue is as long as before.
    pub work-Drained :
        (n : ℕ) (w : Downloads S C) (items : List DownloadQueueItem)
        → Loaded P w items
        → count_queued items ≡ n
        → Drained (work S C lookup result now n w) (length items)
    unfolding work
    work-Drained zero w items l c = record { items = items; held = l.held; size = refl; done = c }
    work-Drained (suc n) w items l c =
        let next = next_queued_item-IsNext S laws C w.store items l.valid l.held in
        elim (Option-cases (next_queued_item S C w.store)) [
          | inl e ↦
              let none_left : count_queued items ≡ 0 = subst (IsNext items) e next in
              absurd (omega arith)
          | inr ((i, item), e) ↦
              let f : IsFirstQueued items i item = subst (IsNext items) e next in
              let g = finished (final_status (result item)) item in
              let (l', less) = round-Loaded w items i item l f in
              rw (work, e)
                (subst
                  (Drained (
                    work S C lookup result now n
                      (process_queue_item S C w i item (lookup item) (result item) now)))
                  (length-set items i g) (work-Drained n _ (set items i g) l' (omega arith)))
        ]
