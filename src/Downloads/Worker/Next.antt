-- ===== src/Downloads/Worker/Next.antt =====
-- NextQueuedItem, and how many queued items there are.
use trailarr.Prelude.{
  ℕ, zero, suc, ◌+◌, ◌≡◌, refl, ap, sym, subst, Bool, true, false, Option, none, some, List, [],
  ◌∷◌, get_elem?, set, take, Bytes, ◌==◌, arith, if◌then◌else◌, inl, inr, Bool-cases,
}
use trailarr.Store.Spec.{ListStore, IsListStore}
use trailarr.Store.Log.{read_all}
use trailarr.Json.{Codec, Holds}
use trailarr.Downloads.Items.{DownloadQueueItem, status_queued}
use trailarr.Downloads.Worker.{download_queue, next_from, next_queued_item}

abbrev pub is_queued : DownloadQueueItem → Bool
is_queued item = item.status == status_queued

unfoldable pub count_queued : List DownloadQueueItem → ℕ
count_queued [] = 0
count_queued (q ∷ qs) = if is_queued q then suc (count_queued qs) else count_queued qs

-- `i` is the index of the first queued item, `item`.
pub record IsFirstQueued (items : List DownloadQueueItem) (i : ℕ) (item : DownloadQueueItem)
    : Type 0 where
  pub at : get_elem? items i ≡ some item
  pub queued : is_queued item ≡ true
  pub before : count_queued (take i items) ≡ 0

-- With `n` entries before the list.
abbrev Found : ℕ → List DownloadQueueItem → Option (ℕ × DownloadQueueItem) → Type 0
Found n items none = count_queued items ≡ 0
Found n items (some (i, item)) = (k : ℕ) × (i ≡ n + k) × IsFirstQueued items k item

Found-later :
    (n : ℕ) (q : DownloadQueueItem) (items : List DownloadQueueItem)
    (o : Option (ℕ × DownloadQueueItem))
    → is_queued q ≡ false
    → Found (n + 1) items o
    → Found n (q ∷ items) o
unfolding count_queued
Found-later n q items none d h = rw (count_queued, d) h
Found-later n q items (some (i, item)) d (k, e, f) = (
  suc k,
  omega arith,
  record { at = f.at; queued = f.queued; before = rw (count_queued, d) f.before },
)

next_from-Found :
    (C : Codec DownloadQueueItem) (n : ℕ) (vs : List Bytes) (items : List DownloadQueueItem)
    → Holds C vs items
    → Found n items (next_from C n vs)
unfolding next_from count_queued
next_from-Found C n [] [] h = refl
next_from-Found C n [] (q ∷ items) h = let no : ⊥ = cc h in absurd no
next_from-Found C n (v ∷ vs) [] h = let no : ⊥ = cc h in absurd no
next_from-Found C n (v ∷ vs) (q ∷ items) h =
    let head : C.unmarshal v ≡ some q = cc h in
    let tail : Holds C vs items = cc h in
    elim (Bool-cases (is_queued q)) [
      | inl y ↦
          rw (next_from, head, y) (0, omega arith, record { at = refl; queued = y; before = refl })
      | inr y ↦
          rw (next_from, head, y)
            (Found-later n q items (next_from C (n + 1) vs) y
              (next_from-Found C (n + 1) vs items tail))
    ]

-- What a result of NextQueuedItem says of the queue.
abbrev pub IsNext : List DownloadQueueItem → Option (ℕ × DownloadQueueItem) → Type 0
IsNext items none = count_queued items ≡ 0
IsNext items (some (i, item)) = IsFirstQueued items i item

Found-IsNext :
    (items : List DownloadQueueItem) (o : Option (ℕ × DownloadQueueItem))
    → Found 0 items o
    → IsNext items o
Found-IsNext items none h = h
Found-IsNext items (some (i, item)) (k, e, f) =
    subst (λ j. IsFirstQueued items j item) (let s : k ≡ i = omega arith in s) f

module _ (S : ListStore) (laws : IsListStore S) (C : Codec DownloadQueueItem) where
  -- On a store that keeps the promise, with entries that decode, NextQueuedItem gives the first
  -- queued item and its index, and nothing only if no item is queued.
  pub next_queued_item-IsNext :
      (s : S.State) (items : List DownloadQueueItem)
      → S.IsValid s
      → Holds C (S.view s download_queue) items
      → IsNext items (next_queued_item S C s)
  unfolding next_queued_item
  next_queued_item-IsNext s items h held =
      rw (next_queued_item, read_all S laws s download_queue h)
        (Found-IsNext items (next_from C 0 (S.view s download_queue))
          (next_from-Found C 0 (S.view s download_queue) items held))

-- Finishing a queued item takes it out of the count.
pub count_queued-set :
    (items : List DownloadQueueItem) (i : ℕ) (item f : DownloadQueueItem)
    → get_elem? items i ≡ some item
    → is_queued item ≡ true
    → is_queued f ≡ false
    → suc (count_queued (set items i f)) ≡ count_queued items
unfolding count_queued
count_queued-set [] i item f e a b = let no : ⊥ = cc e in absurd no
count_queued-set (q ∷ items) zero item f e a b =
    let same : q ≡ item = cc e in
    let queued : is_queued q ≡ true = subst (λ x. is_queued x ≡ true) (sym same) a in
    rw (b, queued) refl
count_queued-set (q ∷ items) (suc i) item f e a b =
    let rest = count_queued-set items i item f e a b in
    elim (Bool-cases (is_queued q)) [ inl y ↦ rw y (ap suc rest) | inr y ↦ rw y rest ]
