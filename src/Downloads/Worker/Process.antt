-- ===== src/Downloads/Worker/Process.antt =====
-- processQueueItem: what it leaves in the store.
use trailarr.Prelude.{
  ℕ, zero, suc, ◌<◌, ◌≡◌, ◌≢◌, refl, ap, ◌∙◌, sym, subst, true, false, some, List, [], ◌∷◌, length,
  length-set, get_elem?, get_elem?-length, get_elem?-set_self, set, set-set, Bytes, ◌==◌, ==_iff,
  arith, inl, inr, Bool-cases,
}
use trailarr.Prelude.Int.{pos}
use trailarr.Store.Outcome.{ok}
use trailarr.Store.Spec.{ListStore, IsListStore, Replaced, remove_count, remove_first}
use trailarr.Store.Log.{read_all, Replaced-next, view-Replaced}
use trailarr.Json.{Codec, Encodes, Holds, Holds-set, entry, entry-Holds, length-Holds}
use trailarr.Downloads.Items.{DownloadQueueItem, status_queued}
use trailarr.Downloads.Worker.{
  Download, Downloads, download_queue, downloading, finished, final_status, marshal_or_nil,
  mark_item_downloading, update_final_status_in_store, download_item,
}

pub finished-status : (f : Bytes × Bytes) (q : DownloadQueueItem) → (finished f q).status ≡ f.0
unfolding finished
finished-status f q = ground arith

finished-downloading :
    (f : Bytes × Bytes) (q : DownloadQueueItem) → finished f (downloading q) ≡ finished f q
unfolding finished downloading
finished-downloading f q = refl

-- The value does not occur in the list.
abbrev pub Without : DownloadQueueItem → List DownloadQueueItem → Type 0
Without a [] = Unit {0}
Without a (q ∷ qs) = (q ≢ a) × Without a qs

Without-set :
    (a f : DownloadQueueItem) (qs : List DownloadQueueItem) (i : ℕ)
    → f ≢ a
    → ((j : ℕ) → i ≢ j → (q : DownloadQueueItem) → get_elem? qs j ≡ some q → q ≢ a)
    → Without a (set qs i f)
Without-set a f [] i h rest = tt
Without-set a f (q ∷ qs) zero h rest =
    (h, all qs (λ j p e. rest (suc j) (λ z. ground (arith, z)) p e))
  where
    all :
        (ps : List DownloadQueueItem)
        → ((j : ℕ) (p : DownloadQueueItem) → get_elem? ps j ≡ some p → p ≢ a)
        → Without a ps
    all [] k = tt
    all (p ∷ ps) k = (k 0 p refl, all ps (λ j. k (suc j)))
Without-set a f (q ∷ qs) (suc i) h rest = (
  rest 0 (λ z. ground (arith, z)) q refl,
  Without-set a f qs i h (λ j d p e. rest (suc j) (λ z. d (omega (arith, z))) p e),
)

remove_first-Without :
    (C : Codec DownloadQueueItem) (a : DownloadQueueItem) (b : Bytes) (n : ℕ) (vs : List Bytes)
    (qs : List DownloadQueueItem)
    → Holds C vs qs
    → C.unmarshal b ≡ some a
    → Without a qs
    → remove_first n b vs ≡ vs
unfolding remove_first
remove_first-Without C a b zero [] qs h e w = refl
remove_first-Without C a b zero (v ∷ vs) qs h e w = refl
remove_first-Without C a b (suc n) [] qs h e w = refl
remove_first-Without C a b (suc n) (v ∷ vs) [] h e w = let no : ⊥ = cc h in absurd no
remove_first-Without C a b (suc n) (v ∷ vs) (q ∷ qs) h e (d, w) =
    let head : C.unmarshal v ≡ some q = cc h in
    let tail : Holds C vs qs = cc h in
    elim (Bool-cases (v == b)) [
      | inl y ↦
          let same : v ≡ b = (==_iff v b).0 y in
          let eq : q ≡ a = cc (head, e, same) in absurd (d eq)
      | inr y ↦
          rw (remove_first, y) (ap (◌∷◌ v) (remove_first-Without C a b (suc n) vs qs tail e w))
    ]

module _ (S : ListStore) (laws : IsListStore S) (C : Codec DownloadQueueItem) where
  pub marshalled :
      (q : DownloadQueueItem) (b : Bytes) → C.marshal q ≡ some b → marshal_or_nil C q ≡ b
  marshalled q b m = rw (marshal_or_nil, m) refl

  mark-store :
      (w : Downloads S C) (i : ℕ) (item q : DownloadQueueItem) (b : Bytes) (now : ℕ)
      → S.IsValid w.store
      → entry C (S.view w.store download_queue) i ≡ some q
      → C.marshal (downloading q) ≡ some b
      → (mark_item_downloading S C w i item now).1.store
        ≡ (S.lset w.store download_queue (pos i) b).1
  unfolding mark_item_downloading
  mark-store w i item q b now h e m =
      rw (mark_item_downloading, read_all S laws w.store download_queue h, e)
        (ap (λ x. (S.lset w.store download_queue (pos i) x).1) (marshalled (downloading q) b m))

  update-store :
      (s : S.State) (i : ℕ) (final : Bytes × Bytes) (q : DownloadQueueItem) (b : Bytes)
      → S.IsValid s
      → entry C (S.view s download_queue) i ≡ some q
      → C.marshal (finished final q) ≡ some b
      → update_final_status_in_store S C s i final ≡ (ok tt, (S.lset s download_queue (pos i) b).1)
  unfolding update_final_status_in_store
  update-store s i final q b h e m =
      rw (update_final_status_in_store, read_all S laws s download_queue h, e)
        (ap (λ x. (ok tt, (S.lset s download_queue (pos i) x).1))
          (marshalled (finished final q) b m))

  -- One entry written, with the error dropped.
  lset-next :
      (s t : S.State) (i : ℕ) (vs : List Bytes) (b : Bytes)
      → Replaced S s download_queue vs (ok tt, t)
      → S.ValueFits b
      → i < length vs
      → Replaced S s download_queue (set vs i b) (ok tt, (S.lset t download_queue (pos i) b).1)
  lset-next s t i vs b a fits l =
      let seen : S.view t download_queue ≡ vs =
        view-Replaced S laws s download_queue vs (ok tt, t) a in
      Replaced-next S laws s t download_queue vs (set vs i b) (S.lset t download_queue (pos i) b) a
        (subst (λ xs. Replaced S t download_queue (set xs i b) (S.lset t download_queue (pos i) b))
          seen (laws.lset_lem t download_queue i b a.valid fits (rw seen l)))

  module _ (w : Downloads S C) (items : List DownloadQueueItem) (i : ℕ) (item : DownloadQueueItem)
      (result : Download) (now : ℕ) (queued marked done : Bytes) (valid : S.IsValid w.store)
      (held : Holds C (S.view w.store download_queue) items) (at : get_elem? items i ≡ some item)
      (short : S.KeyFits download_queue) (fits : S.ValueFits marked) (fits' : S.ValueFits done)
      (e : Encodes C item queued) (e' : Encodes C (downloading item) marked)
      (e'' : Encodes C (finished (final_status result) item) done) where
    abbrev vs : List Bytes
    vs = S.view w.store download_queue

    abbrev marked_store : S.State
    marked_store = (S.lset w.store download_queue (pos i) marked).1

    abbrev done_store : S.State
    done_store = (S.lset marked_store download_queue (pos i) done).1

    inside : i < length vs
    inside = omega (arith, length-Holds C vs items held, get_elem?-length items i item at)

    marked-Replaced : Replaced S w.store download_queue (set vs i marked) (ok tt, marked_store)
    marked-Replaced =
        lset-next w.store w.store i vs marked
          (record {
            returned = refl;
            valid = valid;
            views = λ j. ground (arith, ==_iff download_queue j);
          })
          fits inside

    done-Replaced : Replaced S w.store download_queue (set vs i done) (ok tt, done_store)
    done-Replaced =
        subst (λ xs. Replaced S w.store download_queue xs (ok tt, done_store))
          (set-set vs i marked done)
          (lset-next w.store marked_store i (set vs i marked) done marked-Replaced fits'
            (omega (arith, length-set vs i marked, inside)))

    entry-marked : entry C (S.view marked_store download_queue) i ≡ some (downloading item)
    entry-marked =
        let seen = view-Replaced S laws w.store download_queue _ _ marked-Replaced in
        rw seen (
          entry-Holds C (set vs i marked) (set items i (downloading item)) i
            (Holds-set C vs items i marked (downloading item) held e'.read)
          ∙ get_elem?-set_self items i (downloading item) (get_elem?-length items i item at))

    -- What the round does to the store: two writes of the entry and the removal of the old text.
    download_item-store :
        (download_item S C w i item result now).store
        ≡ (S.lrem done_store download_queue (pos 1) queued).1
    unfolding download_item downloading finished
    download_item-store =
        let m =
          mark-store w i item item marked now valid (entry-Holds C vs items i held ∙ at)
            e'.written in
        let u =
          update-store marked_store i (final_status result) (downloading item) done
            marked-Replaced.valid entry-marked e''.written in
        rw (download_item, m, u)
          (ap (λ b. (S.lrem done_store download_queue (pos 1) b).1)
            (marshalled item queued e.written))

    module _ (was : (item.status == status_queued) ≡ true)
        (is : ((final_status result).0 == status_queued) ≡ false)
        (only : (j : ℕ)
          → i ≢ j
          → (q : DownloadQueueItem) → get_elem? items j ≡ some q
          → q ≢ item) where
      finished-differs : finished (final_status result) item ≢ item
      finished-differs same =
          let s : (final_status result).0 ≡ item.status =
            sym (finished-status (final_status result) item) ∙ ap (λ q. q.status) same in
          let no : ⊥ = cc (was, is, s) in no

      -- On a store that keeps the promise, for a queued item at index `i` that no other entry
      -- equals and a final status other than "queued", with encodings that fit: steps 2 to 7 of
      -- processQueueItem end with the item still at index `i`, its entry holding the final status.
      -- The closing LRem removes nothing.
      pub download_item-Replaced :
          Replaced S w.store download_queue
            (set vs i done)
            (ok tt, (download_item S C w i item result now).store)
      unfolding remove_count
      download_item-Replaced =
          let final = finished (final_status result) item in
          let all : Holds C (set vs i done) (set items i final) =
            Holds-set C vs items i done final held e''.read in
          let kept : remove_count (pos 1) queued (set vs i done) ≡ set vs i done =
            remove_first-Without C item queued 1 (set vs i done) (set items i final) all e.read
              (Without-set item final items i finished-differs only) in
          let seen = view-Replaced S laws w.store download_queue _ _ done-Replaced in
          let removed : Replaced S done_store download_queue (set vs i done)
              (S.lrem done_store download_queue (pos 1) queued) =
            subst
              (λ xs.
                Replaced S done_store download_queue xs
                  (S.lrem done_store download_queue (pos 1) queued))
              (ap (remove_count (pos 1) queued) seen ∙ kept)
              (laws.lrem_lem done_store download_queue (pos 1) queued done-Replaced.valid short) in
          subst (λ s. Replaced S w.store download_queue (set vs i done) (ok tt, s))
            (sym download_item-store)
            (Replaced-next S laws w.store done_store download_queue _ _ _ done-Replaced removed)
