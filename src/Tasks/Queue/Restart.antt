-- ===== src/Tasks/Queue/Restart.antt =====
-- What a start of the program does to the queue that the last process left.
use trailarr.Prelude.{
  ◌+◌, ◌<◌, ◌≡◌, refl, ap, ◌∙◌, sym, subst, ◌≢◌, bytes, Option-cases, Option, none, some, List, [],
  ◌∷◌, ◌++◌, map, length, length-append, set, Bytes, ◌==◌, ==_iff, arith, inl, inr, Bool-cases,
}
use mathlib.Core.List.{append_assoc}
use trailarr.Prelude.Int.{pos}
use trailarr.Store.Outcome.{ok}
use trailarr.Store.Spec.{ListStore, IsListStore, Replaced}
use trailarr.Store.Log.{read_all, Replaced-next, view-Replaced}
use trailarr.Store.Recent.{set-last}
use trailarr.Json.{Codec}
use trailarr.Tasks.Queue.{
  SyncQueueItem, task_queue_store_key, status_running, requeue_value, requeue_at, requeue_loop,
  requeue_running,
}

-- What becomes of an entry: one that does not decode or whose run was not running stays, and so does
-- one whose new run has no encoding; else the entry is the run with the status "queued".
pub data Requeues (C : Codec SyncQueueItem) (v : Bytes) : Bytes → Type 0 where
  undecodable : C.unmarshal v ≡ none → Requeues C v v
  not_running :
      (q : SyncQueueItem) → C.unmarshal v ≡ some q → q.status ≢ bytes "running" → Requeues C v v
  unwritable :
      (q : SyncQueueItem)
      → C.unmarshal v ≡ some q
      → q.status ≡ bytes "running"
      → C.marshal (record q { status = bytes "queued" }) ≡ none
      → Requeues C v v
  queued_again :
      (q : SyncQueueItem) (b : Bytes)
      → C.unmarshal v ≡ some q
      → q.status ≡ bytes "running"
      → C.marshal (record q { status = bytes "queued" }) ≡ some b
      → Requeues C v b

-- The same for every entry, at its own place.
pub data EachRequeued (C : Codec SyncQueueItem) : List Bytes → List Bytes → Type 0 where
  no_entry : EachRequeued C [] []
  entry_too :
      {v b : Bytes} {vs bs : List Bytes}
      → Requeues C v b
      → EachRequeued C vs bs
      → EachRequeued C (v ∷ vs) (b ∷ bs)

unfoldable requeued : Codec SyncQueueItem → Bytes → Bytes
requeued C v = elim (requeue_value C v) [ none ↦ v | some b ↦ b ]

requeued-Requeues : (C : Codec SyncQueueItem) (v : Bytes) → Requeues C v (requeued C v)
unfolding requeued requeue_value
requeued-Requeues C v = elim (Option-cases (C.unmarshal v)) [
  | inl e ↦ rw (requeued, requeue_value, e) (undecodable e)
  | inr (q, e) ↦ elim (Bool-cases (q.status == status_running)) [
    | inr r ↦
        let other : q.status ≢ bytes "running" =
          λ is. let no : ⊥ = cc ((==_iff q.status status_running).1 is, r) in no in
        rw (requeued, requeue_value, e, r) (not_running q e other)
    | inl r ↦
        let is = (==_iff q.status status_running).0 r in
        elim (Option-cases (C.marshal (record q { status = bytes "queued" }))) [
          | inl m ↦ rw (requeued, requeue_value, e, r, m) (unwritable q e is m)
          | inr (b, m) ↦ rw (requeued, requeue_value, e, r, m) (queued_again q b e is m)
        ]
  ]
]

map-EachRequeued :
    (C : Codec SyncQueueItem) (vs : List Bytes) → EachRequeued C vs (map (requeued C) vs)
map-EachRequeued C [] = no_entry
map-EachRequeued C (v ∷ vs) = entry_too (requeued-Requeues C v) (map-EachRequeued C vs)

module _ (S : ListStore) (laws : IsListStore S) (C : Codec SyncQueueItem) where
  abbrev key : Bytes
  key = task_queue_store_key

  -- A state whose queue is `vs` and which is as `s` elsewhere.
  abbrev Left : S.State → List Bytes → S.State → Type 0
  Left s vs t = Replaced S s key vs (ok tt, t)

  requeue_at-Left :
      (s t : S.State) (done : List Bytes) (v : Bytes) (vs : List Bytes) (o : Option Bytes)
      → ((b : Bytes) → o ≡ some b → S.ValueFits b)
      → Left s (done ++ v ∷ vs) t
      → Left s (done ++ (elim o [ none ↦ v | some b ↦ b ]) ∷ vs) (requeue_at S C (length done) o t)
  requeue_at-Left s t done v vs none fits a = a
  requeue_at-Left s t done v vs (some b) fits a =
      let seen : S.view t key ≡ done ++ v ∷ vs = view-Replaced S laws s key _ (ok tt, t) a in
      let l : length done < length (S.view t key) =
        rw seen (omega (arith, length-append done (v ∷ vs))) in
      let w = laws.lset_lem t key (length done) b a.valid (fits b refl) l in
      let e : set (S.view t key) (length done) b ≡ done ++ b ∷ vs =
        ap (λ xs. set xs (length done) b) seen ∙ set-last done v b vs in
      Replaced-next S laws s t key _ _ (S.lset t key (pos (length done)) b) a
        (subst (λ xs. Replaced S t key xs (S.lset t key (pos (length done)) b)) e w)

  -- What is written in place of an entry fits.
  abbrev pub WrittenFit : List Bytes → Type 0
  WrittenFit [] = Unit {0}
  WrittenFit (v ∷ vs) = ((b : Bytes) → requeue_value C v ≡ some b → S.ValueFits b) × WrittenFit vs

  requeue_loop-Left :
      (s t : S.State) (done vs : List Bytes)
      → WrittenFit vs
      → Left s (done ++ vs) t
      → Left s (done ++ map (requeued C) vs) (requeue_loop S C (length done) vs t)
  unfolding requeue_loop requeued
  requeue_loop-Left s t done [] fits a = a
  requeue_loop-Left s t done (v ∷ vs) (fits, later) a =
      let b = requeued C v in
      let step = requeue_at-Left s t done v vs (requeue_value C v) fits a in
      let e : length done + 1 ≡ length (done ++ b ∷ []) =
        omega (arith, length-append done (b ∷ [])) in
      let t' = requeue_at S C (length done) (requeue_value C v) t in
      let moved : Left s ((done ++ b ∷ []) ++ vs) t' =
        subst (λ xs. Left s xs t') (sym (append_assoc done (b ∷ []) vs)) step in
      rw e (
        subst (λ xs. Left s xs (requeue_loop S C (length (done ++ b ∷ [])) vs t'))
          (append_assoc done (b ∷ []) (map (requeued C) vs))
          (requeue_loop-Left s t' (done ++ b ∷ []) vs later moved))

  requeue_value-written :
      (v b : Bytes)
      → ((q : SyncQueueItem)
          → C.unmarshal v ≡ some q
          → C.marshal (record q { status = bytes "queued" }) ≡ some b
          → S.ValueFits b)
      → requeue_value C v ≡ some b
      → S.ValueFits b
  unfolding requeue_value
  requeue_value-written v b fits w = elim (Option-cases (C.unmarshal v)) [
    | inl e ↦ let no : ⊥ = cc (rw (requeue_value, e) at w) in absurd no
    | inr (q, e) ↦ elim (Bool-cases (q.status == status_running)) [
      | inl r ↦ fits q e (rw (requeue_value, e, r) at w)
      | inr r ↦ let no : ⊥ = cc (rw (requeue_value, e, r) at w) in absurd no
    ]
  ]

  -- The encodings of the queued runs fit, for the runs that the entries decode to.
  abbrev pub QueuedFit : List Bytes → Type 0
  QueuedFit [] = Unit {0}
  QueuedFit (v ∷ vs) =
      ((b : Bytes) (q : SyncQueueItem)
        → C.unmarshal v ≡ some q
        → C.marshal (record q { status = bytes "queued" }) ≡ some b
        → S.ValueFits b)
      × QueuedFit vs

  written : (vs : List Bytes) → QueuedFit vs → WrittenFit vs
  written [] f = tt
  written (v ∷ vs) (f, fs) = (λ b w. requeue_value-written v b (f b) w, written vs fs)

  -- On a store that keeps the promise, if the encodings of the queued runs that the entries decode
  -- to fit: a start rewrites each entry whose run was running to the run with the status "queued",
  -- at its own place, keeps every other entry and those whose new run has no encoding, and changes
  -- no other list.
  pub requeue_running-EachRequeued :
      (s : S.State)
      → S.IsValid s
      → QueuedFit (S.view s key)
      → (bs : List Bytes) × EachRequeued C (S.view s key) bs
        × Replaced S s key bs (ok tt, requeue_running S C s)
  unfolding requeue_running
  requeue_running-EachRequeued s h fits = (
    map (requeued C) (S.view s key),
    map-EachRequeued C (S.view s key),
    rw (requeue_running, read_all S laws s key h)
        (requeue_loop-Left s s [] (S.view s key) (written (S.view s key) fits)
          (record { returned = refl; valid = h; views = λ j. ground (arith, ==_iff key j) })),
  )
