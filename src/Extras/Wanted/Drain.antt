-- ===== src/Extras/Wanted/Drain.antt =====
-- The wait of the task for the download queue, internal/tasks.go: waitForDownloadQueueDrain.
use trailarr.Prelude.{
  ℕ, zero, suc, ◌≤◌, ◌≡◌, ◌≢◌, refl, true, false, some, List, [], ◌∷◌, Bytes, bytes, ◌==◌, ==_iff,
  ==_ne, arith, Bool-cases, Option-cases, inl, inr,
}
use trailarr.Store.Outcome.{Outcome, ok, err}
use trailarr.Store.Spec.{ListStore}
use trailarr.Json.{Codec, decode_all}
use trailarr.Downloads.Items.{DownloadQueueItem, status_queued}
use trailarr.Downloads.Worker.{Downloads, read_queue, load_queue_from_store}
use trailarr.Extras.Wanted.{
  is_queued_in, is_download_queue_queued_present, wait_for_download_queue_drain,
}

-- No item waits in the queue.
abbrev pub NoneQueued : List DownloadQueueItem → Type 0
NoneQueued [] = Unit {0}
NoneQueued (q ∷ queue) = (q.status ≢ bytes "queued") × NoneQueued queue

unfoldable pub iterate {ℓ} : {A : Type ℓ} → (A → A) → ℕ → A → A
iterate f zero a = a
iterate f (suc n) a = iterate f n (f a)

module _ (S : ListStore) (C : Codec DownloadQueueItem) where
  none-present :
      (vals : List Bytes) → NoneQueued (decode_all C vals) → is_queued_in S C vals ≡ false
  unfolding is_queued_in decode_all
  none-present [] h = refl
  none-present (v ∷ vals) h = elim (Option-cases (C.unmarshal v)) [
    | inl e ↦ rw e (none-present vals (rw e at h))
    | inr (q, e) ↦
        let (n, rest) : (q.status ≢ bytes "queued") × NoneQueued (decode_all C vals) = rw e at h in
        rw (e, ==_ne q.status status_queued n) (none-present vals rest)
  ]

  present-none :
      (vals : List Bytes) → is_queued_in S C vals ≡ false → NoneQueued (decode_all C vals)
  unfolding is_queued_in decode_all
  present-none [] h = tt
  present-none (v ∷ vals) h = elim (Option-cases (C.unmarshal v)) [
    | inl e ↦ rw e (present-none vals (rw e at h))
    | inr (q, e) ↦ elim (Bool-cases (q.status == status_queued)) [
      | inl y ↦ let no : ⊥ = cc (rw (e, y) at h) in absurd no
      | inr n ↦
          let other : q.status ≢ bytes "queued" =
            λ s. let no : ⊥ = cc ((==_iff q.status status_queued).1 s, n) in no in
          rw e (other, present-none vals (rw (e, n) at h))
    ]
  ]

  absent :
      (s : S.State)
      → NoneQueued (load_queue_from_store S C s)
      → is_download_queue_queued_present S C s ≡ false
  unfolding load_queue_from_store is_download_queue_queued_present
  absent s h = go (read_queue S C s) refl
    where
      go :
          (o : Outcome (List Bytes))
          → read_queue S C s ≡ o
          → is_download_queue_queued_present S C s ≡ false
      go (err e) p = rw (is_download_queue_queued_present, p) refl
      go (ok vals) p =
          rw (is_download_queue_queued_present, p)
            (none-present vals (rw (load_queue_from_store, p) at h))

  absent-NoneQueued :
      (s : S.State)
      → is_download_queue_queued_present S C s ≡ false
      → NoneQueued (load_queue_from_store S C s)
  unfolding load_queue_from_store is_download_queue_queued_present
  absent-NoneQueued s h = go (read_queue S C s) refl
    where
      go :
          (o : Outcome (List Bytes))
          → read_queue S C s ≡ o
          → NoneQueued (load_queue_from_store S C s)
      go (err e) p = rw (load_queue_from_store, p) tt
      go (ok vals) p =
          rw (load_queue_from_store, p)
            (present-none vals (rw (is_download_queue_queued_present, p) at h))

  -- The queue after some sleeps, with no item waiting.
  pub record DrainedFrom (others : Downloads S C → Downloads S C) (w drained : Downloads S C)
      : Type 0 where
    pub sleeps : ℕ
    pub state : drained ≡ iterate others sleeps w
    pub empty : NoneQueued (load_queue_from_store S C drained.store)

  no-wait :
      (others : Downloads S C → Downloads S C) (polls : ℕ) (w : Downloads S C)
      → is_download_queue_queued_present S C w.store ≡ false
      → wait_for_download_queue_drain S C others polls w ≡ some w
  unfolding wait_for_download_queue_drain
  no-wait others zero w h = rw h refl
  no-wait others (suc polls) w h = rw h refl

  one-sleep :
      (others : Downloads S C → Downloads S C) (w drained : Downloads S C) (d : ℕ)
      → is_download_queue_queued_present S C w.store ≡ true
      → ((polls : ℕ)
          → d ≤ polls
          → wait_for_download_queue_drain S C others polls (others w) ≡ some drained)
      → (polls : ℕ) → suc d ≤ polls
      → wait_for_download_queue_drain S C others polls w ≡ some drained
  unfolding wait_for_download_queue_drain
  one-sleep others w drained d y ends zero l = absurd (omega (arith, l))
  one-sleep others w drained d y ends (suc n) l = rw y (ends n (omega (arith, l)))

  -- If no item waits after `d` sleeps, the wait ends.
  pub wait-DrainedFrom :
      (others : Downloads S C → Downloads S C) (d : ℕ) (w : Downloads S C)
      → NoneQueued (load_queue_from_store S C (iterate others d w).store)
      → (drained : Downloads S C) × DrainedFrom others w drained
        × ((polls : ℕ)
            → d ≤ polls
            → wait_for_download_queue_drain S C others polls w ≡ some drained)
  unfolding wait_for_download_queue_drain iterate
  wait-DrainedFrom others zero w h = (
    w,
    record { sleeps = 0; state = refl; empty = h },
    λ polls l. no-wait others polls w (absent w.store h),
  )
  wait-DrainedFrom others (suc d) w h =
      elim (Bool-cases (is_download_queue_queued_present S C w.store)) [
        | inr n ↦ (
          w,
          record { sleeps = 0; state = refl; empty = absent-NoneQueued w.store n },
          λ polls l. no-wait others polls w n,
        )
        | inl y ↦
            let (drained, r, ends) = wait-DrainedFrom others d (others w) h in
            (
              drained,
              record { sleeps = suc r.sleeps; state = r.state; empty = r.empty },
              λ polls l. one-sleep others w drained d y ends polls l,
            )
      ]
