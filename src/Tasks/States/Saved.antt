-- ===== src/Tasks/States/Saved.antt =====
-- What saveTaskStates leaves in the store.
use trailarr.Prelude.{◌<◌, ◌^◌, ◌≡◌, refl, sym, subst, some, List, [], ◌∷◌, length, Bytes}
use trailarr.Prelude.Maps.{GoMap}
use trailarr.Store.Outcome.{ok}
use trailarr.Store.Spec.{ListStore, IsListStore, Replaced}
use trailarr.Store.Rewrite.{push_each, AllFit, rewritten}
use trailarr.Json.{Codec}
use trailarr.Tasks.States.{
  TaskState, SavedState, task_times_store_key, push_all, saved_states, save_task_states,
}

module _ (S : ListStore) (laws : IsListStore S) (C : Codec SavedState) where
  abbrev key : Bytes
  key = task_times_store_key

  -- Each of the states has an encoding that fits.
  abbrev pub Fitting : List SavedState → List Bytes → Type 0
  Fitting [] [] = Unit {0}
  Fitting (t ∷ ts) (b ∷ bs) = (C.marshal t ≡ some b) × S.ValueFits b × Fitting ts bs
  Fitting _ _ = ⊥

  push_all-each :
      (s : S.State) (ts : List SavedState) (bs : List Bytes)
      → Fitting ts bs
      → (push_all S C s ts ≡ push_each S key s bs) × AllFit S bs
  unfolding push_all push_each
  push_all-each s [] [] f = (refl, tt)
  push_all-each s [] (b ∷ bs) f = elim f [ ]
  push_all-each s (t ∷ ts) [] f = elim f [ ]
  push_all-each s (t ∷ ts) (b ∷ bs) (m, f, fs) =
      let (e, g) = push_all-each (S.rpush s key b).1 ts bs fs in ((rw (push_all, m) e), (f, g))

  -- On a store that keeps the promise, with an encoding that fits for each state: saveTaskStates
  -- replaces the saved list by those encodings, in order, and no other list changes.
  pub save_task_states-Replaced :
      (s : S.State) (states : GoMap TaskState) (bs : List Bytes)
      → S.IsValid s
      → S.KeyFits key
      → Fitting (saved_states states) bs
      → length bs < 2 ^ 64
      → Replaced S s key bs (ok tt, save_task_states S C s states)
  unfolding save_task_states
  save_task_states-Replaced s states bs h k f l =
      let (e, g) = push_all-each (S.del s key).1 (saved_states states) bs f in
      subst (λ t. Replaced S s key bs (ok tt, t)) (sym e) (rewritten S laws key k s bs h g l)
