-- ===== src/Tasks/States/Known.antt =====
-- The tasks that the program knows, and which of them have a state after loading.
use trailarr.Prelude.{
  ℕ, ◌≡◌, refl, ap, ◌∙◌, sym, Bool, true, false, Option, none, some, List, [], ◌∷◌, Bytes, ◌==◌,
  ==_refl, ==_iff, arith, if◌then◌else◌, inl, inr, Option-cases, Bool-cases,
}
use trailarr.Prelude.Int.{ℤ}
use trailarr.Prelude.Maps.{GoMap, find, find-insert}
use trailarr.Store.Spec.{ListStore}
use trailarr.Json.{Codec}
use trailarr.Tasks.States.{
  TaskState, SavedState, or_added, state_at, ensure_all_tasks_exist, load_task_states,
}

abbrev pub is_some : Option TaskState → Bool
is_some none = false
is_some (some _) = true

-- The map has a state for every one of the ids.
abbrev pub AllKnown : List Bytes → GoMap TaskState → Type 0
AllKnown [] states = Unit {0}
AllKnown (id ∷ ids) states = (is_some (find id states) ≡ true) × AllKnown ids states

or_added-is_some :
    (id j : Bytes) (states : GoMap TaskState)
    → is_some (find j (or_added id (find id states) states))
      ≡ (if id == j then true else is_some (find j states))
or_added-is_some id j states = elim (Option-cases (find id states)) [
  | inl e ↦
      rw (e, find-insert id j (state_at id 0) states)
        (elim (Bool-cases (id == j)) [ inl y ↦ rw y refl | inr y ↦ rw y refl ])
  | inr (t, e) ↦ rw e (elim (Bool-cases (id == j)) [
    | inl y ↦
        let same : id ≡ j = (==_iff id j).0 y in
        let there : find j states ≡ some t = ap (λ k. find k states) (sym same) ∙ e in
        rw (y, there) refl
    | inr y ↦ rw y refl
  ])
]

ensure-is_some :
    (j : Bytes) (ids : List Bytes) (states : GoMap TaskState)
    → is_some (find j states) ≡ true
    → is_some (find j (ensure_all_tasks_exist ids states)) ≡ true
unfolding ensure_all_tasks_exist
ensure-is_some j [] states h = h
ensure-is_some j (id ∷ ids) states h =
    ensure-is_some j ids (or_added id (find id states) states)
      (ground (arith, or_added-is_some id j states))

pub ensure_all_tasks_exist-AllKnown :
    (ids : List Bytes) (states : GoMap TaskState) → AllKnown ids (ensure_all_tasks_exist ids states)
unfolding ensure_all_tasks_exist
ensure_all_tasks_exist-AllKnown [] states = tt
ensure_all_tasks_exist-AllKnown (id ∷ ids) states =
    let added = or_added id (find id states) states in
    (
      ensure-is_some id ids added (or_added-is_some id id states ∙ (rw (==_refl id) refl)),
      ensure_all_tasks_exist-AllKnown ids added,
    )

-- After LoadTaskStates every task that the program knows has a state, whatever the store holds or
-- answers.
pub load_task_states-AllKnown :
    (S : ListStore) (C : Codec SavedState) (s : S.State) (ids : List Bytes) (timings : GoMap ℤ)
    (now : ℕ)
    → AllKnown ids (load_task_states S C s ids timings now).0
unfolding load_task_states
load_task_states-AllKnown S C s ids timings now = ensure_all_tasks_exist-AllKnown ids _
