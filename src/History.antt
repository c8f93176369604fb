-- ===== src/History.antt =====
-- internal/history.go: the log of events, a list of the store that keeps the last 1000.
pub mod Newest
use trailarr.Prelude.{ℕ, ◌≡◌, Option, none, some, List, [], ◌∷◌, Bytes, bytes}
use trailarr.Prelude.Int.{ℤ, pos, negsuc}
use mathlib.Core.List.{reverse}
use trailarr.Store.Outcome.{Outcome, ok, err, bad_json, ◌>>=◌}
use trailarr.Store.Spec.{ListStore}
use trailarr.Store.Log.{then_trim}
use trailarr.Json.{Codec, decode_all}

-- MediaType is a string, MediaId an int, Date an instant in nanoseconds.
pub record HistoryEvent : Type 0 where
  pub action : Bytes
  pub media_title : Bytes
  pub media_type : Bytes
  pub media_id : ℤ
  pub extra_type : Bytes
  pub extra_title : Bytes
  pub date : ℕ

abbrev pub history_store_key : Bytes
history_store_key = bytes "trailarr:history"

-- -HistoryMaxLen
abbrev pub trim_from : ℤ
trim_from = negsuc 999

module _ (S : ListStore) (C : Codec HistoryEvent) where
  unfoldable pub append_history_event : S.State → HistoryEvent → Outcome (Unit {0}) × S.State
  append_history_event s event = elim (C.marshal event) [
    | none ↦ (err bad_json, s)
    | some b ↦ then_trim S history_store_key trim_from (S.rpush s history_store_key b)
  ]

  unfoldable pub load_history_events : S.State → Outcome (List HistoryEvent)
  load_history_events s =
      S.lrange s history_store_key (pos 0) (negsuc 0) >>= λ vals. ok (decode_all C vals)

  -- historyHandler: the loop that swaps the two ends reverses the list.
  unfoldable pub history_handler : S.State → Outcome (List HistoryEvent)
  unfolding load_history_events
  history_handler s = load_history_events s >>= λ events. ok (reverse events)
