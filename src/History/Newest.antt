-- ===== src/History/Newest.antt =====
-- What a reader of the log sees after an event.
use trailarr.Prelude.{◌≡◌, ap, ◌∙◌, some, List, [], ◌∷◌, ◌++◌, take, Bytes}
use mathlib.Core.List.{reverse, reverse-append}
use trailarr.Store.Outcome.{ok}
use trailarr.Store.Recent.{last_n, reverse-last_n}
use trailarr.Store.Spec.{ListStore, IsListStore, Replaced}
use trailarr.Store.Log.{logged, read_all, view-Replaced}
use trailarr.Json.{Codec, Encodes, Holds, decode_all, decode_all-Holds, Holds-append, Holds-last_n}
use trailarr.History.{
  HistoryEvent, history_store_key, append_history_event, load_history_events, history_handler,
}

module _ (S : ListStore) (laws : IsListStore S) (C : Codec HistoryEvent) where
  -- The event becomes the last entry, and the last 1000 entries stay.
  pub append-Replaced :
      (s : S.State) (event : HistoryEvent) (b : Bytes)
      → S.IsValid s
      → S.KeyFits history_store_key
      → S.ValueFits b
      → S.Room s history_store_key 1
      → C.marshal event ≡ some b
      → Replaced S s history_store_key
          (last_n 1000 (S.view s history_store_key ++ b ∷ []))
          (append_history_event S C s event)
  unfolding append_history_event
  append-Replaced s event b h k f r e =
      rw (append_history_event, e) (logged S laws 999 s history_store_key b h k f r)

  -- On a store that keeps the promise, with events that decode and an encoding that fits: after
  -- AppendHistoryEvent the handler answers that event first, then the older ones newest first,
  -- 1000 in all.
  pub append-history_handler :
      (s : S.State) (event : HistoryEvent) (b : Bytes) (events : List HistoryEvent)
      → S.IsValid s
      → S.KeyFits history_store_key
      → S.ValueFits b
      → S.Room s history_store_key 1
      → Encodes C event b
      → Holds C (S.view s history_store_key) events
      → history_handler S C (append_history_event S C s event).1
        ≡ ok (take 1000 (event ∷ reverse events))
  unfolding history_handler load_history_events
  append-history_handler s event b events h k f r e held =
      let vs = S.view s history_store_key in
      let q = append_history_event S C s event in
      let a = append-Replaced s event b h k f r e.written in
      let v : S.view q.1 history_store_key ≡ last_n 1000 (vs ++ b ∷ []) =
        view-Replaced S laws s history_store_key _ q a in
      let one : Holds C (b ∷ []) (event ∷ []) = ap (λ o. o ∷ []) e.read in
      let all : decode_all C (last_n 1000 (vs ++ b ∷ [])) ≡ last_n 1000 (events ++ event ∷ []) =
        decode_all-Holds C _ _ (
          Holds-last_n C 1000 (vs ++ b ∷ []) (events ++ event ∷ [])
            (Holds-append C vs (b ∷ []) events (event ∷ []) held one)) in
      let newest : reverse (last_n 1000 (events ++ event ∷ []))
          ≡ take 1000 (event ∷ reverse events) =
        reverse-last_n 1000 (events ++ event ∷ [])
        ∙ ap (take 1000) (reverse-append events (event ∷ [])) in
      rw (read_all S laws q.1 history_store_key a.valid, v) (ap ok (ap reverse all ∙ newest))
