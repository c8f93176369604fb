-- ===== src/Extras/Rejected.antt =====
-- The index of rejected extras of internal/extras.go, in the store and in memory, and what is answered
-- from it. The entries of the global hash are read by `hvals`. The index is refreshed in the
-- background: a refresh is a step of its own.
pub mod Fresh
use trailarr.Prelude.{
  Bool, true, false, ◌&&◌, Option, none, some, List, [], ◌∷◌, map, Bytes, bytes, ◌==◌,
  if◌then◌else◌,
}
use trailarr.Prelude.Int.{ℤ}
use trailarr.Slices.{filter}
use trailarr.Store.Outcome.{Outcome, ok, err, Error, bad_json, ◌>>=◌}
use trailarr.Store.Keyed.{KeyedStore}
use trailarr.Json.{Codec, decode_all}
use trailarr.Values.{Fields, at, as_text}
use trailarr.Settings.Flags.{Numbers}
use trailarr.Media.Items.{eqb_ℤ, parse_media_id}
use trailarr.Media.Index.{
  Loaded, loaded, refused, load_media_from_store, movies_store_key, series_store_key,
}
use trailarr.Extras.Entries.{ExtrasEntry, status_rejected}
use trailarr.Extras.Merge.{RejectedExtra}

abbrev pub rejected_extras_store_key : Bytes
rejected_extras_store_key = bytes "trailarr:extras:rejected"

module _ (N : Numbers) where
  abbrev title_with_id : ℤ → Fields → Option Bytes
  title_with_id id m = elim (parse_media_id N (at (bytes "id") m)) [
    | none ↦ none
    | some n ↦ if eqb_ℤ n id then as_text (at (bytes "title") m) else none
  ]

  -- titles[id] for the map of loadTitles: a later item overwrites an earlier one.
  unfoldable pub title_of : List Fields → ℤ → Option Bytes
  unfolding parse_media_id
  title_of [] id = none
  title_of (m ∷ items) id = elim (title_of items id) [ some t ↦ some t | none ↦ title_with_id id m ]

  abbrev with_title : ExtrasEntry → Option Bytes → ExtrasEntry
  with_title entry none = entry
  with_title entry (some t) = record entry { media_title = t }

  -- fillMediaTitle
  unfoldable pub fill_media_title : ExtrasEntry → List Fields → List Fields → ExtrasEntry
  unfolding title_of
  fill_media_title entry movies series =
      if entry.media_title == []
      then (if entry.media_type == bytes "movie"
          then with_title entry (title_of movies entry.media_id)
          else if entry.media_type == bytes "tv"
          then with_title entry (title_of series entry.media_id)
          else entry)
      else entry

abbrev pub items_of : Loaded (List Fields) → List Fields
items_of (loaded items) = items
items_of (refused f) = []

abbrev pub is_rejected : ExtrasEntry → Bool
is_rejected e = e.status == status_rejected

abbrev pub is_of_media : Bytes → ℤ → ExtrasEntry → Bool
is_of_media media_type id e = e.media_type == media_type && eqb_ℤ e.media_id id

abbrev pub rejected_extra : ExtrasEntry → RejectedExtra
rejected_extra e = record {
  media_type = e.media_type;
  media_id = e.media_id;
  extra_type = e.extra_type;
  extra_title = e.extra_title;
  youtube_id = e.youtube_id;
  reason = e.reason;
}

module _ (N : Numbers) (K : KeyedStore) (M : Codec (List Fields)) (E : Codec ExtrasEntry)
    (C : Codec (List ExtrasEntry)) (hvals : K.State → Outcome (List Bytes)) where
  -- GetAllExtras
  unfoldable pub get_all_extras : K.State → Outcome (List ExtrasEntry)
  unfolding fill_media_title load_media_from_store
  get_all_extras s =
      let movies = items_of (load_media_from_store K M s movies_store_key) in
      let series = items_of (load_media_from_store K M s series_store_key) in
      hvals s >>= λ vals. ok (map (λ e. fill_media_title N e movies series) (decode_all E vals))

  -- The store, and rejectedIndexMem, which is nil at the start.
  pub record RejectedState : Type 0 where
    pub store : K.State
    pub rejected_index_mem : Option (List ExtrasEntry)

  abbrev after_set :
      RejectedState
      → List ExtrasEntry
      → Outcome (Unit {0}) × K.State
      → Outcome (Unit {0}) × RejectedState
  after_set st rejected (err e, s) = (err e, record st { store = s })
  after_set st rejected (ok _, s) =
      (ok tt, record { store = s; rejected_index_mem = some rejected })

  -- The second half of SaveRejectedIndex.
  unfoldable pub write_rejected_index :
      RejectedState → List ExtrasEntry → Outcome (Unit {0}) × RejectedState
  write_rejected_index st rejected = elim (C.marshal rejected) [
    | none ↦ (err bad_json, st)
    | some b ↦ after_set st rejected (K.set st.store rejected_extras_store_key b)
  ]

  unfoldable pub save_rejected_index : RejectedState → Outcome (Unit {0}) × RejectedState
  unfolding get_all_extras write_rejected_index filter
  save_rejected_index st = elim (get_all_extras st.store) [
    | err e ↦ (err e, st)
    | ok extras ↦ write_rejected_index st (filter extras is_rejected)
  ]

  abbrev parsed : Outcome Bytes → Outcome (List ExtrasEntry)
  parsed (err e) = err e
  parsed (ok v) = elim (C.unmarshal v) [ none ↦ err bad_json | some items ↦ ok items ]

  abbrev keep_index :
      RejectedState → Outcome (List ExtrasEntry) → Outcome (List ExtrasEntry) × RejectedState
  keep_index st (err e) = (err e, st)
  keep_index st (ok items) = (ok items, record st { rejected_index_mem = some items })

  -- LoadRejectedIndex
  unfoldable pub load_rejected_index : RejectedState → Outcome (List ExtrasEntry) × RejectedState
  load_rejected_index st = elim st.rejected_index_mem [
    | some items ↦ (ok items, st)
    | none ↦ keep_index st (parsed (K.get st.store rejected_extras_store_key))
  ]

  -- Without an index the rejected ones of all extras are read.
  abbrev or_scan : K.State → Outcome (List ExtrasEntry) → Outcome (List ExtrasEntry)
  unfolding get_all_extras filter
  or_scan s (ok idx) = ok idx
  or_scan s (err e) = get_all_extras s >>= λ extras. ok (filter extras is_rejected)

  -- BlacklistExtrasHandler
  unfoldable pub blacklist_extras : RejectedState → Outcome (List ExtrasEntry) × RejectedState
  unfolding load_rejected_index or_scan
  blacklist_extras st = let r = load_rejected_index st in (or_scan st.store r.0, r.1)

  abbrev or_nil : Outcome (List ExtrasEntry) → List ExtrasEntry
  or_nil (ok extras) = extras
  or_nil (err e) = []

  -- GetRejectedExtrasForMedia
  unfoldable pub get_rejected_extras_for_media :
      Bytes → ℤ → RejectedState → List RejectedExtra × RejectedState
  unfolding blacklist_extras
  get_rejected_extras_for_media media_type id st =
      let r = blacklist_extras st in
      (map rejected_extra (filter (or_nil r.0) (is_of_media media_type id)), r.1)
