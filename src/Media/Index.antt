-- ===== src/Media/Index.antt =====
-- The media lists and their wanted indexes in the store, with the wanted indexes that are kept in
-- memory: LoadMediaFromStore, SaveMediaToStore, SaveWantedIndex, LoadWantedIndex and
-- updateWantedStatusInStore of internal/media.go. The lock around the map in memory makes each of its
-- uses atomic.
pub mod Fresh
pub mod Update
use trailarr.Prelude.{
  Bool, true, false, ◌||◌, Option, none, some, List, [], ◌∷◌, Bytes, bytes, ◌==◌, if◌then◌else◌,
}
use trailarr.Prelude.Maps.{GoMap, find, insert, erase}
use trailarr.Store.Outcome.{
  Outcome, ok, err, Error, not_found, index_out_of_range, no_store_client, bolt_failed, bad_json,
  panicked,
}
use trailarr.Store.Keyed.{KeyedStore}
use trailarr.Json.{Codec}
use trailarr.Values.{Fields}
use trailarr.Settings.Flags.{Numbers}
use trailarr.Media.Items.{compute_wanted_index}

abbrev pub movies_store_key : Bytes
movies_store_key = bytes "trailarr:movies"

abbrev pub series_store_key : Bytes
series_store_key = bytes "trailarr:series"

abbrev pub movies_wanted_store_key : Bytes
movies_wanted_store_key = bytes "trailarr:movies:wanted"

abbrev pub series_wanted_store_key : Bytes
series_wanted_store_key = bytes "trailarr:series:wanted"

-- An unsupported path, or an error of the store or of JSON.
pub data Failure : Type 0 where
  unsupported : Failure
  store_error : Error → Failure

pub data Loaded {ℓ} (A : Type ℓ) : Type ℓ where
  loaded : A → Loaded A
  refused : Failure → Loaded A

-- The switch of LoadMediaFromStore.
unfoldable pub media_key : Bytes → Option Bytes
media_key path =
    if path == movies_store_key
    then some movies_store_key
    else if path == series_store_key
    then some series_store_key
    else none

-- The switch of SaveWantedIndex and LoadWantedIndex.
unfoldable pub wanted_key : Bytes → Option Bytes
wanted_key path =
    if path == movies_store_key
    then some movies_wanted_store_key
    else if path == series_store_key
    then some series_wanted_store_key
    else if path == movies_wanted_store_key
    then some movies_wanted_store_key
    else if path == series_wanted_store_key
    then some series_wanted_store_key
    else none

-- resolveWantedMainPath
unfoldable pub resolve_wanted_main_path : Bytes → Bytes
resolve_wanted_main_path path =
    if path == movies_wanted_store_key
    then movies_store_key
    else if path == series_wanted_store_key
    then series_store_key
    else path

module _ (K : KeyedStore) (C : Codec (List Fields)) where
  pub record MediaState : Type 0 where
    pub store : K.State
    pub wanted_mem : GoMap (List Fields)

  abbrev parse : Outcome Bytes → Loaded (List Fields)
  parse (err e) = refused (store_error e)
  parse (ok v) = elim (C.unmarshal v) [
    | none ↦ refused (store_error bad_json)
    | some media ↦ loaded media
  ]

  -- A missing key is an empty list.
  abbrev parse_or_empty : Outcome Bytes → Loaded (List Fields)
  parse_or_empty (err not_found) = loaded []
  parse_or_empty (err index_out_of_range) = refused (store_error index_out_of_range)
  parse_or_empty (err no_store_client) = refused (store_error no_store_client)
  parse_or_empty (err bolt_failed) = refused (store_error bolt_failed)
  parse_or_empty (err bad_json) = refused (store_error bad_json)
  parse_or_empty (err panicked) = refused (store_error panicked)
  parse_or_empty (ok v) = parse (ok v)

  unfoldable pub load_media_from_store : K.State → Bytes → Loaded (List Fields)
  load_media_from_store s path = elim (media_key path) [
    | none ↦ refused unsupported
    | some key ↦ parse_or_empty (K.get s key)
  ]

  -- After the media list was set, both copies of the index go; an error of Del is dropped.
  abbrev invalidate :
      MediaState → Option Bytes → Outcome (Unit {0}) × K.State → Option Failure × MediaState
  invalidate m w (err e, s) = (some (store_error e), record m { store = s })
  invalidate m none (ok _, s) = (none, record m { store = s })
  invalidate m (some w) (ok _, s) =
      (none, record { store = (K.del s w).1; wanted_mem = erase w m.wanted_mem })

  -- SaveMediaToStore; none stands for nil.
  unfoldable pub save_media_to_store :
      MediaState → Bytes → List Fields → Option Failure × MediaState
  save_media_to_store m path media = elim (media_key path) [
    | none ↦ (some unsupported, m)
    | some key ↦ elim (C.marshal media) [
      | none ↦ (some (store_error bad_json), m)
      | some b ↦ invalidate m (wanted_key path) (K.set m.store key b)
    ]
  ]

  abbrev set_result : MediaState → Outcome (Unit {0}) × K.State → Option Failure × MediaState
  set_result m (ok _, s) = (none, record m { store = s })
  set_result m (err e, s) = (some (store_error e), record m { store = s })

  -- SaveWantedIndex: memory first, then the store.
  unfoldable pub save_wanted_index : MediaState → Bytes → List Fields → Option Failure × MediaState
  save_wanted_index m path lights = elim (wanted_key path) [
    | none ↦ (some unsupported, m)
    | some key ↦ elim (C.marshal lights) [
      | none ↦ (some (store_error bad_json), m)
      | some b ↦
          set_result (record m { wanted_mem = insert key lights m.wanted_mem })
            (K.set m.store key b)
    ]
  ]

  abbrev keep_loaded : MediaState → Bytes → Loaded (List Fields) → Loaded (List Fields) × MediaState
  keep_loaded m key (refused f) = (refused f, m)
  keep_loaded m key (loaded lights) =
      (loaded lights, record m { wanted_mem = insert key lights m.wanted_mem })

  -- LoadWantedIndex
  unfoldable pub load_wanted_index : MediaState → Bytes → Loaded (List Fields) × MediaState
  load_wanted_index m path = elim (wanted_key path) [
    | none ↦ (refused unsupported, m)
    | some key ↦ elim (find key m.wanted_mem) [
      | some lights ↦ (loaded lights, m)
      | none ↦ keep_loaded m key (parse (K.get m.store key))
    ]
  ]

  module _ (N : Numbers) (has_trailer_files : Bytes → Bool) where
    -- After the items were saved, an error of the index is only logged.
    abbrev then_index :
        Bytes → List Fields → Option Failure × MediaState → Option Failure × MediaState
    then_index path lights (some f, m) = (some f, m)
    then_index path lights (none, m) = (none, (save_wanted_index m path lights).1)

    abbrev save_both : MediaState → Bytes → List Fields × List Fields → Option Failure × MediaState
    save_both m path (media, lights) = then_index path lights (save_media_to_store m path media)

    -- updateWantedStatusInStore: load_media_from_store refuses the same paths.
    unfoldable pub update_wanted_status_in_store : MediaState → Bytes → Option Failure × MediaState
    update_wanted_status_in_store m path = elim (load_media_from_store m.store path) [
      | refused f ↦ (some f, m)
      | loaded media ↦ save_both m path (compute_wanted_index N has_trailer_files media)
    ]
