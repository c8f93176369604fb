-- ===== src/Settings/Sections.antt =====
-- The sections of the configuration, read and written: extra types, Plex, path mappings, the url and
-- key of a provider, sync timings and the mapping of extra types, in internal/settings.go, and
-- isExtraTypeEnabled of internal/tasks.go.
pub mod Saved
pub mod Types
use trailarr.Prelude.{
  ℕ, Bool, true, false, ◌||◌, not, Option, none, some, List, [], ◌∷◌, ◌++◌, Bytes, bytes, ◌==◌,
  if◌then◌else◌,
}
use trailarr.Prelude.Int.{ℤ, pos}
use trailarr.Prelude.Maps.{GoMap, find, insert}
use trailarr.Values.{
  Value, null, bool, int, float, text, items, fields, encoded, Items, nil, item, Fields, end, field,
  get, put, at, as_bool, as_text, as_fields, as_items, to_list, entries, of_entries,
}
use trailarr.Settings.File.{Yaml, Written, saved, read_config_file, write_config_file}
use trailarr.Settings.Flags.{Numbers, to_int}

pub record ExtraTypesConfig : Type 0 where
  pub trailers : Bool
  pub scenes : Bool
  pub behind_the_scenes : Bool
  pub interviews : Bool
  pub featurettes : Bool
  pub deleted_scenes : Bool
  pub shorts : Bool
  pub other : Bool

-- defaultExtraTypes
abbrev pub default_extra_types : ExtraTypesConfig
default_extra_types = record {
  trailers = true;
  scenes = false;
  behind_the_scenes = false;
  interviews = false;
  featurettes = false;
  deleted_scenes = false;
  shorts = false;
  other = false;
}

-- `sec, _ := config[name].(map[string]interface{})`; a nil map has no keys.
unfoldable pub section : Bytes → Fields → Fields
section name config = elim (as_fields (at name config)) [ none ↦ end | some sec ↦ sec ]

abbrev pub or_else {ℓ} : {A : Type ℓ} → Option A → A → A
or_else none d = d
or_else (some a) d = a

-- getBool of GetExtraTypesConfig
abbrev pub get_bool : Fields → Bytes → Bool → Bool
get_bool sec key def = or_else (as_bool (at key sec)) def

unfoldable pub types_from : Fields → ExtraTypesConfig
types_from sec =
    let d = default_extra_types in
    record {
      trailers = get_bool sec (bytes "trailers") d.trailers;
      scenes = get_bool sec (bytes "scenes") d.scenes;
      behind_the_scenes = get_bool sec (bytes "behindTheScenes") d.behind_the_scenes;
      interviews = get_bool sec (bytes "interviews") d.interviews;
      featurettes = get_bool sec (bytes "featurettes") d.featurettes;
      deleted_scenes = get_bool sec (bytes "deletedScenes") d.deleted_scenes;
      shorts = get_bool sec (bytes "shorts") d.shorts;
      other = get_bool sec (bytes "other") d.other;
    }

-- GetExtraTypesConfig, on the configuration in memory.
unfoldable pub extra_types_of : Fields → ExtraTypesConfig
unfolding section types_from
extra_types_of config = types_from (section (bytes "extraTypes") config)

-- The map that SaveExtraTypesConfig writes; it has no key for `Shorts`.
abbrev pub extra_types_section : ExtraTypesConfig → Fields
extra_types_section cfg = of_entries (
    (bytes "trailers", bool cfg.trailers)
    ∷ (bytes "scenes", bool cfg.scenes)
    ∷ (bytes "behindTheScenes", bool cfg.behind_the_scenes)
    ∷ (bytes "interviews", bool cfg.interviews)
    ∷ (bytes "featurettes", bool cfg.featurettes)
    ∷ (bytes "deletedScenes", bool cfg.deleted_scenes)
    ∷ (bytes "other", bool cfg.other)
    ∷ [])

pub record PlexConfig : Type 0 where
  pub protocol : Bytes
  pub ip : Bytes
  pub port : ℤ
  pub token : Bytes
  pub client_id : Bytes
  pub enabled : Bool

-- `v, _ := sec[key].(string)`
abbrev pub text_at : Bytes → Fields → Bytes
text_at key sec = or_else (as_text (at key sec)) []

-- The port, without the strings that toInt takes.
abbrev port_of : (ℕ → ℤ) → Value → ℤ
port_of truncate (int n) = n
port_of truncate (float x) = truncate x
port_of truncate v = pos 0

unfoldable pub plex_from : (ℕ → ℤ) → Fields → PlexConfig
plex_from truncate sec = record {
  protocol = text_at (bytes "protocol") sec;
  ip = text_at (bytes "ip") sec;
  port = port_of truncate (at (bytes "port") sec);
  token = text_at (bytes "token") sec;
  client_id = text_at (bytes "clientId") sec;
  enabled = or_else (as_bool (at (bytes "enabled") sec)) false;
}

-- GetPlexConfig, on the map that was read; none stands for an error.
unfoldable pub plex_config_of : (ℕ → ℤ) → Fields → Option PlexConfig
unfolding plex_from
plex_config_of truncate config = elim (as_fields (at (bytes "plex") config)) [
  | none ↦ none
  | some sec ↦ some (plex_from truncate sec)
]

-- A new value that is empty leaves the one that is stored.
abbrev pub or_existing : Bytes → Bytes → Bytes
or_existing [] existing = existing
or_existing (b ∷ bs) existing = b ∷ bs

-- The new section of SavePlexConfig, where `sec` was.
abbrev pub plex_section : PlexConfig → Fields → Fields
plex_section cfg sec = of_entries (
    (bytes "protocol", text cfg.protocol)
    ∷ (bytes "ip", text cfg.ip)
    ∷ (bytes "port", int cfg.port)
    ∷ (bytes "token", text (or_existing cfg.token (text_at (bytes "token") sec)))
    ∷ (bytes "clientId", text (or_existing cfg.client_id (text_at (bytes "clientId") sec)))
    ∷ (bytes "enabled", bool cfg.enabled)
    ∷ [])

-- The map that SavePlexConfig writes, made of the one that was read.
unfoldable pub with_plex_config : PlexConfig → Fields → Fields
unfolding section
with_plex_config cfg config =
    put (bytes "plex") (fields (plex_section cfg (section (bytes "plex") config))) config

-- One round of extractPathMappings.
abbrev mapping_of : Value → List (Bytes × Bytes) → List (Bytes × Bytes)
mapping_of v rest = elim (as_fields v) [
  | none ↦ rest
  | some m ↦
      if text_at (bytes "from") m == [] || text_at (bytes "to") m == []
      then rest
      else (text_at (bytes "from") m, text_at (bytes "to") m) ∷ rest
]

unfoldable pub mappings_loop : List Value → List (Bytes × Bytes)
mappings_loop [] = []
mappings_loop (v ∷ pm) = mapping_of v (mappings_loop pm)

-- extractPathMappings, of a section that is there.
unfoldable pub extract_path_mappings : Fields → List (Bytes × Bytes)
unfolding mappings_loop
extract_path_mappings sec = elim (as_items (at (bytes "pathMappings") sec)) [
  | none ↦ []
  | some pm ↦ mappings_loop (to_list pm)
]

-- mergeFoldersIntoMappings: the mappings are pairs `from` and `to`; what was found is `folders`.
unfoldable pub merge_folders :
    GoMap Bool → List Fields → List (Bytes × Bytes) → List (Bytes × Bytes) × Bool
merge_folders known [] mappings = (mappings, false)
merge_folders known (f ∷ folders) mappings = elim (as_text (at (bytes "path") f)) [
  | none ↦ merge_folders known folders mappings
  | some path ↦ elim (or_else (find path known) false) [
    | true ↦ merge_folders known folders mappings
    | false ↦ ((merge_folders known folders (mappings ++ (path, []) ∷ [])).0, true)
  ]
]

-- GetProviderUrlAndApiKey, on the map that was read; none stands for an error.
unfoldable pub provider_url_and_api_key : Bytes → Fields → Option (Bytes × Bytes)
provider_url_and_api_key provider config = elim (as_fields (at provider config)) [
  | none ↦ none
  | some sec ↦ some (text_at (bytes "url") sec, text_at (bytes "apiKey") sec)
]

-- parseCanonicalizeExtraTypeConfig, on the map that was read.
unfoldable pub texts_of : List (Bytes × Value) → GoMap Bytes
texts_of [] = []
texts_of ((k, v) ∷ m) = elim (as_text v) [ none ↦ texts_of m | some s ↦ insert k s (texts_of m) ]

unfoldable pub canonicalize_mapping : Fields → GoMap Bytes
unfolding texts_of section
canonicalize_mapping config =
    texts_of (entries (section (bytes "mapping") (section (bytes "canonicalizeExtraType") config)))

-- canonicalizeExtraType
unfoldable pub canonicalize_extra_type : GoMap Bytes → Bytes → Bytes
canonicalize_extra_type mapping extra_type = or_else (find extra_type mapping) extra_type

-- isExtraTypeEnabled
unfoldable pub is_extra_type_enabled : ExtraTypesConfig → Bytes → Bool
is_extra_type_enabled cfg typ =
    if typ == bytes "Trailers"
    then cfg.trailers
    else if typ == bytes "Scenes"
    then cfg.scenes
    else if typ == bytes "Behind The Scenes"
    then cfg.behind_the_scenes
    else if typ == bytes "Interviews"
    then cfg.interviews
    else if typ == bytes "Featurettes"
    then cfg.featurettes
    else if typ == bytes "Deleted Scenes"
    then cfg.deleted_scenes
    else if typ == bytes "Other"
    then cfg.other
    else false

abbrev if_enabled : Bool → Bytes → List Bytes → List Bytes
if_enabled true typ rest = typ ∷ rest
if_enabled false typ rest = rest

-- GetEnabledCanonicalExtraTypes
unfoldable pub enabled_canonical_extra_types : GoMap Bytes → ExtraTypesConfig → List Bytes
unfolding canonicalize_extra_type
enabled_canonical_extra_types mapping cfg =
    let canonical = canonicalize_extra_type mapping in
    let types = if_enabled cfg.trailers (canonical (bytes "trailers")) (
      if_enabled cfg.scenes (canonical (bytes "scenes")) (
        if_enabled cfg.behind_the_scenes (canonical (bytes "behindTheScenes")) (
          if_enabled cfg.interviews (canonical (bytes "interviews")) (
            if_enabled cfg.featurettes (canonical (bytes "featurettes")) (
              if_enabled cfg.deleted_scenes (canonical (bytes "deletedScenes"))
                (if_enabled cfg.other (canonical (bytes "other")) [])))))) in
    elim types [ [] ↦ canonical (bytes "trailers") ∷ [] | t ∷ ts ↦ t ∷ ts ]

module _ (N : Numbers) where
  -- convertTimings: the default case reads the text of other values, which is no number.
  unfoldable pub convert_timings : List (Bytes × Value) → GoMap ℤ
  convert_timings [] = []
  convert_timings ((k, v) ∷ timings) = elim (to_int N v) [
    | none ↦ convert_timings timings
    | some n ↦ insert k n (convert_timings timings)
  ]
