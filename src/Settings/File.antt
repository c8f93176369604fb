-- ===== src/Settings/File.antt =====
-- The configuration file: readConfigFileRaw, EnsureConfigDefaults, readConfigFile, writeConfigFile and
-- LoadConfig of internal/settings.go. YAML is a parameter; `file` is the content of the file, `none`
-- if it cannot be read, and `works` says whether the file system accepts a write.
pub mod Empty
use trailarr.Prelude.{Bool, true, false, Option, none, some, List, [], ◌∷◌, Bytes}
use trailarr.Values.{
  Value, null, fields, Fields, end, field, put, bool, int, float, text, items, encoded,
}
use trailarr.Settings.Defaults.{ensure_config_defaults}

-- yaml.Marshal of a map, and yaml.Unmarshal into an interface; none stands for an error.
pub record Yaml : Type 0 where
  pub marshal : Fields → Option Bytes
  pub unmarshal : Bytes → Option Value

-- What a write leaves: the new content, an error with the old content, or a panic.
pub data Written : Type 0 where
  saved : Bytes → Written
  failed : Written
  panicked : Written

-- A map that was unmarshalled: an empty document leaves the nil map, and other values are an error.
pub data Decoded : Type 0 where
  invalid : Decoded
  nil_map : Decoded
  a_map : Fields → Decoded

abbrev pub decoded : Option Value → Decoded
decoded (some (fields m)) = a_map m
decoded (some null) = nil_map
decoded (some (bool b)) = invalid
decoded (some (int n)) = invalid
decoded (some (float x)) = invalid
decoded (some (text s)) = invalid
decoded (some (items xs)) = invalid
decoded (some (encoded v)) = invalid
decoded none = invalid

abbrev pub map_only : Decoded → Option Fields
map_only invalid = none
map_only nil_map = none
map_only (a_map m) = some m

-- `for k, v := range config { existing[k] = v }`
unfoldable pub merge_into : Fields → Fields → Fields
merge_into existing end = existing
merge_into existing (field k v config) = merge_into (put k v existing) config

module _ (Y : Yaml) where
  -- readConfigFileRaw
  unfoldable pub read_config_file_raw : Option Bytes → Option Fields
  read_config_file_raw none = none
  read_config_file_raw (some []) = none
  read_config_file_raw (some (b ∷ bs)) = map_only (decoded (Y.unmarshal (b ∷ bs)))

  abbrev write_out : Bool → Option Bytes → Written
  write_out works none = failed
  write_out false (some out) = failed
  write_out true (some out) = saved out

  -- Writing to a nil map panics, unless there is nothing to write.
  abbrev merged_write : Bool → Decoded → Fields → Written
  merged_write works invalid config = write_out works (Y.marshal (merge_into end config))
  merged_write works (a_map existing) config =
      write_out works (Y.marshal (merge_into existing config))
  merged_write works nil_map end = write_out works (Y.marshal end)
  merged_write works nil_map (field k v config) = panicked

  -- writeConfigFile: the keys of the file that `config` does not have are kept.
  unfoldable pub write_config_file : Bool → Option Bytes → Fields → Written
  unfolding merge_into
  write_config_file works none config = write_out works (Y.marshal (merge_into end config))
  write_config_file works (some content) config =
      merged_write works (decoded (Y.unmarshal content)) config

  unfoldable pub write_if_changed : Bool → Option Bytes → Bool × Fields → Option Written
  unfolding write_config_file
  write_if_changed works file r = elim r.0 [
    | true ↦ some (write_config_file works file r.1)
    | false ↦ none
  ]

  -- EnsureConfigDefaults: the write, if something changed; none if there is none.
  unfoldable pub ensure_defaults_in_file : Bool → Option Bytes → Option Written
  unfolding write_if_changed
  ensure_defaults_in_file works file =
      write_if_changed works file (ensure_config_defaults (read_config_file_raw file))

  abbrev pub content_after : Option Bytes → Option Written → Option Bytes
  content_after file (some (saved out)) = some out
  content_after file (some failed) = file
  content_after file (some panicked) = file
  content_after file none = file

  -- The second half of readConfigFile: what is read, with the nil map as the empty one.
  abbrev map_or_empty : Decoded → Option Fields
  map_or_empty invalid = none
  map_or_empty nil_map = some end
  map_or_empty (a_map m) = some m

  abbrev parsed : Option Bytes → Option Fields
  parsed none = none
  parsed (some content) = map_or_empty (decoded (Y.unmarshal content))

  -- readConfigFile, for a start that does not panic: the new content and the map.
  unfoldable pub read_config_file : Bool → Option Bytes → Option Bytes × Option Fields
  unfolding ensure_defaults_in_file
  read_config_file works file =
      let file' = content_after file (ensure_defaults_in_file works file) in (file', parsed file')
