-- ===== src/Settings/File/Empty.antt =====
-- A configuration file without content, and the keys that a write keeps.
use trailarr.Prelude.{
  ◌≡◌, refl, ap, ◌∙◌, Bool, true, false, Option, none, some, [], ◌∷◌, Bytes, ◌==◌, if◌then◌else◌,
}
use trailarr.Values.{Value, null, Fields, end, field, get, put, get-put, at}
use trailarr.Settings.Defaults.{
  ensure_config_defaults, ensure_all, read_or_core, ensure_general_defaults, ensure_ytdlp_defaults,
  ensure_radarr_defaults, ensure_sonarr_defaults, ensure_plex_defaults, ensure_extra_types_defaults,
  ensure_canonicalize_extra_type_defaults,
}
use trailarr.Settings.File.{
  Yaml, panicked, merge_into, read_config_file_raw, write_config_file, write_if_changed,
  ensure_defaults_in_file,
}

abbrev pub last_get : Bytes → Fields → Option Value → Option Value
last_get k end found = found
last_get k (field j v m) found = last_get k m (if j == k then some v else found)

pub merge_into-get :
    (k : Bytes) (config existing : Fields)
    → get k (merge_into existing config) ≡ last_get k config (get k existing)
unfolding merge_into
merge_into-get k end existing = refl
merge_into-get k (field j v config) existing =
    merge_into-get k config (put j v existing) ∙ ap (last_get k config) (get-put j k v existing)

abbrev is_end : Fields → Bool
is_end end = true
is_end (field k v m) = false

core-changed : (ensure_config_defaults none).0 ≡ true
unfolding ensure_config_defaults ensure_all read_or_core ensure_general_defaults
    ensure_ytdlp_defaults ensure_radarr_defaults ensure_sonarr_defaults ensure_plex_defaults
    ensure_extra_types_defaults ensure_canonicalize_extra_type_defaults at get put ◌==◌
core-changed = refl

core-some : is_end (ensure_config_defaults none).1 ≡ false
unfolding ensure_config_defaults ensure_all read_or_core ensure_general_defaults
    ensure_ytdlp_defaults ensure_radarr_defaults ensure_sonarr_defaults ensure_plex_defaults
    ensure_extra_types_defaults ensure_canonicalize_extra_type_defaults at get put ◌==◌
core-some = refl

module _ (Y : Yaml) where
  nil_write :
      (works : Bool) (content : Bytes) (config : Fields)
      → Y.unmarshal content ≡ some null
      → is_end config ≡ false
      → write_config_file Y works (some content) config ≡ panicked
  unfolding write_config_file
  nil_write works content end h e = let no : ⊥ = cc e in absurd no
  nil_write works content (field k v m) h e = rw h refl

  read-nothing :
      (content : Bytes)
      → Y.unmarshal content ≡ some null
      → read_config_file_raw Y (some content) ≡ none
  unfolding read_config_file_raw
  read-nothing [] h = refl
  read-nothing (b ∷ bs) h = rw h refl

  -- For a file whose content reads as null (an empty document) EnsureConfigDefaults panics,
  -- whether or not the file can be written.
  pub ensure_defaults-panics :
      (works : Bool) (content : Bytes)
      → Y.unmarshal content ≡ some null
      → ensure_defaults_in_file Y works (some content) ≡ some panicked
  unfolding ensure_defaults_in_file write_if_changed
  ensure_defaults-panics works content h =
      ap (λ o. write_if_changed Y works (some content) (ensure_config_defaults o))
        (read-nothing content h)
      ∙ written (ensure_config_defaults none) core-changed core-some
    where
      written :
          (r : Bool × Fields)
          → r.0 ≡ true
          → is_end r.1 ≡ false
          → write_if_changed Y works (some content) r ≡ some panicked
      written (true, config) c e = ap some (nil_write works content config h e)
      written (false, config) c e = let no : ⊥ = cc c in absurd no
