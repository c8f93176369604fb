-- ===== src/Settings/Flags.antt =====
-- YtdlpFlagsConfig of internal/youtube.go, with its defaults, and its section of the configuration:
-- the converters, applyYtdlpFlags and SaveYtdlpFlagsConfig of internal/settings.go.
pub mod Read
use trailarr.Prelude.{
  ℕ, ◌≡◌, refl, Bool, true, false, Option, none, some, List, [], ◌∷◌, Bytes, bytes, ◌==◌,
  if◌then◌else◌,
}
use trailarr.Prelude.Int.{ℤ, pos}
use trailarr.Values.{
  Value, null, bool, int, float, text, items, fields, encoded, Fields, end, field, as_bool, as_text,
  of_entries,
}

pub record YtdlpFlagsConfig : Type 0 where
  pub quiet : Bool
  pub no_progress : Bool
  pub write_subs : Bool
  pub write_auto_subs : Bool
  pub embed_subs : Bool
  pub sub_langs : Bytes
  pub requested_formats : Bytes
  pub timeout : ℕ
  pub sleep_interval : ℕ
  pub max_downloads : ℤ
  pub limit_rate : Bytes
  pub sleep_requests : ℕ
  pub max_sleep_interval : ℕ
  pub ffmpeg_location : Bytes

-- The numbers are the bit patterns of 3, 5 and 120.
abbrev pub default_ytdlp_flags_config : YtdlpFlagsConfig
default_ytdlp_flags_config = record {
  quiet = false;
  no_progress = false;
  write_subs = true;
  write_auto_subs = true;
  embed_subs = true;
  sub_langs = bytes "es.*";
  requested_formats = bytes "best[height<=1080]";
  timeout = 0x4008_0000_0000_0000;
  sleep_interval = 0x4014_0000_0000_0000;
  max_downloads = pos 5;
  limit_rate = bytes "30M";
  sleep_requests = 0x4008_0000_0000_0000;
  max_sleep_interval = 0x405e_0000_0000_0000;
  ffmpeg_location = [];
}

-- The map that SaveYtdlpFlagsConfig writes; the YAML of the struct has the same keys.
abbrev pub flags_section : YtdlpFlagsConfig → Fields
flags_section cfg = of_entries (
    (bytes "quiet", bool cfg.quiet)
    ∷ (bytes "noprogress", bool cfg.no_progress)
    ∷ (bytes "writesubs", bool cfg.write_subs)
    ∷ (bytes "writeautosubs", bool cfg.write_auto_subs)
    ∷ (bytes "embedsubs", bool cfg.embed_subs)
    ∷ (bytes "sublangs", text cfg.sub_langs)
    ∷ (bytes "requestedformats", text cfg.requested_formats)
    ∷ (bytes "timeout", float cfg.timeout)
    ∷ (bytes "sleepInterval", float cfg.sleep_interval)
    ∷ (bytes "maxDownloads", int cfg.max_downloads)
    ∷ (bytes "limitRate", text cfg.limit_rate)
    ∷ (bytes "sleepRequests", float cfg.sleep_requests)
    ∷ (bytes "maxSleepInterval", float cfg.max_sleep_interval)
    ∷ (bytes "ffmpegLocation", text cfg.ffmpeg_location)
    ∷ [])

-- float64 of an int, int of a float64, and fmt.Sscanf with %f and %d, as far as they are used.
pub record Numbers : Type 0 where
  pub of_int : ℤ → ℕ
  pub truncate : ℕ → ℤ
  pub scan_float : Bytes → Option ℕ
  pub scan_int : Bytes → Option ℤ

module _ (N : Numbers) where
  unfoldable pub to_float64 : Value → Option ℕ
  to_float64 (float x) = some x
  to_float64 (int n) = some (N.of_int n)
  to_float64 (text s) = N.scan_float s
  to_float64 v = none

  unfoldable pub to_int : Value → Option ℤ
  to_int (int n) = some n
  to_int (float x) = some (N.truncate x)
  to_int (text s) = N.scan_int s
  to_int v = none

  abbrev or_kept {ℓ} : {A : Type ℓ} → Option A → A → A
  or_kept none kept = kept
  or_kept (some a) kept = a

  -- `setters[k](v)`, if there is a setter for `k`.
  unfoldable pub set_flag : Bytes → Value → YtdlpFlagsConfig → YtdlpFlagsConfig
  unfolding to_float64 to_int
  set_flag k v cfg =
      if k == bytes "quiet"
      then record cfg { quiet = or_kept (as_bool v) cfg.quiet }
      else if k == bytes "noprogress"
      then record cfg { no_progress = or_kept (as_bool v) cfg.no_progress }
      else if k == bytes "writesubs"
      then record cfg { write_subs = or_kept (as_bool v) cfg.write_subs }
      else if k == bytes "writeautosubs"
      then record cfg { write_auto_subs = or_kept (as_bool v) cfg.write_auto_subs }
      else if k == bytes "embedsubs"
      then record cfg { embed_subs = or_kept (as_bool v) cfg.embed_subs }
      else if k == bytes "sublangs"
      then record cfg { sub_langs = or_kept (as_text v) cfg.sub_langs }
      else if k == bytes "requestedformats"
      then record cfg { requested_formats = or_kept (as_text v) cfg.requested_formats }
      else if k == bytes "timeout"
      then record cfg { timeout = or_kept (to_float64 v) cfg.timeout }
      else if k == bytes "sleepInterval"
      then record cfg { sleep_interval = or_kept (to_float64 v) cfg.sleep_interval }
      else if k == bytes "maxDownloads"
      then record cfg { max_downloads = or_kept (to_int v) cfg.max_downloads }
      else if k == bytes "limitRate"
      then record cfg { limit_rate = or_kept (as_text v) cfg.limit_rate }
      else if k == bytes "sleepRequests"
      then record cfg { sleep_requests = or_kept (to_float64 v) cfg.sleep_requests }
      else if k == bytes "maxSleepInterval"
      then record cfg { max_sleep_interval = or_kept (to_float64 v) cfg.max_sleep_interval }
      else if k == bytes "ffmpegLocation"
      then record cfg { ffmpeg_location = or_kept (as_text v) cfg.ffmpeg_location }
      else cfg

  -- applyYtdlpFlags: the loop over the section.
  unfoldable pub apply_ytdlp_flags : Fields → YtdlpFlagsConfig → YtdlpFlagsConfig
  unfolding set_flag
  apply_ytdlp_flags end cfg = cfg
  apply_ytdlp_flags (field k v sec) cfg = apply_ytdlp_flags sec (set_flag k v cfg)
