-- ===== src/Settings/Flags/Read.antt =====
-- The flags of yt-dlp that are read from a section.
use trailarr.Prelude.{ℕ, ◌≡◌, refl, some, ◌==◌}
use trailarr.Values.{Value, plain, plain_fields}
use trailarr.Settings.Flags.{
  YtdlpFlagsConfig, Numbers, to_float64, to_int, set_flag, apply_ytdlp_flags, flags_section,
}

-- If a float64 that was written and read again converts to the same float64, the section that
-- SaveYtdlpFlagsConfig writes gives the same flags when it is read and applied, whatever flags it
-- is applied to.
pub apply-flags_section :
    (N : Numbers) (reread : ℕ → Value) (cfg base : YtdlpFlagsConfig)
    → ((x : ℕ) → to_float64 N (reread x) ≡ some x)
    → apply_ytdlp_flags N (plain_fields reread (flags_section cfg)) base ≡ cfg
unfolding apply_ytdlp_flags set_flag plain ◌==◌ to_int
apply-flags_section N reread cfg base h =
    rw (h cfg.timeout, h cfg.sleep_interval, h cfg.sleep_requests, h cfg.max_sleep_interval) refl
