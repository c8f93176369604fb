-- ===== src/Tests/Assets.antt =====
-- Runs of the choice of a release asset.
use trailarr.Prelude.{◌≡◌, refl, List, [], ◌∷◌, ◌==◌, bytes, contains, has_prefix}
use trailarr.Assets.{
  Asset, has_suffix, first_url, is_shared_build, is_usable_build, is_executable_for,
  choose_ffmpeg_asset, choose_yt_dlp_asset,
}

abbrev yt_dlp_assets : List Asset
yt_dlp_assets =
    record { name = bytes "yt-dlp.exe"; browser_download_url = bytes "x" }
    ∷ record { name = bytes "yt-dlp"; browser_download_url = bytes "y" }
    ∷ []

linux_yt_dlp : choose_yt_dlp_asset (bytes "linux") (λ s. s) yt_dlp_assets ≡ bytes "y"
unfolding choose_yt_dlp_asset first_url is_executable_for contains has_prefix has_suffix ◌==◌
linux_yt_dlp = refl

abbrev ffmpeg_assets : List Asset
ffmpeg_assets =
    record { name = bytes "ffmpeg-linuxarm64-lgpl-shared.tar.xz"; browser_download_url = bytes "a" }
    ∷ record { name = bytes "ffmpeg-linux64-gpl.tar.xz"; browser_download_url = bytes "g" }
    ∷ record { name = bytes "ffmpeg-linux64-lgpl-shared.tar.xz"; browser_download_url = bytes "s" }
    ∷ []

linux_ffmpeg : choose_ffmpeg_asset (bytes "linux") (λ s. s) ffmpeg_assets ≡ bytes "s"
unfolding choose_ffmpeg_asset first_url is_shared_build is_usable_build contains has_prefix
    has_suffix ◌==◌
linux_ffmpeg = refl
