-- ===== src/Assets.antt =====
-- The choice of the release asset of ffmpeg and of yt-dlp, internal/system_update.go. runtime.GOOS and
-- strings.ToLower are arguments.
pub mod Chosen
use trailarr.Prelude.{
  Bool, true, false, ◌&&◌, ◌||◌, not, Option, none, some, List, [], ◌∷◌, ◌++◌, Bytes, bytes, ◌==◌,
  contains, if◌then◌else◌,
}

-- An asset of a release of GitHub.
pub record Asset : Type 0 where
  pub name : Bytes
  pub browser_download_url : Bytes

-- strings.HasSuffix
unfoldable pub has_suffix : Bytes → Bytes → Bool
unfolding ◌==◌
has_suffix [] suffix = [] == suffix
has_suffix (c ∷ s) suffix = (c ∷ s) == suffix || has_suffix s suffix

-- A loop that returns the URL of the first asset that passes its tests.
unfoldable pub first_url : (Asset → Bool) → List Asset → Option Bytes
first_url is_match [] = none
first_url is_match (a ∷ assets) =
    let rest = first_url is_match assets in if is_match a then some a.browser_download_url else rest

-- One loop after another, then `return ""`.
abbrev pub first_of : Option Bytes → Option Bytes → Option Bytes → Bytes
first_of (some url) second third = url
first_of none (some url) third = url
first_of none none (some url) = url
first_of none none none = []

abbrev windows : Bytes
windows = bytes "windows"

abbrev linux : Bytes
linux = bytes "linux"

abbrev names_linux : Bytes → Bool
names_linux n =
    contains n (bytes "linux") || contains n (bytes "linux64") || contains n (bytes "linux64")

-- The tests of the first loop, on the name in lower case.
unfoldable pub is_shared_build : Bytes → Bytes → Bool
is_shared_build goos n =
    goos == linux
      && contains n (bytes "linux64")
      && contains n (bytes "lgpl")
      && contains n (bytes "shared")
      && has_suffix n (bytes ".tar.xz")
    || goos == windows
      && contains n (bytes "win64")
      && contains n (bytes "gpl")
      && contains n (bytes "shared")
      && has_suffix n (bytes ".zip")

-- `wantedExt`
abbrev wanted_ext : Bytes → Bytes
wanted_ext goos = if goos == windows then bytes ".exe" else []

-- The two tests that end in `continue`.
abbrev is_skipped : Bytes → Bytes → Bool
is_skipped ext n =
    not (ext == []) && not (has_suffix n ext) || ext == [] && has_suffix n (bytes ".exe")

-- The tests of the second loop.
unfoldable pub is_usable_build : Bytes → Bytes → Bool
is_usable_build goos n =
    if contains n (bytes "ffmpeg")
    then if is_skipped (wanted_ext goos) n
      then false
      else contains n (bytes "static") && names_linux n && contains n (bytes "x86")
        || contains n (bytes "gpl") && names_linux n
        || (contains n (bytes "linux")
            || contains n (bytes "x86")
            || contains n (bytes "x64")
            || contains n (bytes "amd64"))
    else false

-- YtDlpCmd
abbrev pub yt_dlp_cmd : Bytes
yt_dlp_cmd = bytes "yt-dlp"

-- `wanted` of chooseYtDlpAsset.
abbrev pub wanted_name : Bytes → Bytes
wanted_name goos = if goos == windows then yt_dlp_cmd ++ bytes ".exe" else yt_dlp_cmd

-- The tests of the second loop of chooseYtDlpAsset.
unfoldable pub is_executable_for : Bytes → Bytes → Bool
is_executable_for goos lname =
    contains lname (bytes "yt-dlp")
    && (goos == windows && has_suffix lname (bytes ".exe")
        || not (goos == windows) && not (has_suffix lname (bytes ".exe")))

module _ (goos : Bytes) (to_lower : Bytes → Bytes) where
  unfoldable pub choose_ffmpeg_asset : List Asset → Bytes
  unfolding first_url
  choose_ffmpeg_asset assets =
      first_of (first_url (λ a. is_shared_build goos (to_lower a.name)) assets)
        (first_url (λ a. is_usable_build goos (to_lower a.name)) assets)
        (first_url (λ a. contains (to_lower a.name) (bytes "ffmpeg")) assets)

  unfoldable pub choose_yt_dlp_asset : List Asset → Bytes
  unfolding first_url
  choose_yt_dlp_asset assets =
      first_of (first_url (λ a. a.name == wanted_name goos) assets)
        (first_url (λ a. is_executable_for goos (to_lower a.name)) assets)
        (first_url (λ a. contains (to_lower a.name) (bytes "yt-dlp")) assets)
