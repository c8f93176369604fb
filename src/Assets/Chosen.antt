-- ===== src/Assets/Chosen.antt =====
-- The asset that is chosen, internal/system_update.go: the first one that passes the first of the loops
-- with a match.
use trailarr.Prelude.{
  ◌≡◌, refl, ap, Bool, true, false, not, Bool-cases, Option, none, some, List, [], ◌∷◌, ◌++◌, Bytes,
  bytes, ◌==◌, contains, inl, inr,
}
use trailarr.Slices.Filtered.{AllPass}
use trailarr.Assets.{
  Asset, first_url, first_of, wanted_name, is_shared_build, is_usable_build, is_executable_for,
  choose_ffmpeg_asset, choose_yt_dlp_asset,
}

-- The URL is the one of an asset that matches, and no asset before it does.
pub record IsFirst (is_match : Asset → Bool) (assets : List Asset) (url : Bytes) : Type 0 where
  pub before : List Asset
  pub asset : Asset
  pub after : List Asset
  pub splits : assets ≡ before ++ asset ∷ after
  pub no_earlier : AllPass (λ a. not (is_match a)) before
  pub matches : is_match asset ≡ true
  pub its_url : asset.browser_download_url ≡ url

-- What a loop returns: the first match, or nothing when no asset matches.
abbrev pub Returns : (Asset → Bool) → List Asset → Option Bytes → Type 0
Returns is_match assets none = AllPass (λ a. not (is_match a)) assets
Returns is_match assets (some url) = IsFirst is_match assets url

Returns-later :
    (is_match : Asset → Bool) (a : Asset) (assets : List Asset) (r : Option Bytes)
    → is_match a ≡ false
    → Returns is_match assets r
    → Returns is_match (a ∷ assets) r
Returns-later is_match a assets none n all = (rw n refl, all)
Returns-later is_match a assets (some url) n f = record {
  before = a ∷ f.before;
  asset = f.asset;
  after = f.after;
  splits = ap (◌∷◌ a) f.splits;
  no_earlier = (rw n refl, f.no_earlier);
  matches = f.matches;
  its_url = f.its_url;
}

pub first_url-Returns :
    (is_match : Asset → Bool) (assets : List Asset)
    → Returns is_match assets (first_url is_match assets)
unfolding first_url
first_url-Returns is_match [] = tt
first_url-Returns is_match (a ∷ assets) = elim (Bool-cases (is_match a)) [
  | inl y ↦ rw y (record {
    before = [];
    asset = a;
    after = assets;
    splits = refl;
    no_earlier = tt;
    matches = y;
    its_url = refl;
  })
  | inr n ↦ rw n (
      Returns-later is_match a assets (first_url is_match assets) n
        (first_url-Returns is_match assets))
]

-- A match of the first test, else of the second, else of the third, else the empty text.
pub data IsBest (p q r : Asset → Bool) (assets : List Asset) : Bytes → Type 0 where
  by_first : {url : Bytes} → IsFirst p assets url → IsBest p q r assets url
  by_second :
      {url : Bytes}
      → AllPass (λ a. not (p a)) assets
      → IsFirst q assets url
      → IsBest p q r assets url
  by_third :
      {url : Bytes}
      → AllPass (λ a. not (p a)) assets
      → AllPass (λ a. not (q a)) assets
      → IsFirst r assets url
      → IsBest p q r assets url
  no_match :
      AllPass (λ a. not (p a)) assets
      → AllPass (λ a. not (q a)) assets
      → AllPass (λ a. not (r a)) assets
      → IsBest p q r assets []

pub first_of-IsBest :
    (p q r : Asset → Bool) (assets : List Asset) (a b c : Option Bytes)
    → Returns p assets a
    → Returns q assets b
    → Returns r assets c
    → IsBest p q r assets (first_of a b c)
first_of-IsBest p q r assets (some u) b c x y z = by_first x
first_of-IsBest p q r assets none (some u) c x y z = by_second x y
first_of-IsBest p q r assets none none (some u) x y z = by_third x y z
first_of-IsBest p q r assets none none none x y z = no_match x y z

module _ (goos : Bytes) (to_lower : Bytes → Bytes) where
  -- chooseYtDlpAsset answers the URL of the first asset with the exact name for the system, else of the
  -- first one that holds yt-dlp and is an executable for the system, else of the first one that holds
  -- yt-dlp, and the empty text when there is none.
  pub choose_yt_dlp_asset-IsBest :
      (assets : List Asset)
      → IsBest
          (λ a. a.name == wanted_name goos)
          (λ a. is_executable_for goos (to_lower a.name))
          (λ a. contains (to_lower a.name) (bytes "yt-dlp"))
          assets
          (choose_yt_dlp_asset goos to_lower assets)
  unfolding choose_yt_dlp_asset
  choose_yt_dlp_asset-IsBest assets =
      first_of-IsBest _ _ _ assets _ _ _ (first_url-Returns _ assets) (first_url-Returns _ assets)
        (first_url-Returns _ assets)

  -- chooseFfmpegAsset answers the URL of the first shared build for the system, else of the first usable
  -- build, else of the first asset that holds ffmpeg, and the empty text when there is none.
  pub choose_ffmpeg_asset-IsBest :
      (assets : List Asset)
      → IsBest
          (λ a. is_shared_build goos (to_lower a.name))
          (λ a. is_usable_build goos (to_lower a.name))
          (λ a. contains (to_lower a.name) (bytes "ffmpeg"))
          assets
          (choose_ffmpeg_asset goos to_lower assets)
  unfolding choose_ffmpeg_asset
  choose_ffmpeg_asset-IsBest assets =
      first_of-IsBest _ _ _ assets _ _ _ (first_url-Returns _ assets) (first_url-Returns _ assets)
        (first_url-Returns _ assets)
