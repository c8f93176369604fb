-- ===== src/Tests/Search.antt =====
-- The theorem of the search at concrete outputs of yt-dlp.
use trailarr.Prelude.{
  ◌≡◌, refl, none, some, Option, [], ◌∷◌, Bytes, bytes, ◌==◌, if◌then◌else◌, take,
}
use trailarr.Json.{Codec}
use trailarr.Search.{Video, Reader, Stream, search_terms}
use trailarr.Search.Lines.{fresh, extend}
use trailarr.Search.Terms.{all_videos, search_terms-first}

abbrev video : Bytes → Video
video id = record {
  id = id;
  title = [];
  description = [];
  thumbnail = [];
  channel = [];
  channel_id = [];
}

-- A line is the id.
abbrev video_codec : Codec Video
video_codec = record { marshal = λ v. some v.id; unmarshal = λ b. some (video b) }

-- The first run repeats a video and ends without a line break; the second one does not start.
abbrev start : Bytes → Option Reader
start term =
    if term == bytes "t trailer"
    then some (record { lines = bytes "a" ∷ bytes "b" ∷ bytes "a" ∷ []; rest = bytes "c" })
    else none

abbrev nothing_sent : Stream
nothing_sent = record { seen = []; events = [] }

search_terms-first_example :
    search_terms (λ s. s) video_codec start (bytes "t" ∷ bytes "u" ∷ []) 0 nothing_sent
    ≡ some (
        extend nothing_sent
          (take 10 (fresh [] (all_videos (λ s. s) video_codec start (bytes "t" ∷ bytes "u" ∷ [])))))
search_terms-first_example =
    search_terms-first (λ s. s) video_codec start refl (bytes "t" ∷ bytes "u" ∷ []) 0 nothing_sent
