-- ===== src/Search.antt =====
-- The search for trailers: YouTubeTrailerSearchStreamHandler of internal/youtube.go and the functions
-- below it. The output of yt-dlp is a Reader, bytes.TrimSpace and JSON are arguments. The mode for
-- tests (YtDlpTestMode) is left out.
pub mod Lines
pub mod Rounds
pub mod Terms
use trailarr.Prelude.{
  ℕ, zero, suc, ◌+◌, ◌-◌, ltb, leb, Bool, true, false, ◌&&◌, ◌||◌, Option, none, some, List, [],
  ◌∷◌, ◌++◌, length, Bytes, bytes, ◌==◌, if◌then◌else◌,
}
use trailarr.Prelude.Maps.{GoMap, find, insert}
use trailarr.Slices.{is_seen}
use trailarr.Json.{Codec}

-- The fields that handleYtDlpJSONLine reads; an event has the same.
pub record Video : Type 0 where
  pub id : Bytes
  pub title : Bytes
  pub description : Bytes
  pub thumbnail : Bytes
  pub channel : Bytes
  pub channel_id : Bytes

-- What a bufio.Reader will give: whole lines, and the rest, which comes with an error.
pub record Reader : Type 0 where
  pub lines : List Bytes
  pub rest : Bytes

-- reader.ReadBytes('\n'), with whether there is an error.
abbrev pub read_bytes : Reader → (Bytes × Bool) × Reader
read_bytes r = elim r.lines [
  | [] ↦ ((r.rest, true), record { lines = []; rest = [] })
  | line ∷ lines ↦ ((line, false), record r { lines = lines })
]

-- videoIdSet, and the events that were sent.
pub record Stream : Type 0 where
  pub seen : GoMap Bool
  pub events : List Video

pub record Round : Type 0 where
  pub done : Bool
  pub reader : Reader
  pub added : ℕ
  pub stream : Stream

abbrev pub send : Video → Stream → Stream
send v s = record { seen = insert v.id true s.seen; events = s.events ++ v ∷ [] }

-- One round for each line, one for the rest and one for the end.
abbrev pub rounds_for : Reader → ℕ
rounds_for r = length r.lines + 2

abbrev pub max_results : ℕ
max_results = 10

module _ (trim_space : Bytes → Bytes) (C : Codec Video) where
  -- handleYtDlpJSONLine: the increment, whether something was sent, and the stream.
  unfoldable pub handle_yt_dlp_json_line : Bytes → Stream → (ℕ × Bool) × Stream
  unfolding is_seen
  handle_yt_dlp_json_line line s = elim (C.unmarshal (trim_space line)) [
    | none ↦ ((0, false), s)
    | some item ↦
        if item.id == [] || is_seen s.seen item.id
        then ((0, false), s)
        else ((1, true), send item s)
  ]

  abbrev pub handled : Bytes → Stream → (ℕ × Bool) × Stream
  unfolding handle_yt_dlp_json_line
  handled line s = if trim_space line == [] then ((0, false), s) else handle_yt_dlp_json_line line s

  abbrev pub round_of : Bytes → Bool → Reader → ℕ → ℕ → (ℕ × Bool) × Stream → Round
  round_of line failed reader added remaining ((inc, false), s) = record {
    done = failed && trim_space line == [];
    reader = reader;
    added = added;
    stream = s;
  }
  round_of line failed reader added remaining ((inc, true), s) = record {
    done = leb remaining (added + inc) || (failed && trim_space line == []);
    reader = reader;
    added = added + inc;
    stream = s;
  }

  -- readProcessLine
  unfoldable pub read_process_line : Reader → ℕ → ℕ → Stream → Round
  unfolding handled
  read_process_line reader added remaining s =
      let ((line, failed), next) = read_bytes reader in
      round_of line failed next added remaining (handled line s)

  -- streamYtDlpOutput, for at most `rounds` rounds; none if they are not enough.
  unfoldable pub stream_yt_dlp_output : ℕ → Reader → ℕ → ℕ → Stream → Option (ℕ × Stream)
  unfolding read_process_line
  stream_yt_dlp_output zero reader added remaining s = none
  stream_yt_dlp_output (suc rounds) reader added remaining s = elim (ltb added remaining) [
    | false ↦ some (added, s)
    | true ↦
        let r = read_process_line reader added remaining s in
        elim r.done [
          | true ↦ some (r.added, r.stream)
          | false ↦ stream_yt_dlp_output rounds r.reader r.added remaining r.stream
        ]
  ]

  -- streamYtDlpSearchForTerm: `start` is startYtDlpCommand, none if it fails.
  unfoldable pub stream_search_for_term :
      (Bytes → Option Reader) → Bytes → ℕ → Stream → Option (ℕ × Stream)
  unfolding stream_yt_dlp_output
  stream_search_for_term start term zero s = some (0, s)
  stream_search_for_term start term (suc n) s = elim (start (term ++ bytes " trailer")) [
    | none ↦ some (0, s)
    | some reader ↦ stream_yt_dlp_output (rounds_for reader) reader 0 (suc n) s
  ]

  -- The loop over the terms, with totalCount.
  unfoldable pub search_terms : (Bytes → Option Reader) → List Bytes → ℕ → Stream → Option Stream
  unfolding stream_search_for_term
  search_terms start [] total s = some s
  search_terms start (term ∷ terms) total s = elim (leb max_results total) [
    | true ↦ some s
    | false ↦ elim (stream_search_for_term start term (max_results - total) s) [
      | none ↦ none
      | some (added, t) ↦ search_terms start terms (total + added) t
    ]
  ]

-- The terms: the original title, and the title if it is another one.
unfoldable pub terms_of : Bytes → Bytes → List Bytes
terms_of title original_title =
    let titles = if title == [] || original_title == title then [] else title ∷ [] in
    if original_title == [] then titles else original_title ∷ titles
