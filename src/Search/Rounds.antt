-- ===== src/Search/Rounds.antt =====
-- The rounds of streamYtDlpOutput: what they send, and how many are enough.
use trailarr.Prelude.{
  ℕ, zero, suc, ◌≤◌, ◌+◌, ◌-◌, ◌≡◌, refl, sym, ap, ◌∙◌, ltb, leb, Bool, true, false, ◌&&◌, ◌||◌,
  Option, some, List, [], ◌∷◌, ◌++◌, length, take, Bytes, ◌==◌, arith, Bool-cases, inl, inr,
}
use trailarr.Prelude.Maps.{insert}
use trailarr.Json.{Codec}
use trailarr.Search.{
  Video, Reader, Stream, Round, send, handled, round_of, read_process_line, stream_yt_dlp_output,
}
use trailarr.Search.Lines.{
  fresh, mark, fresh-append, answer, answer-none, answer-send, line_videos, videos_of, videos,
  handled-cases,
}

module _ (trim_space : Bytes → Bytes) (C : Codec Video) where
  abbrev pub sent : ℕ → ℕ → Stream → List Video → Option (ℕ × Stream)
  unfolding fresh
  sent n added s vs = answer added s (take n (fresh s.seen vs))

  sent-skip :
      (n added : ℕ) (s : Stream) (xs vs : List Video)
      → fresh s.seen xs ≡ []
      → sent n added s vs ≡ sent n added s (xs ++ vs)
  unfolding sent
  sent-skip n added s xs vs e =
      ap (λ ys. answer added s (take n ys))
        (sym (fresh-append s.seen xs vs ∙ ap (λ ys. ys ++ fresh (mark s.seen ys) vs) e))

  sent-send :
      (n added : ℕ) (s : Stream) (v : Video) (xs vs : List Video)
      → fresh s.seen xs ≡ v ∷ []
      → sent n (added + 1) (send v s) vs ≡ sent (suc n) added s (xs ++ vs)
  unfolding sent
  sent-send n added s v xs vs e =
      answer-send added s v (take n (fresh (insert v.id true s.seen) vs))
      ∙ ap (λ ys. answer added s (take (suc n) ys))
          (sym (fresh-append s.seen xs vs ∙ ap (λ ys. ys ++ fresh (mark s.seen ys) vs) e))

  abbrev after_round : ℕ → ℕ → Round → Option (ℕ × Stream)
  unfolding stream_yt_dlp_output
  after_round rounds remaining r = elim r.done [
    | true ↦ some (r.added, r.stream)
    | false ↦ stream_yt_dlp_output trim_space C rounds r.reader r.added remaining r.stream
  ]

  one_round :
      (rounds : ℕ) (reader : Reader) (added remaining : ℕ) (s : Stream)
      → ltb added remaining ≡ true
      → stream_yt_dlp_output trim_space C (suc rounds) reader added remaining s
        ≡ after_round rounds remaining (read_process_line trim_space C reader added remaining s)
  unfolding stream_yt_dlp_output after_round
  one_round rounds reader added remaining s h = rw (stream_yt_dlp_output, h) refl

  no_round :
      (rounds : ℕ) (reader : Reader) (added remaining : ℕ) (s : Stream)
      → ltb added remaining ≡ false
      → stream_yt_dlp_output trim_space C (suc rounds) reader added remaining s ≡ some (added, s)
  unfolding stream_yt_dlp_output
  no_round rounds reader added remaining s h = rw (stream_yt_dlp_output, h) refl

  -- The round for a line of which `o` is what was done.
  read-line :
      (line : Bytes) (lines : List Bytes) (rest : Bytes) (added remaining : ℕ) (s : Stream)
      (o : (ℕ × Bool) × Stream)
      → handled trim_space C line s ≡ o
      → read_process_line trim_space C
          (record { lines = line ∷ lines; rest = rest })
          added
          remaining
          s
        ≡ round_of trim_space C line false (record { lines = lines; rest = rest }) added remaining o
  unfolding read_process_line
  read-line line lines rest added remaining s o e =
      ap (round_of trim_space C line false (record { lines = lines; rest = rest }) added remaining)
        e

  read-rest :
      (rest : Bytes) (added remaining : ℕ) (s : Stream) (o : (ℕ × Bool) × Stream)
      → handled trim_space C rest s ≡ o
      → read_process_line trim_space C (record { lines = []; rest = rest }) added remaining s
        ≡ round_of trim_space C rest true (record { lines = []; rest = [] }) added remaining o
  unfolding read_process_line
  read-rest rest added remaining s o e =
      ap (round_of trim_space C rest true (record { lines = []; rest = [] }) added remaining) e

  module _ (trim-nil : trim_space [] ≡ []) where
    nothing : (s : Stream) → handled trim_space C [] s ≡ ((0, false), s)
    unfolding handled ◌==◌
    nothing s = rw (handled, trim-nil) refl

    -- Nothing is left to read.
    ended :
        (rounds added remaining : ℕ) (s : Stream)
        → stream_yt_dlp_output trim_space C
            (suc rounds)
            (record { lines = []; rest = [] })
            added
            remaining
            s
          ≡ some (added, s)
    unfolding after_round ◌==◌
    ended rounds added remaining s = elim (Bool-cases (ltb added remaining)) [
      | inl y ↦
          one_round rounds (record { lines = []; rest = [] }) added remaining s y
          ∙ ap (after_round rounds remaining)
              (read-rest [] added remaining s ((0, false), s) (nothing s))
          ∙ (rw trim-nil refl)
      | inr n ↦ no_round rounds (record { lines = []; rest = [] }) added remaining s n
    ]

    sent-nil : (n added : ℕ) (s : Stream) → some (added, s) ≡ sent n added s []
    unfolding sent fresh
    sent-nil zero added s = answer-none added s
    sent-nil (suc n) added s = answer-none added s

    -- One more was sent, and `m` remain.
    one-less :
        (m added remaining : ℕ) (s : Stream) (v : Video) (xs vs : List Video)
        → fresh s.seen xs ≡ v ∷ []
        → suc m ≡ remaining - added
        → sent m (added + 1) (send v s) vs ≡ sent (remaining - added) added s (xs ++ vs)
    one-less m added remaining s v xs vs e r =
        sent-send m added s v xs vs e ∙ ap (λ n. sent n added s (xs ++ vs)) r

    rest-nothing :
        (rounds : ℕ) (rest : Bytes) (added remaining : ℕ) (s : Stream)
        → after_round (suc rounds) remaining (
            round_of trim_space C rest true
              (record { lines = []; rest = [] })
              added
              remaining
              ((0, false), s))
          ≡ some (added, s)
    unfolding after_round
    rest-nothing rounds rest added remaining s = elim (Bool-cases (trim_space rest == [])) [
      | inl y ↦ rw y refl
      | inr n ↦ rw n (ended rounds added remaining s)
    ]

    rest-send :
        (rounds : ℕ) (rest : Bytes) (added remaining : ℕ) (s : Stream)
        → after_round (suc rounds) remaining (
            round_of trim_space C rest true
              (record { lines = []; rest = [] })
              added
              remaining
              ((1, true), s))
          ≡ some (added + 1, s)
    unfolding after_round
    rest-send rounds rest added remaining s =
        elim (Bool-cases (leb remaining (added + 1) || (true && trim_space rest == []))) [
          | inl y ↦ rw y refl
          | inr n ↦ rw n (ended rounds (added + 1) remaining s)
        ]

    abbrev Output : ℕ → List Bytes → Bytes → Type 0
    unfolding stream_yt_dlp_output sent videos_of
    Output rounds lines rest =
        (added remaining : ℕ) (s : Stream)
        → added ≤ remaining
        → stream_yt_dlp_output trim_space C rounds (record { lines = lines; rest = rest }) added
            remaining s
          ≡ sent (remaining - added) added s (videos_of trim_space C (lines ++ rest ∷ []))

    done-Output :
        (rounds : ℕ) (reader : Reader) (added remaining : ℕ) (s : Stream) (vs : List Video)
        → ltb added remaining ≡ false
        → added ≤ remaining
        → stream_yt_dlp_output trim_space C (suc rounds) reader added remaining s
          ≡ sent (remaining - added) added s vs
    unfolding sent
    done-Output rounds reader added remaining s vs n h =
        let e : remaining - added ≡ 0 = ground (arith, n, h) in
        no_round rounds reader added remaining s n ∙ answer-none added s ∙ (rw e refl)

    rest-Output : (rounds : ℕ) (rest : Bytes) → Output (suc (suc rounds)) [] rest
    unfolding Output videos_of
    rest-Output rounds rest added remaining s h = elim (Bool-cases (ltb added remaining)) [
      | inr n ↦
          done-Output (suc rounds) (record { lines = []; rest = rest }) added remaining s
            (line_videos trim_space C rest ++ []) n h
      | inl y ↦
          one_round (suc rounds) (record { lines = []; rest = rest }) added remaining s y
          ∙ elim (handled-cases trim_space C rest s) [
            | inl (e, o) ↦
                ap (after_round (suc rounds) remaining)
                  (read-rest rest added remaining s ((0, false), s) o)
                ∙ rest-nothing rounds rest added remaining s
                ∙ sent-nil (remaining - added) added s
                ∙ sent-skip (remaining - added) added s (line_videos trim_space C rest) [] e
            | inr (v, e, o) ↦
                ap (after_round (suc rounds) remaining)
                  (read-rest rest added remaining s ((1, true), send v s) o)
                ∙ rest-send rounds rest added remaining (send v s)
                ∙ sent-nil (remaining - (added + 1)) (added + 1) (send v s)
                ∙ one-less (remaining - (added + 1)) added remaining s v
                    (line_videos trim_space C rest) [] e (ground (arith, y))
          ]
    ]

    line-Output :
        (rounds : ℕ) (line : Bytes) (lines : List Bytes) (rest : Bytes)
        → Output rounds lines rest
        → Output (suc rounds) (line ∷ lines) rest
    unfolding Output videos_of after_round
    line-Output rounds line lines rest ih added remaining s h =
        elim (Bool-cases (ltb added remaining)) [
          | inr n ↦
              done-Output rounds (record { lines = line ∷ lines; rest = rest }) added remaining s
                (line_videos trim_space C line ++ videos_of trim_space C (lines ++ rest ∷ [])) n h
          | inl y ↦
              one_round rounds (record { lines = line ∷ lines; rest = rest }) added remaining s y
              ∙ elim (handled-cases trim_space C line s) [
                | inl (e, o) ↦
                    ap (after_round rounds remaining)
                      (read-line line lines rest added remaining s ((0, false), s) o)
                    ∙ ih added remaining s h
                    ∙ sent-skip (remaining - added) added s (line_videos trim_space C line)
                        (videos_of trim_space C (lines ++ rest ∷ [])) e
                | inr (v, e, o) ↦
                    ap (after_round rounds remaining)
                      (read-line line lines rest added remaining s ((1, true), send v s) o)
                    ∙ elim (Bool-cases (leb remaining (added + 1))) [
                      | inl l ↦ rw l (
                          answer-none (added + 1) (send v s)
                          ∙ one-less 0 added remaining s v (line_videos trim_space C line)
                              (videos_of trim_space C (lines ++ rest ∷ [])) e
                              (ground (arith, y, l)))
                      | inr m ↦ rw m (
                          ih (added + 1) remaining (send v s) (ground (arith, m, y))
                          ∙ one-less (remaining - (added + 1)) added remaining s v
                              (line_videos trim_space C line)
                              (videos_of trim_space C (lines ++ rest ∷ [])) e (ground (arith, y)))
                    ]
              ]
        ]

    enough :
        (rounds : ℕ) (lines : List Bytes) (rest : Bytes)
        → length lines + 2 ≤ rounds
        → Output rounds lines rest
    enough zero lines rest l = absurd (omega arith)
    enough (suc zero) lines rest l = absurd (omega arith)
    enough (suc (suc rounds)) [] rest l = rest-Output rounds rest
    enough (suc (suc rounds)) (line ∷ lines) rest l =
        line-Output (suc rounds) line lines rest (enough (suc rounds) lines rest (omega arith))

    -- With a round for each line and two more.
    pub stream_yt_dlp_output-answer :
        (rounds : ℕ) (reader : Reader) (remaining : ℕ) (s : Stream)
        → length reader.lines + 2 ≤ rounds
        → stream_yt_dlp_output trim_space C rounds reader 0 remaining s
          ≡ answer 0 s (take remaining (fresh s.seen (videos trim_space C reader)))
    unfolding Output sent videos
    stream_yt_dlp_output-answer rounds reader remaining s l =
        enough rounds reader.lines reader.rest l 0 remaining s (omega arith)
        ∙ ap (λ n. answer 0 s (take n (fresh s.seen (videos trim_space C reader)))) (omega arith)
