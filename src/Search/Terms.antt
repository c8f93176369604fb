-- ===== src/Search/Terms.antt =====
-- The search over all terms.
use trailarr.Prelude.{
  zero, suc, ℕ, ◌+◌, ◌-◌, ◌≡◌, sym, ap, ◌∙◌, leb, Option, none, some, List, [], ◌∷◌, ◌++◌, length,
  length-take, take, take-all, take-nil, Bytes, bytes, arith, Bool-cases, Option-cases, inl, inr,
}
use mathlib.Core.List.{append-nil}
use trailarr.Store.Recent.{take-append}
use trailarr.Json.{Codec}
use trailarr.Search.{
  Video, Reader, Stream, rounds_for, stream_search_for_term, max_results, search_terms,
}
use trailarr.Search.Lines.{
  fresh, mark, extend, extend-append, extend-none, fresh-append, take-whole, answer, answer-none,
  videos,
}
use trailarr.Search.Rounds.{stream_yt_dlp_output-answer}

module _ (trim_space : Bytes → Bytes) (C : Codec Video) (start : Bytes → Option Reader) where
  -- All videos of the output for a term; none if yt-dlp does not start.
  unfoldable pub term_videos : Bytes → List Video
  term_videos term = elim (start (term ++ bytes " trailer")) [
    | none ↦ []
    | some reader ↦ videos trim_space C reader
  ]

  unfoldable pub all_videos : List Bytes → List Video
  all_videos [] = []
  all_videos (term ∷ terms) = term_videos term ++ all_videos terms

  term-answer :
      (trim-nil : trim_space [] ≡ []) (term : Bytes) (remaining : ℕ) (s : Stream)
      → stream_search_for_term trim_space C start term remaining s
        ≡ answer 0 s (take remaining (fresh s.seen (term_videos term)))
  unfolding stream_search_for_term term_videos fresh
  term-answer trim-nil term zero s = answer-none 0 s
  term-answer trim-nil term (suc n) s = elim (Option-cases (start (term ++ bytes " trailer"))) [
    | inl e ↦ rw (stream_search_for_term, term_videos, e) (answer-none 0 s)
    | inr (r, e) ↦
        rw (stream_search_for_term, term_videos, e)
          (stream_yt_dlp_output-answer trim_space C trim-nil (rounds_for r) r (suc n) s
            (omega arith))
  ]

  -- What is sent for two outputs, one after the other.
  both :
      (n m : ℕ) (s : Stream) (xs ys : List Video)
      → m ≡ n - length (take n (fresh s.seen xs))
      → extend
          (extend s (take n (fresh s.seen xs)))
          (take m (fresh (mark s.seen (take n (fresh s.seen xs))) ys))
        ≡ extend s (take n (fresh s.seen (xs ++ ys)))
  both n m s xs ys e =
      let first = fresh s.seen xs in
      let second = fresh (mark s.seen first) ys in
      ap (λ k. extend (extend s (take n first)) (take k (fresh (mark s.seen (take n first)) ys))) e
      ∙ elim (Bool-cases (leb (length first) n)) [
        | inl y ↦
            ap (λ zs. extend (extend s zs) (take (n - length zs) (fresh (mark s.seen zs) ys)))
              (take-all n first (ground (arith, y)))
            ∙ sym (extend-append s first (take (n - length first) second))
            ∙ ap (extend s) (sym (take-whole n first second (ground (arith, y))))
        | inr l ↦
            ap
              (λ k.
                extend (extend s (take n first)) (take k (fresh (mark s.seen (take n first)) ys)))
              (let z : n - length (take n first) ≡ 0 = ground (arith, l, length-take n first) in z)
            ∙ sym (extend-append s (take n first) [])
            ∙ ap (extend s)
                (append-nil (take n first) ∙ sym (take-append n first second (ground (arith, l))))
      ]
      ∙ ap (λ zs. extend s (take n zs)) (sym (fresh-append s.seen xs ys))

  module _ (trim-nil : trim_space [] ≡ []) where
    -- If TrimSpace of nothing is nothing: with a round for each line and two more, the search
    -- ends, and of the videos in the outputs of all terms, in order, it sends those that have an
    -- id and were not sent before, up to the first 10 in all.
    pub search_terms-first :
        (terms : List Bytes) (total : ℕ) (s : Stream)
        → search_terms trim_space C start terms total s
          ≡ some (extend s (take (max_results - total) (fresh s.seen (all_videos terms))))
    unfolding search_terms all_videos fresh
    search_terms-first [] total s =
        ap some (extend-none s ∙ ap (extend s) (sym (take-nil (max_results - total))))
    search_terms-first (term ∷ terms) total s = elim (Bool-cases (leb max_results total)) [
      | inl y ↦
          rw (search_terms, y)
            (let z : max_results - total ≡ 0 = ground (arith, y) in rw z (ap some (extend-none s)))
      | inr n ↦
          rw (search_terms, n, term-answer trim-nil term (10 - total) s)
            (let sent = take (max_results - total) (fresh s.seen (term_videos term)) in
              search_terms-first terms (total + (0 + length sent)) (extend s sent)
              ∙ ap some (
                  both (max_results - total) (max_results - (total + (0 + length sent))) s
                    (term_videos term) (all_videos terms) (omega arith)))
    ]
