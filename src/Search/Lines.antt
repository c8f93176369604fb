-- ===== src/Search/Lines.antt =====
-- The events for the output of one run: the new videos, in order, each once.
use trailarr.Prelude.{
  ℕ, zero, suc, ◌≤◌, ◌+◌, ◌-◌, ◌≡◌, refl, sym, ap, ◌∙◌, Bool, true, false, ◌||◌, Option, none, some,
  List, [], ◌∷◌, ◌++◌, length, take, Bytes, ◌==◌, arith, Bool-cases, Option-cases, inl, inr,
  if◌then◌else◌,
}
use mathlib.Core.Logic.{◌⊎◌}
use mathlib.Core.List.{append_assoc, append-nil}
use trailarr.Prelude.Maps.{GoMap, insert}
use trailarr.Slices.{is_seen}
use trailarr.Json.{Codec}
use trailarr.Search.{Video, Reader, Stream, send, handle_yt_dlp_json_line, handled}

-- The videos whose id is there and was not seen before.
unfoldable pub fresh : GoMap Bool → List Video → List Video
fresh seen [] = []
fresh seen (v ∷ vs) = elim (v.id == [] || is_seen seen v.id) [
  | true ↦ fresh seen vs
  | false ↦ v ∷ fresh (insert v.id true seen) vs
]

abbrev pub mark : GoMap Bool → List Video → GoMap Bool
mark seen [] = seen
mark seen (v ∷ vs) = mark (insert v.id true seen) vs

abbrev pub extend : Stream → List Video → Stream
extend s vs = record { seen = mark s.seen vs; events = s.events ++ vs }

mark-append :
    (seen : GoMap Bool) (xs ys : List Video) → mark seen (xs ++ ys) ≡ mark (mark seen xs) ys
mark-append seen [] ys = refl
mark-append seen (x ∷ xs) ys = mark-append (insert x.id true seen) xs ys

pub extend-append :
    (s : Stream) (xs ys : List Video) → extend s (xs ++ ys) ≡ extend (extend s xs) ys
extend-append s xs ys =
    λ i. record { seen = mark-append s.seen xs ys i; events = sym (append_assoc s.events xs ys) i }

pub fresh-append :
    (seen : GoMap Bool) (xs ys : List Video)
    → fresh seen (xs ++ ys) ≡ fresh seen xs ++ fresh (mark seen (fresh seen xs)) ys
unfolding fresh
fresh-append seen [] ys = refl
fresh-append seen (x ∷ xs) ys = elim (Bool-cases (x.id == [] || is_seen seen x.id)) [
  | inl y ↦ rw (fresh, y) (fresh-append seen xs ys)
  | inr n ↦ rw (fresh, n) (ap (◌∷◌ x) (fresh-append (insert x.id true seen) xs ys))
]

pub take-whole {ℓ} :
    {A : Type ℓ} (n : ℕ) (xs ys : List A)
    → length xs ≤ n
    → take n (xs ++ ys) ≡ xs ++ take (n - length xs) ys
take-whole n [] ys h = ap (λ m. take m ys) (omega arith)
take-whole zero (x ∷ xs) ys h = absurd (omega arith)
take-whole (suc n) (x ∷ xs) ys h =
    ap (◌∷◌ x) (take-whole n xs ys (omega arith) ∙ ap (λ m. xs ++ take m ys) (omega arith))

-- What is answered once `vs` were sent.
abbrev pub answer : ℕ → Stream → List Video → Option (ℕ × Stream)
answer added s vs = some (added + length vs, extend s vs)

pub extend-none : (s : Stream) → s ≡ extend s []
extend-none s = λ i. record { seen = s.seen; events = sym (append-nil s.events) i }

pub answer-none : (added : ℕ) (s : Stream) → some (added, s) ≡ answer added s []
answer-none added s = let e : added ≡ added + 0 = omega arith in λ i. some (e i, extend-none s i)

pub answer-send :
    (added : ℕ) (s : Stream) (v : Video) (vs : List Video)
    → answer (added + 1) (send v s) vs ≡ answer added s (v ∷ vs)
answer-send added s v vs =
    let e : (added + 1) + length vs ≡ added + suc (length vs) = omega arith in
    λ i. some (e i, sym (extend-append s (v ∷ []) vs) i)

module _ (trim_space : Bytes → Bytes) (C : Codec Video) where
  -- The video of a line, if there is one.
  unfoldable pub line_videos : Bytes → List Video
  line_videos line =
      if trim_space line == []
      then []
      else elim (C.unmarshal (trim_space line)) [ none ↦ [] | some v ↦ v ∷ [] ]

  unfoldable pub videos_of : List Bytes → List Video
  videos_of [] = []
  videos_of (line ∷ lines) = line_videos line ++ videos_of lines

  -- All videos of an output.
  unfoldable pub videos : Reader → List Video
  videos r = videos_of (r.lines ++ r.rest ∷ [])

  -- A line sends nothing, or one video.
  pub handled-cases :
      (line : Bytes) (s : Stream)
      → ((fresh s.seen (line_videos line) ≡ []) × (handled trim_space C line s ≡ ((0, false), s)))
        ⊎ ((v : Video) × (fresh s.seen (line_videos line) ≡ v ∷ [])
            × (handled trim_space C line s ≡ ((1, true), send v s)))
  unfolding handled handle_yt_dlp_json_line fresh line_videos
  handled-cases line s = elim (Bool-cases (trim_space line == [])) [
    | inl y ↦ inl (rw (line_videos, y) refl, rw (handled, y) refl)
    | inr n ↦ elim (Option-cases (C.unmarshal (trim_space line))) [
      | inl e ↦ inl (rw (line_videos, n, e) refl, rw (handled, n, handle_yt_dlp_json_line, e) refl)
      | inr (v, e) ↦ elim (Bool-cases (v.id == [] || is_seen s.seen v.id)) [
        | inl o ↦ inl (
          rw (line_videos, n, e, fresh, o) refl,
          rw (handled, n, handle_yt_dlp_json_line, e, o) refl,
        )
        | inr p ↦ inr (
          v,
          rw (line_videos, n, e, fresh, p) refl,
          rw (handled, n, handle_yt_dlp_json_line, e, p) refl,
        )
      ]
    ]
  ]
