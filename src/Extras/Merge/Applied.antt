-- ===== src/Extras/Merge/Applied.antt =====
-- What applyRejectedExtras answers, internal/media.go.
use trailarr.Prelude.{
  ◌≡◌, refl, sym, ap, ◌∙◌, true, false, Option, none, some, List, [], ◌∷◌, ◌++◌, Bytes, bytes, ◌==◌,
  ==_iff, if◌then◌else◌, inl, inr, Bool-cases,
}
use trailarr.Prelude.Maps.{GoMap, find, insert, find-insert}
use trailarr.Extras.Merge.{
  Extra, RejectedExtra, has_youtube_id, reasons, mark_with, mark_all, missing_rejected,
  apply_rejected_extras,
}

-- The reason of the last rejection of an id, or else `found`.
unfoldable pub last_reason : Bytes → Option Bytes → List RejectedExtra → Option Bytes
last_reason id found [] = found
last_reason id found (r ∷ rejected) =
    last_reason id (if r.youtube_id == id then some r.reason else found) rejected

reasons-last_reason :
    (id : Bytes) (rejected : List RejectedExtra) (m : GoMap Bytes)
    → find id (reasons rejected m) ≡ last_reason id (find id m) rejected
unfolding reasons last_reason
reasons-last_reason id [] m = refl
reasons-last_reason id (r ∷ rejected) m =
    reasons-last_reason id rejected (insert r.youtube_id r.reason m)
    ∙ ap (λ o. last_reason id o rejected) (find-insert r.youtube_id id r.reason m)

-- An extra whose id is not rejected stays; else it gets the status "rejected" and the last reason.
pub data Shown (rejected : List RejectedExtra) (e : Extra) : Extra → Type 0 where
  as_it_was : last_reason e.youtube_id none rejected ≡ none → Shown rejected e e
  as_rejected :
      (reason : Bytes)
      → last_reason e.youtube_id none rejected ≡ some reason
      → Shown rejected e (record e { status = bytes "rejected"; reason = reason })

pub data EachShown (rejected : List RejectedExtra) : List Extra → List Extra → Type 0 where
  no_extra : EachShown rejected [] []
  extra_too :
      {e f : Extra} {es fs : List Extra}
      → Shown rejected e f
      → EachShown rejected es fs
      → EachShown rejected (e ∷ es) (f ∷ fs)

-- An extra with this id is listed.
pub data IsListed (id : Bytes) : List Extra → Type 0 where
  as_first : {e : Extra} {es : List Extra} → e.youtube_id ≡ id → IsListed id (e ∷ es)
  as_later : {e : Extra} {es : List Extra} → IsListed id es → IsListed id (e ∷ es)

-- The rejections without a listed extra, each as an extra, in order.
pub data Added (final : List Extra) : List RejectedExtra → List Extra → Type 0 where
  no_rejection : Added final [] []
  listed :
      {r : RejectedExtra} {rs : List RejectedExtra} {es : List Extra}
      → IsListed r.youtube_id final
      → Added final rs es
      → Added final (r ∷ rs) es
  unlisted :
      {r : RejectedExtra} {rs : List RejectedExtra} {es : List Extra}
      → ¬ IsListed r.youtube_id final
      → Added final rs es
      → Added final (r ∷ rs) (
          record {
            id = [];
            extra_type = r.extra_type;
            extra_title = r.extra_title;
            youtube_id = r.youtube_id;
            status = bytes "rejected";
            reason = r.reason;
          }
          ∷ es)

pub record Applied (final : List Extra) (rejected : List RejectedExtra) (answer : List Extra)
    : Type 0 where
  pub shown : List Extra
  pub added : List Extra
  pub parts : answer ≡ shown ++ added
  pub each_shown : EachShown rejected final shown
  pub rest_added : Added final rejected added

mark_with-Shown :
    (rejected : List RejectedExtra) (e : Extra) (o : Option Bytes)
    → last_reason e.youtube_id none rejected ≡ o
    → Shown rejected e (mark_with e o)
mark_with-Shown rejected e none h = as_it_was h
mark_with-Shown rejected e (some reason) h = as_rejected reason h

mark_all-EachShown :
    (rejected : List RejectedExtra) (es : List Extra)
    → EachShown rejected es (mark_all (reasons rejected []) es)
unfolding mark_all find
mark_all-EachShown rejected [] = no_extra
mark_all-EachShown rejected (e ∷ es) =
    extra_too
      (mark_with-Shown rejected e (find e.youtube_id (reasons rejected []))
        (sym (reasons-last_reason e.youtube_id rejected [])))
      (mark_all-EachShown rejected es)

has_youtube_id-IsListed :
    (id : Bytes) (es : List Extra) → has_youtube_id id es ≡ true → IsListed id es
unfolding has_youtube_id
has_youtube_id-IsListed id [] h = let no : ⊥ = cc h in absurd no
has_youtube_id-IsListed id (e ∷ es) h = elim (Bool-cases (e.youtube_id == id)) [
  | inl y ↦ as_first ((==_iff e.youtube_id id).0 y)
  | inr n ↦ as_later (has_youtube_id-IsListed id es (rw n at h))
]

not-IsListed : (id : Bytes) (es : List Extra) → has_youtube_id id es ≡ false → IsListed id es → ⊥
unfolding has_youtube_id
not-IsListed id [] h l = elim l [ ]
not-IsListed id (e ∷ es) h (as_first same) =
    let no : ⊥ = cc (rw ((==_iff e.youtube_id id).1 same) at h) in no
not-IsListed id (e ∷ es) h (as_later l) = elim (Bool-cases (e.youtube_id == id)) [
  | inl y ↦ let no : ⊥ = cc (rw y at h) in no
  | inr n ↦ not-IsListed id es (rw n at h) l
]

missing_rejected-Added :
    (final : List Extra) (rs : List RejectedExtra) → Added final rs (missing_rejected final rs)
unfolding missing_rejected
missing_rejected-Added final [] = no_rejection
missing_rejected-Added final (r ∷ rs) = elim (Bool-cases (has_youtube_id r.youtube_id final)) [
  | inl y ↦
      rw y (listed (has_youtube_id-IsListed r.youtube_id final y) (missing_rejected-Added final rs))
  | inr n ↦ rw n (unlisted (not-IsListed r.youtube_id final n) (missing_rejected-Added final rs))
]

-- applyRejectedExtras answers first the given extras in order, one with a rejected id with the
-- status "rejected" and the reason of the last rejection of that id, every other one as it was;
-- then, in order, each rejection whose id is not among the given extras as an extra with the
-- status "rejected".
pub apply_rejected_extras-Applied :
    (final : List Extra) (rejected : List RejectedExtra)
    → Applied final rejected (apply_rejected_extras final rejected)
unfolding apply_rejected_extras
apply_rejected_extras-Applied final rejected = record {
  shown = mark_all (reasons rejected []) final;
  added = missing_rejected final rejected;
  parts = refl;
  each_shown = mark_all-EachShown rejected final;
  rest_added = missing_rejected-Added final rejected;
}
