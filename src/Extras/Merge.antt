-- ===== src/Extras/Merge.antt =====
-- mergeExtrasPrioritizePersistent and applyRejectedExtras of internal/media.go. Applied: the rejections
-- in the answer.
pub mod Applied
use trailarr.Prelude.{
  ◌≡◌, refl, ap, ◌∙◌, sym, Bool, true, false, Option, none, some, List, [], ◌∷◌, ◌++◌, Bytes, bytes,
  ◌==◌, ==_iff, if◌then◌else◌, inl, inr, Bool-cases, Option-cases,
}
use trailarr.Prelude.Int.{ℤ}
use trailarr.Prelude.Maps.{GoMap, find, insert, find-insert}
use trailarr.Extras.Entries.{status_rejected}

pub record Extra : Type 0 where
  pub id : Bytes
  pub extra_type : Bytes
  pub extra_title : Bytes
  pub youtube_id : Bytes
  pub status : Bytes
  pub reason : Bytes

pub record RejectedExtra : Type 0 where
  pub media_type : Bytes
  pub media_id : ℤ
  pub extra_type : Bytes
  pub extra_title : Bytes
  pub youtube_id : Bytes
  pub reason : Bytes

unfoldable pub key_for : Extra → Bytes
key_for e = e.youtube_id ++ bytes ":" ++ e.extra_type ++ bytes ":" ++ e.extra_title

unfoldable pub put_all : List Extra → GoMap Extra → GoMap Extra
put_all [] m = m
put_all (e ∷ es) m = put_all es (insert (key_for e) e m)

abbrev put_new : Extra → GoMap Extra → Option Extra → GoMap Extra
put_new e m none = insert (key_for e) e m
put_new e m (some _) = m

unfoldable pub put_missing : List Extra → GoMap Extra → GoMap Extra
put_missing [] m = m
put_missing (e ∷ es) m = put_missing es (put_new e m (find (key_for e) m))

-- The map of the merge; its values are the result, in any order.
unfoldable pub merge_extras : List Extra → List Extra → GoMap Extra
unfolding put_all put_missing
merge_extras persistent tmdb = put_missing tmdb (put_all persistent [])

-- The references: the last and the first extra with a key.
unfoldable pub last_extra : Bytes → Option Extra → List Extra → Option Extra
last_extra k found [] = found
last_extra k found (e ∷ es) = last_extra k (if key_for e == k then some e else found) es

abbrev pub or_first : Option Extra → Option Extra → Option Extra
or_first (some e) rest = some e
or_first none rest = rest

unfoldable pub first_extra : Bytes → List Extra → Option Extra
first_extra k [] = none
first_extra k (e ∷ es) = let rest = first_extra k es in if key_for e == k then some e else rest

put_all-last_extra :
    (k : Bytes) (es : List Extra) (m : GoMap Extra)
    → find k (put_all es m) ≡ last_extra k (find k m) es
unfolding put_all last_extra
put_all-last_extra k [] m = refl
put_all-last_extra k (e ∷ es) m =
    put_all-last_extra k es (insert (key_for e) e m)
    ∙ ap (λ o. last_extra k o es) (find-insert (key_for e) k e m)

put_new-find :
    (k : Bytes) (e : Extra) (m : GoMap Extra)
    → find k (put_new e m (find (key_for e) m))
      ≡ or_first (find k m) (if key_for e == k then some e else none)
put_new-find k e m = elim (Option-cases (find (key_for e) m)) [
  | inl n ↦ elim (Bool-cases (key_for e == k)) [
    | inl y ↦
        let same : key_for e ≡ k = (==_iff (key_for e) k).0 y in
        let n' : find k m ≡ none = sym (ap (λ j. find j m) same) ∙ n in
        rw (n, find-insert (key_for e) k e m, y, n') refl
    | inr y ↦ rw (n, find-insert (key_for e) k e m, y) (or_none (find k m))
  ]
  | inr (x, n) ↦ elim (Bool-cases (key_for e == k)) [
    | inl y ↦
        let same : key_for e ≡ k = (==_iff (key_for e) k).0 y in
        let n' : find k m ≡ some x = sym (ap (λ j. find j m) same) ∙ n in rw (n, n') refl
    | inr y ↦ rw (n, y) (or_none (find k m))
  ]
]
  where
    or_none : (o : Option Extra) → o ≡ or_first o none
    or_none none = refl
    or_none (some a) = refl

put_missing-first_extra :
    (k : Bytes) (es : List Extra) (m : GoMap Extra)
    → find k (put_missing es m) ≡ or_first (find k m) (first_extra k es)
unfolding put_missing first_extra
put_missing-first_extra k [] m = elim (Option-cases (find k m)) [
  | inl e ↦ rw e refl
  | inr (a, e) ↦ rw e refl
]
put_missing-first_extra k (e ∷ es) m =
    put_missing-first_extra k es (put_new e m (find (key_for e) m))
    ∙ ap (λ o. or_first o (first_extra k es)) (put_new-find k e m)
    ∙ join (find k m) (key_for e == k)
  where
    join :
        (o : Option Extra) (b : Bool)
        → or_first (or_first o (if b then some e else none)) (first_extra k es)
          ≡ or_first o (if b then some e else first_extra k es)
    join none true = refl
    join none false = refl
    join (some a) b = refl

-- For each key the merge keeps the last persistent extra, and the first one of TMDB only if there
-- is no persistent one.
pub merge_extras-find :
    (k : Bytes) (persistent tmdb : List Extra)
    → find k (merge_extras persistent tmdb)
      ≡ or_first (last_extra k none persistent) (first_extra k tmdb)
unfolding merge_extras find
merge_extras-find k persistent tmdb =
    put_missing-first_extra k tmdb (put_all persistent [])
    ∙ ap (λ o. or_first o (first_extra k tmdb)) (put_all-last_extra k persistent [])

-- applyRejectedExtras: the ids that are there, the reasons, the marking and the additions.
unfoldable pub has_youtube_id : Bytes → List Extra → Bool
has_youtube_id id [] = false
has_youtube_id id (e ∷ es) =
    let rest = has_youtube_id id es in if e.youtube_id == id then true else rest

unfoldable pub reasons : List RejectedExtra → GoMap Bytes → GoMap Bytes
reasons [] m = m
reasons (r ∷ rs) m = reasons rs (insert r.youtube_id r.reason m)

abbrev pub mark_with : Extra → Option Bytes → Extra
mark_with e none = e
mark_with e (some reason) = record e { status = status_rejected; reason = reason }

unfoldable pub mark_all : GoMap Bytes → List Extra → List Extra
mark_all m [] = []
mark_all m (e ∷ es) = mark_with e (find e.youtube_id m) ∷ mark_all m es

abbrev pub rejected_extra : RejectedExtra → Extra
rejected_extra r = record {
  id = [];
  extra_type = r.extra_type;
  extra_title = r.extra_title;
  youtube_id = r.youtube_id;
  status = status_rejected;
  reason = r.reason;
}

unfoldable pub missing_rejected : List Extra → List RejectedExtra → List Extra
missing_rejected final [] = []
missing_rejected final (r ∷ rs) =
    let rest = missing_rejected final rs in
    if has_youtube_id r.youtube_id final then rest else rejected_extra r ∷ rest

unfoldable pub apply_rejected_extras : List Extra → List RejectedExtra → List Extra
unfolding mark_all reasons missing_rejected has_youtube_id
apply_rejected_extras final rejected =
    mark_all (reasons rejected []) final ++ missing_rejected final rejected
