-- ===== src/Extras/Wanted/Due.antt =====
-- Which extras of a wanted item are due, internal/tasks.go: processExtraDownload.
use trailarr.Prelude.{
  ℕ, zero, suc, ◌≡◌, refl, ap, Bool, true, false, ◌&&◌, not, List, [], ◌∷◌, take, Bytes, ◌==◌,
  arith, if◌then◌else◌, Bool-cases, inl, inr,
}
use trailarr.Prelude.Maps.{GoMap}
use trailarr.Slices.{filter}
use trailarr.Downloads.Items.{status_rejected}
use trailarr.Settings.Sections.{ExtraTypesConfig}
use trailarr.Extras.Merge.{Extra, RejectedExtra}
use trailarr.Extras.Missing.{
  rejected_ids, is_rejected_id, mark_rejected_extras, is_enabled, is_download_due,
}
use trailarr.Extras.Missing.Queued.{is_wanted, due-wanted, rejected-unwanted}

module _ (mapping : GoMap Bytes) (cfg : ExtraTypesConfig) where
  -- An extra of TMDB that is queued.
  abbrev pub has_enabled_id : Extra → Bool
  has_enabled_id e = not (e.youtube_id == []) && is_enabled mapping cfg e

  due-tmdb : (e : Extra) → is_download_due mapping cfg true e ≡ has_enabled_id e
  unfolding is_download_due
  due-tmdb e = ground arith

  pub filter-tmdb :
      (extras : List Extra)
      → filter extras (is_download_due mapping cfg true) ≡ filter extras has_enabled_id
  unfolding filter
  filter-tmdb [] = refl
  filter-tmdb (e ∷ extras) =
      rw (due-tmdb e)
        (ap (λ rest. if has_enabled_id e then e ∷ rest else rest) (filter-tmdb extras))

  -- An extra found by the search that is queued: its id is not rejected, and it is missing.
  abbrev pub is_open : List RejectedExtra → Extra → Bool
  is_open rejected e =
      not (is_rejected_id (rejected_ids rejected) e.youtube_id) && is_wanted mapping cfg e

  pub filter-local :
      (rejected : List RejectedExtra) (extras : List Extra) (m : ℕ)
      → filter
          (take m (mark_rejected_extras (rejected_ids rejected) extras))
          (is_download_due mapping cfg false)
        ≡ filter (take m extras) (is_open rejected)
  unfolding filter mark_rejected_extras
  filter-local rejected extras zero = refl
  filter-local rejected [] (suc m) = refl
  filter-local rejected (e ∷ extras) (suc m) =
      elim (Bool-cases (is_rejected_id (rejected_ids rejected) e.youtube_id)) [
        | inl y ↦
            rw
              (
                y,
                due-wanted mapping cfg (record e { status = status_rejected }),
                rejected-unwanted mapping cfg e,
              )
              (filter-local rejected extras m)
        | inr n ↦
            rw (n, due-wanted mapping cfg e)
              (ap (λ rest. if is_wanted mapping cfg e then e ∷ rest else rest)
                (filter-local rejected extras m))
      ]
