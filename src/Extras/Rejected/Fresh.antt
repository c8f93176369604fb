-- ===== src/Extras/Rejected/Fresh.antt =====
-- What is answered after the index of rejected extras was saved.
use trailarr.Prelude.{
  ◌≡◌, refl, ap, ◌∙◌, none, some, List, map, Bytes, ◌==◌, ==_refl, if◌then◌else◌,
}
use trailarr.Prelude.Int.{ℤ}
use trailarr.Slices.{filter}
use trailarr.Store.Outcome.{Outcome, ok, err}
use trailarr.Store.Keyed.{KeyedStore, Answers, IsKeyedStore}
use trailarr.Json.{Codec, Encodes}
use trailarr.Values.{Fields}
use trailarr.Settings.Flags.{Numbers}
use trailarr.Extras.Entries.{ExtrasEntry}
use trailarr.Extras.Rejected.{
  rejected_extras_store_key, is_rejected, is_of_media, rejected_extra, get_all_extras,
  RejectedState, after_set, write_rejected_index, save_rejected_index, parsed, load_rejected_index,
  or_scan, blacklist_extras, or_nil, get_rejected_extras_for_media,
}

module _ (N : Numbers) (K : KeyedStore) (M : Codec (List Fields)) (E : Codec ExtrasEntry)
    (C : Codec (List ExtrasEntry)) (hvals : K.State → Outcome (List Bytes)) where
  -- The handler and GetRejectedExtrasForMedia answer from `rejected`.
  pub record AnswersFrom (rejected : List ExtrasEntry) (st : RejectedState N K M E C hvals)
      : Type 0 where
    pub blacklist : (blacklist_extras N K M E C hvals st).0 ≡ ok rejected
    pub for_media :
        (media_type : Bytes) (id : ℤ)
        → (get_rejected_extras_for_media N K M E C hvals media_type id st).0
          ≡ map rejected_extra (filter rejected (is_of_media media_type id))

  pub record Indexed (st : RejectedState N K M E C hvals) (rejected : List ExtrasEntry) (b : Bytes)
      (r : Outcome (Unit {0}) × RejectedState N K M E C hvals) : Type 0 where
    pub returned : r.0 ≡ ok tt
    pub valid : K.IsValid r.1.store
    pub from_memory : AnswersFrom rejected r.1
    pub restarted : AnswersFrom rejected (record r.1 { rejected_index_mem = none })
    pub values :
        (j : Bytes)
        → K.get r.1.store j ≡ (if rejected_extras_store_key == j then ok b else K.get st.store j)

  AnswersFrom-loaded :
      (rejected : List ExtrasEntry) (st : RejectedState N K M E C hvals)
      → (load_rejected_index N K M E C hvals st).0 ≡ ok rejected
      → AnswersFrom rejected st
  unfolding blacklist_extras get_rejected_extras_for_media
  AnswersFrom-loaded rejected st e =
      let black = ap (or_scan N K M E C hvals st.store) e in
      record {
        blacklist = black;
        for_media = λ media_type id.
            ap
              (λ o.
                map rejected_extra (filter (or_nil N K M E C hvals o) (is_of_media media_type id)))
              black;
      }

  read_back :
      (s : K.State) (rejected : List ExtrasEntry) (b : Bytes)
      → K.get s rejected_extras_store_key ≡ ok b
      → Encodes C rejected b
      → (load_rejected_index N K M E C hvals (record { store = s; rejected_index_mem = none })).0
        ≡ ok rejected
  unfolding load_rejected_index
  read_back s rejected b e c = rw (load_rejected_index, e, parsed, c.read) refl

  in_memory :
      (s : K.State) (rejected : List ExtrasEntry)
      → (load_rejected_index N K M E C hvals
          (record { store = s; rejected_index_mem = some rejected })).0
        ≡ ok rejected
  unfolding load_rejected_index
  in_memory s rejected = refl

  module _ (laws : IsKeyedStore K) where
    written :
        (st : RejectedState N K M E C hvals) (rejected : List ExtrasEntry) (b : Bytes)
        → K.IsValid st.store
        → K.KeyFits rejected_extras_store_key
        → K.ValueFits b
        → Encodes C rejected b
        → Indexed st rejected b (write_rejected_index N K M E C hvals st rejected)
    unfolding write_rejected_index
    written st rejected b h k f c =
        rw (write_rejected_index, c.written)
          (go (K.set st.store rejected_extras_store_key b)
            (laws.set_lem st.store rejected_extras_store_key b h k f))
      where
        go :
            (r : Outcome (Unit {0}) × K.State)
            → Answers K st.store rejected_extras_store_key (ok b) r
            → Indexed st rejected b (after_set N K M E C hvals st rejected r)
        go (err e, s) a = let no : ⊥ = cc a.returned in absurd no
        go (ok _, s) a = record {
          returned = refl;
          valid = a.valid;
          from_memory =
              AnswersFrom-loaded rejected (record { store = s; rejected_index_mem = some rejected })
                (in_memory s rejected);
          restarted =
              AnswersFrom-loaded rejected (record { store = s; rejected_index_mem = none })
                (read_back s rejected b
                  (a.values rejected_extras_store_key
                    ∙ (rw (==_refl rejected_extras_store_key) refl))
                  c);
          values = a.values;
        }

    -- On a store that keeps the promise, if all extras can be read, and key and value fit and the
    -- rejected ones have an encoding: SaveRejectedIndex returns nil; the blacklist then answers
    -- exactly the rejected extras and GetRejectedExtrasForMedia those of a media, both from memory
    -- and after a restart, and every other key keeps its value.
    pub save_rejected_index-Indexed :
        (st : RejectedState N K M E C hvals) (all : List ExtrasEntry) (b : Bytes)
        → get_all_extras N K M E C hvals st.store ≡ ok all
        → K.IsValid st.store
        → K.KeyFits rejected_extras_store_key
        → K.ValueFits b
        → Encodes C (filter all is_rejected) b
        → Indexed st (filter all is_rejected) b (save_rejected_index N K M E C hvals st)
    unfolding save_rejected_index
    save_rejected_index-Indexed st all b e h k f c =
        rw (save_rejected_index, e) (written st (filter all is_rejected) b h k f c)
