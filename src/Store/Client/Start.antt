-- ===== src/Store/Client/Start.antt =====
-- GetStoreClient and tryUpgradeToBolt: which back end a request gets.
use trailarr.Prelude.{
  ◌≡◌, refl, ap, ◌∙◌, sym, subst, Bool, true, false, none, some, Bytes, ◌⊎◌, inl, inr, arith,
  if◌then◌else◌,
}
use trailarr.Bbolt.{Bbolt}
use trailarr.Store.Bolt.Lists
use trailarr.Store.Bolt.Lists.{IsListDb}
use trailarr.Store.Mem.{Mem}
use trailarr.Store.Client.{
  Store, World, get_bolt_client, attempts, try_upgrade_to_bolt, get_store_client, moved, started,
}
use trailarr.Store.Client.Promise.{store_view, OnDisk, InMemory, IsUsable}

module _ (B : Bbolt) where
  attempts_disk : (o a : Bool) (w : World B) → (attempts B o a w).1.disk ≡ w.disk
  unfolding attempts get_bolt_client
  attempts_disk o a w = ground arith

  attempts_store : (o a : Bool) (w : World B) → (attempts B o a w).1.store_client ≡ w.store_client
  unfolding attempts get_bolt_client
  attempts_store o a w = ground arith

  -- A second call finds the outcome of the first: the database is opened once.
  pub get_bolt_client-twice :
      (first second : Bool) (w : World B)
      → get_bolt_client B second (get_bolt_client B first w).1 ≡ get_bolt_client B first w
  unfolding get_bolt_client
  get_bolt_client-twice first second w = ground arith

  -- No client yet, or one with a back end, over a database with numbered lists.
  pub record IsStarted (w : World B) : Type 0 where
    pub numbered : IsListDb B w.disk
    pub client : (w.store_client ≡ none) ⊎ IsUsable B w

  known :
      (o a : Bool) (w : World B) (s : Store)
      → w.store_client ≡ some s
      → get_store_client B o a w ≡ (if s.on_disk then w else moved B s (attempts B o a w))
  unfolding get_store_client try_upgrade_to_bolt
  known o a w s e = λ i. elim (e i) [
    | none ↦ started B (attempts B o a w)
    | some _ ↦ elim (e i) [
      | none ↦ w
      | some s' ↦ if s'.on_disk then w else moved B s' (attempts B o a w)
    ]
  ]

  fresh :
      (o a : Bool) (w : World B)
      → w.store_client ≡ none
      → get_store_client B o a w ≡ started B (attempts B o a w)
  unfolding get_store_client
  fresh o a w e =
      λ i. elim (e i) [ none ↦ started B (attempts B o a w) | some _ ↦ try_upgrade_to_bolt B o a w ]

  on_disk :
      (o a : Bool) (w : World B) (s : Store)
      → w.store_client ≡ some s
      → s.on_disk ≡ true
      → get_store_client B o a w ≡ w
  on_disk o a w s e b = known o a w s e ∙ ap (λ b. if b then w else moved B s (attempts B o a w)) b

  in_memory :
      (o a : Bool) (w : World B) (s : Store)
      → w.store_client ≡ some s
      → s.on_disk ≡ false
      → get_store_client B o a w ≡ moved B s (attempts B o a w)
  in_memory o a w s e b =
      known o a w s e ∙ ap (λ b. if b then w else moved B s (attempts B o a w)) b

  started-IsUsable : (r : Bool × World B) → IsListDb B r.1.disk → IsUsable B (started B r)
  started-IsUsable (true, w) n = inl (_, record { client = refl; bolt = refl; numbered = n })
  started-IsUsable (false, w) n = inr (_, _, record { client = refl; bolt = refl; mem = refl })

  moved-IsUsable :
      (r : Bool × World B) (s : Store) (m : Mem)
      → IsListDb B r.1.disk
      → InMemory B r.1 s m
      → IsUsable B (moved B s r)
  moved-IsUsable (true, w) s m n u = inl (_, record { client = refl; bolt = refl; numbered = n })
  moved-IsUsable (false, w) s m n u = inr (s, m, u)

  -- From no client or a usable one, over a database with numbered lists, GetStoreClient gives a
  -- usable client, whether or not the two attempts to open the database succeed.
  pub get_store_client-IsUsable :
      (o a : Bool) (w : World B) → IsStarted w → IsUsable B (get_store_client B o a w)
  get_store_client-IsUsable o a w h =
      let n : IsListDb B (attempts B o a w).1.disk =
        subst (IsListDb B) (sym (attempts_disk o a w)) h.numbered in
      elim h.client [
        | inl e ↦ subst (IsUsable B) (sym (fresh o a w e)) (started-IsUsable (attempts B o a w) n)
        | inr (inl (s, u)) ↦ subst (IsUsable B) (sym (on_disk o a w s u.client u.bolt)) (inl (s, u))
        | inr (inr (s, m, u)) ↦ subst (IsUsable B) (sym (in_memory o a w s u.client u.bolt)) (
            moved-IsUsable (attempts B o a w) s m n
              (record { client = attempts_store o a w ∙ u.client; bolt = u.bolt; mem = u.mem }))
      ]

  -- A client on disk is returned as it is.
  pub get_store_client-OnDisk :
      (o a : Bool) (w : World B) (s : Store) → OnDisk B w s → get_store_client B o a w ≡ w
  get_store_client-OnDisk o a w s u = on_disk o a w s u.client u.bolt

  moved-store_view :
      (r : Bool × World B) (s : Store) (k : Bytes)
      → r.0 ≡ true
      → store_view B (moved B s r) k ≡ Lists.view B r.1.disk k
  moved-store_view (true, w) s k e = refl
  moved-store_view (false, w) s k e = let no : ⊥ = cc e in absurd no

  -- When a client in memory finds the database open, the lists it answers are those of the
  -- database; what memory held is not looked at any more.
  pub get_store_client-store_view :
      (o a : Bool) (w : World B) (s : Store) (m : Mem) (k : Bytes)
      → InMemory B w s m
      → (attempts B o a w).0 ≡ true
      → store_view B (get_store_client B o a w) k ≡ Lists.view B w.disk k
  get_store_client-store_view o a w s m k u y =
      ap (λ v. store_view B v k) (in_memory o a w s u.client u.bolt)
      ∙ moved-store_view (attempts B o a w) s k y
      ∙ ap (λ d. Lists.view B d k) (attempts_disk o a w)
