-- ===== src/Store/Client/Promise.antt =====
-- The singleton's methods as a store of Store.Spec, on either back end.
use trailarr.Prelude.{
  ◌≤◌, ◌≡◌, refl, ap, ◌∙◌, sym, Bool, true, false, none, some, List, [], Bytes, if◌then◌else◌, ◌⊎◌,
  inl, inr, length,
}
use trailarr.Bbolt.{Bbolt, max_key_size, max_value_size}
use trailarr.Store.Outcome.{Outcome}
use trailarr.Store.Spec.{ListStore, Replaced}
use trailarr.Store.Bolt.{list_bucket_name}
use trailarr.Store.Bolt.Lists
use trailarr.Store.Bolt.Lists.{IsListDb, bolt_store, RoomIn}
use trailarr.Store.Mem.{Mem, list_at}
use trailarr.Store.Mem.Lists.{mem_store}
use trailarr.Store.Client.{Store, World, writes_to, rpush, lrange, ltrim, lset, lrem, del}

module _ (B : Bbolt) where
  abbrev pub store_view : World B → Bytes → List Bytes
  store_view w k = elim w.store_client [
    | none ↦ []
    | some s ↦
        if s.on_disk
        then Lists.view B w.disk k
        else (elim s.mem [ none ↦ [] | some m ↦ list_at m k ])
  ]

  -- The client uses a database with numbered list entries, or a map store.
  pub record OnDisk (w : World B) (s : Store) : Type 0 where
    pub client : w.store_client ≡ some s
    pub bolt : s.on_disk ≡ true
    pub numbered : IsListDb B w.disk

  pub record InMemory (w : World B) (s : Store) (m : Mem) : Type 0 where
    pub client : w.store_client ≡ some s
    pub bolt : s.on_disk ≡ false
    pub mem : s.mem ≡ some m

  abbrev pub IsUsable : World B → Type 0
  IsUsable w = ((s : Store) × OnDisk w s) ⊎ ((s : Store) × (m : Mem) × InMemory w s m)

  abbrev pub uses_disk : World B → Bool
  uses_disk w = elim w.store_client [ none ↦ false | some s ↦ s.on_disk ]

  abbrev pub client_store : ListStore
  client_store = record {
    State = World B;
    view = store_view;
    IsValid = IsUsable;
    KeyFits = λ k. length (list_bucket_name k) ≤ max_key_size;
    ValueFits = λ v. length v ≤ max_value_size;
    Room = λ w k n. uses_disk w ≡ true → RoomIn (B.bucket w.disk (list_bucket_name k)) n;
    lrange = lrange B;
    rpush = rpush B;
    ltrim = ltrim B;
    lset = lset B;
    lrem = lrem B;
    del = del B;
  }

  module _ (w : World B) (s : Store) where
    pub writes-disk :
        (f : B.Db → Outcome (Unit {0}) × B.Db) (g : Mem → Outcome (Unit {0}) × Mem)
        → OnDisk w s
        → writes_to B w f g ≡ ((f w.disk).0, record w { disk = (f w.disk).1 })
    writes-disk f g u = rw (u.client, u.bolt)

    pub writes-memory :
        (m : Mem) (f : B.Db → Outcome (Unit {0}) × B.Db) (g : Mem → Outcome (Unit {0}) × Mem)
        → InMemory w s m
        → writes_to B w f g
          ≡ ((g m).0, record w { store_client = some (record s { mem = some (g m).1 }) })
    writes-memory m f g u =
        let full : s ≡ record { on_disk = false; mem = some m } =
          λ i. record { on_disk = u.bolt i; mem = u.mem i } in
        let client : w.store_client ≡ some (record { on_disk = false; mem = some m }) =
          u.client ∙ ap some full in
        rw client (
          ap
            (λ b. (
              (g m).0,
              record w { store_client = some (record { on_disk = b; mem = some (g m).1 }) },
            ))
            (sym u.bolt))

  module _ (w : World B) (s : Store) (k : Bytes) where
    pub Replaced-disk :
        (vs : List Bytes) (f : B.Db → Outcome (Unit {0}) × B.Db)
        (g : Mem → Outcome (Unit {0}) × Mem)
        → OnDisk w s
        → Replaced (bolt_store B) w.disk k vs (f w.disk)
        → Replaced client_store w k vs (writes_to B w f g)
    Replaced-disk vs f g u r = rw (writes-disk w s f g u) (record {
      returned = r.returned;
      valid = inl (s, record { client = u.client; bolt = u.bolt; numbered = r.valid });
      views = λ j. rw (u.client, u.bolt) (r.views j);
    })

    pub Replaced-memory :
        (m : Mem) (vs : List Bytes) (f : B.Db → Outcome (Unit {0}) × B.Db)
        (g : Mem → Outcome (Unit {0}) × Mem)
        → InMemory w s m
        → Replaced mem_store m k vs (g m)
        → Replaced client_store w k vs (writes_to B w f g)
    Replaced-memory m vs f g u r = rw (writes-memory w s m f g u) (record {
      returned = r.returned;
      valid = inr (
        record s { mem = some (g m).1 },
        (g m).1,
        record { client = refl; bolt = u.bolt; mem = refl },
      );
      views = λ j. rw (u.client, u.bolt, u.mem) (r.views j);
    })
