-- ===== src/Store/Client.antt =====
-- Store of internal/redis.go and its singleton: every method goes to the bbolt client if there is
-- one, and else to the map store. The database on disk is part of the state; whether opening it
-- succeeds is an argument.
pub mod Values
pub mod Keyed
pub mod Promise
pub mod Laws
pub mod Start
use trailarr.Prelude.{Bool, true, false, ◌≡◌, Option, none, some, List, Bytes, if◌then◌else◌, ◌⊎◌}
use trailarr.Prelude.Int.{ℤ}
use trailarr.Bbolt.{Bbolt}
use trailarr.Store.Outcome.{Outcome, ok, err, no_store_client, panicked}
use trailarr.Store.Bolt
use trailarr.Store.Mem
use trailarr.Store.Mem.{Mem, new_mem}

-- The struct Store: `on_disk` says that its field `bolt` is not nil.
pub record Store : Type 0 where
  pub on_disk : Bool
  pub mem : Option Mem

module _ (B : Bbolt) where
  open B use {Db}

  -- storeClient, boltClient, boltOnce, and the database file.
  pub record World : Type 0 where
    pub disk : Db
    pub bolt_client : Bool
    pub bolt_once : Bool
    pub store_client : Option Store

  -- A method that only reads; with neither back end Go would dereference nil.
  abbrev pub reads_from : {A : Type 0} → World → (Db → Outcome A) → (Mem → Outcome A) → Outcome A
  reads_from w f g = elim w.store_client [
    | none ↦ err no_store_client
    | some s ↦ if s.on_disk then f w.disk else (elim s.mem [ none ↦ err panicked | some m ↦ g m ])
  ]

  abbrev disk_result : World → Outcome (Unit {0}) × Db → Outcome (Unit {0}) × World
  disk_result w (r, d) = (r, record w { disk = d })

  abbrev mem_result : World → Store → Outcome (Unit {0}) × Mem → Outcome (Unit {0}) × World
  mem_result w s (r, m) = (r, record w { store_client = some (record s { mem = some m }) })

  abbrev pub writes_to :
      World
      → (Db → Outcome (Unit {0}) × Db)
      → (Mem → Outcome (Unit {0}) × Mem)
      → Outcome (Unit {0}) × World
  writes_to w f g = elim w.store_client [
    | none ↦ (err no_store_client, w)
    | some s ↦
        if s.on_disk
        then disk_result w (f w.disk)
        else (elim s.mem [ none ↦ (err panicked, w) | some m ↦ mem_result w s (g m) ])
  ]

  unfoldable pub ping : World → Outcome (Unit {0})
  ping w = elim w.store_client [
    | none ↦ err no_store_client
    | some s ↦
        if s.on_disk then ok tt else (elim s.mem [ none ↦ err no_store_client | some _ ↦ ok tt ])
  ]

  unfoldable pub rpush : World → Bytes → Bytes → Outcome (Unit {0}) × World
  rpush w key value = writes_to w (λ d. Bolt.rpush B d key value) (λ m. Mem.rpush m key value)

  unfoldable pub lrange : World → Bytes → ℤ → ℤ → Outcome (List Bytes)
  lrange w key start stop =
      reads_from w (λ d. Bolt.lrange B d key start stop) (λ m. Mem.lrange m key start stop)

  unfoldable pub ltrim : World → Bytes → ℤ → ℤ → Outcome (Unit {0}) × World
  ltrim w key start stop =
      writes_to w (λ d. Bolt.ltrim B d key start stop) (λ m. Mem.ltrim m key start stop)

  unfoldable pub lset : World → Bytes → ℤ → Bytes → Outcome (Unit {0}) × World
  lset w key index value =
      writes_to w (λ d. Bolt.lset B d key index value) (λ m. Mem.lset m key index value)

  unfoldable pub lrem : World → Bytes → ℤ → Bytes → Outcome (Unit {0}) × World
  lrem w key count value =
      writes_to w (λ d. Bolt.lrem B d key count value) (λ m. Mem.lrem m key count value)

  unfoldable pub del : World → Bytes → Outcome (Unit {0}) × World
  del w key = writes_to w (λ d. Bolt.del B d key) (λ m. Mem.del m key)

  unfoldable pub kv_set : World → Bytes → Bytes → Outcome (Unit {0}) × World
  kv_set w key value = writes_to w (λ d. Bolt.kv_set B d key value) (λ m. Mem.kv_set m key value)

  unfoldable pub kv_get : World → Bytes → Outcome Bytes
  kv_get w key = reads_from w (λ d. Bolt.kv_get B d key) (λ m. Mem.kv_get m key)

  unfoldable pub hset : World → Bytes → Bytes → Bytes → Outcome (Unit {0}) × World
  hset w key field value =
      writes_to w (λ d. Bolt.hset B d key field value) (λ m. Mem.hset m key field value)

  unfoldable pub hget : World → Bytes → Bytes → Outcome Bytes
  hget w key field = reads_from w (λ d. Bolt.hget B d key field) (λ m. Mem.hget m key field)

  unfoldable pub hvals : World → Bytes → Outcome (List Bytes)
  hvals w key = reads_from w (λ d. Bolt.hvals B d key) (λ m. Mem.hvals m key)

  unfoldable pub hdel : World → Bytes → Bytes → Outcome (Unit {0}) × World
  hdel w key field = writes_to w (λ d. Bolt.hdel B d key field) (λ m. Mem.hdel m key field)

  -- GetBoltClient: only the first call opens the database, and its result is kept, nil included.
  unfoldable pub get_bolt_client : Bool → World → Bool × World
  get_bolt_client opens w =
      if w.bolt_once
      then (w.bolt_client, w)
      else (opens, record w { bolt_client = opens; bolt_once = true })

  -- The two attempts, GetBoltClient and then openBoltDB, either of which may give a client.
  unfoldable pub attempts : Bool → Bool → World → Bool × World
  unfolding get_bolt_client
  attempts opens again w = let r = get_bolt_client opens w in if r.0 then r else (again, r.1)

  -- The client moves to disk if one of the attempts gave a database.
  abbrev pub moved : Store → Bool × World → World
  moved s (true, w) = record w { store_client = some (record s { on_disk = true }) }
  moved s (false, w) = w

  -- The first client: bbolt if there is one, and else the map store.
  abbrev pub started : Bool × World → World
  started (true, w) = record w { store_client = some (record { on_disk = true; mem = none }) }
  started (false, w) = record w {
    store_client = some (record { on_disk = false; mem = some new_mem });
  }

  unfoldable pub try_upgrade_to_bolt : Bool → Bool → World → World
  try_upgrade_to_bolt opens again w = elim w.store_client [
    | none ↦ w
    | some s ↦ if s.on_disk then w else moved s (attempts opens again w)
  ]

  unfoldable pub get_store_client : Bool → Bool → World → World
  unfolding try_upgrade_to_bolt
  get_store_client opens again w = elim w.store_client [
    | some s ↦ try_upgrade_to_bolt opens again w
    | none ↦ started (attempts opens again w)
  ]
