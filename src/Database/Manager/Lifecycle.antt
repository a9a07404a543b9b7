-- ===== src/Database/Manager/Lifecycle.antt =====
-- database/manager.go: what becomes of the clients that are opened, and which entities have a manager.
use mathlib.Core.List.{append-nil}
use mathlib.Core.Path.{subst}
use yaice.Base.{
  ℕ, ◌≡◌, refl, sym, ap, ap₂, ◌∙◌, ◌⊎◌, inl, inr, Bool, true, false, List, [], ◌∷◌, ◌++◌, Option,
  none, some, arith,
}
use yaice.Base.Tests.{Bool-cases, Option-cases}
use yaice.Base.Int.{ℤ}
use yaice.Config.{MongoDbConfig, DatabaseConfig}
use yaice.Database.Executor.{Action}
use yaice.Database.Shards.{Entity, CollectionManager, shutdown_all}
use yaice.Database.Manager.{
  Driver, ManagerError, Manager, connected, connect_mongo_db, after_connect, init_config, init,
  start, register_entity, disconnect, stop,
}
use yaice.Utils.Tool.{Text, returns}

abbrev pub held : {Cl : Type 0} → Option Cl → List Cl
held none = []
held (some client) = client ∷ []

pub data Operation (I : Type 0) : Type 0 where
  calls_init calls_start calls_stop : Operation I
  registers : Option (Entity I) → Operation I

module _ {Cl I M C E : Type 0} where
  -- Each client opened is the one that is held or was disconnected, once, and none is held by a manager
  -- that is not ready.
  pub record IsKept (m : Manager Cl I M C E) : Type 0 where
    pub clients : m.opened ≡ m.disconnected ++ held m.mongo_db
    pub ready : (m.is_ready ≡ true) ⊎ (m.mongo_db ≡ none)

  disconnect-IsKept : (m : Manager Cl I M C E) → IsKept m → IsKept (disconnect m)
  unfolding disconnect
  disconnect-IsKept m h = record {
    clients = h.clients ∙ sym (append-nil (m.disconnected ++ held m.mongo_db));
    ready = inr refl;
  }

  ready-IsKept : (m : Manager Cl I M C E) → IsKept m → IsKept (after_connect (m, none)).0
  unfolding after_connect
  ready-IsKept m h = record { clients = h.clients; ready = inl refl }

  -- A manager that differs in its collections only.
  same-IsKept :
      (m m' : Manager Cl I M C E)
      → m.opened ≡ m'.opened
      → m.disconnected ≡ m'.disconnected
      → m.mongo_db ≡ m'.mongo_db
      → m.is_ready ≡ m'.is_ready
      → IsKept m
      → IsKept m'
  same-IsKept m m' e e2 e3 e4 h = record {
    clients = sym e ∙ h.clients ∙ ap₂ (λ xs o. xs ++ held o) e2 e3;
    ready = elim h.ready [ inl on ↦ inl (sym e4 ∙ on) | inr off ↦ inr (sym e3 ∙ off) ];
  }

  connected-IsKept :
      (driver : Driver Cl) (cfg : MongoDbConfig) (o : Option Cl) (m : Manager Cl I M C E)
      → m.is_ready ≡ false
      → IsKept m
      → IsKept (after_connect (connected driver cfg o m)).0
  unfolding connected after_connect
  connected-IsKept driver cfg none m off h = h
  connected-IsKept driver cfg (some client) m off h =
      let bare : m.mongo_db ≡ none = elim h.ready [ inl on ↦ absurd (ground arith) | inr e ↦ e ] in
      let empty = h.clients ∙ ap (λ o. m.disconnected ++ held o) bare ∙ append-nil m.disconnected in
      let longer = ap (λ xs. xs ++ (client ∷ [])) empty in
      elim (Bool-cases (driver.ping client)) [
        | inl up ↦ rw up (record { clients = longer; ready = inl refl })
        | inr down ↦ rw down (record {
          clients =
              longer
              ∙ sym (append-nil (m.disconnected ++ (client ∷ [])))
              ∙ ap (λ o. (m.disconnected ++ (client ∷ [])) ++ held o) (sym bare);
          ready = inr bare;
        })
      ]

-- What the code calls: the driver, with the turns of the goroutines at each `Stop`.
module _ {Cl I M C E : Type 0} (driver : Driver Cl) (bulk_write : Bool → ℕ → List M → Option E)
    (meanwhile : Text → ℤ → List (Action M C)) where
  init-IsKept :
      (cfg : Option DatabaseConfig) (m m' : Manager Cl I M C E) (err : Option ManagerError)
      → m.is_ready ≡ false
      → IsKept m
      → init_config driver cfg m ≡ returns (m', err)
      → IsKept m'
  unfolding init_config connect_mongo_db
  init-IsKept none m m' err off h e = absurd (ground arith)
  init-IsKept (some cfg) m m' err off h e = elim (Option-cases cfg.mongodb) [
    | inl no_mongo ↦
        subst IsKept {x = (after_connect (m, none)).0} (ground arith) (ready-IsKept m h)
    | inr (mongo, there) ↦ elim (Bool-cases mongo.enabled) [
      | inl on ↦
          subst IsKept {x = (after_connect (connected driver mongo (driver.connect mongo.uri) m)).0}
            (ground arith) (connected-IsKept driver mongo (driver.connect mongo.uri) m off h)
      | inr disabled ↦
          subst IsKept {x = (after_connect (m, none)).0} (ground arith) (ready-IsKept m h)
    ]
  ]

  -- An operation that comes back, with the state after it.
  abbrev pub Performs : Operation I → Manager Cl I M C E → Manager Cl I M C E → Type 0
  Performs calls_init m m' = (err : Option ManagerError) × (init driver m ≡ returns (m', err))
  Performs calls_start m m' = (start m).0 ≡ m'
  Performs calls_stop m m' =
      (cm : Option (CollectionManager I M C E)) × (stop bulk_write meanwhile m ≡ some (m', cm))
  Performs (registers entity) m m' = (register_entity entity m).0 ≡ m'

  abbrev pub Runs : List (Operation I) → Manager Cl I M C E → Manager Cl I M C E → Type 0
  Runs [] m m' = m ≡ m'
  Runs (o ∷ operations) m m' = (t : Manager Cl I M C E) × Performs o m t × Runs operations t m'

  stop-disconnect :
      (m m' : Manager Cl I M C E) (cm : Option (CollectionManager I M C E))
      → m.is_ready ≡ true
      → stop bulk_write meanwhile m ≡ some (m', cm)
      → disconnect m ≡ m'
  unfolding stop
  stop-disconnect m m' cm on e = elim (Option-cases m.database_mgr) [
    | inl e1 ↦ ground arith
    | inr (old, e1) ↦ elim (Option-cases (shutdown_all bulk_write meanwhile old)) [
      | inl e2 ↦ absurd (ground arith)
      | inr (new, e2) ↦ ground arith
    ]
  ]

  Performs-IsKept :
      (o : Operation I) (m m' : Manager Cl I M C E) → Performs o m m' → IsKept m → IsKept m'
  unfolding init start stop register_entity
  Performs-IsKept calls_init m m' (err, e) h = elim (Bool-cases m.is_ready) [
    | inl on ↦ subst IsKept {x = m} (ground arith) h
    | inr off ↦ init-IsKept m.config m m' err off h (ground arith)
  ]
  Performs-IsKept calls_start m m' e h =
      subst IsKept e
        (same-IsKept m (start m).0 (ground arith) (ground arith) (ground arith) (ground arith) h)
  Performs-IsKept calls_stop m m' (cm, e) h = elim (Bool-cases m.is_ready) [
    | inl on ↦
        subst IsKept {x = disconnect m} (stop-disconnect m m' cm on e) (disconnect-IsKept m h)
    | inr off ↦ subst IsKept {x = m} (ground arith) h
  ]
  Performs-IsKept (registers entity) m m' e h = subst IsKept e (
      same-IsKept m (register_entity entity m).0 (ground arith) (ground arith) (ground arith)
        (ground arith) h)

  -- In any sequence of calls that come back, each client that was opened is the one the manager holds or
  -- was disconnected exactly once, and a manager that is not ready holds none.
  pub Runs-IsKept :
      (operations : List (Operation I)) (m m' : Manager Cl I M C E)
      → Runs operations m m'
      → IsKept m
      → IsKept m'
  Runs-IsKept [] m m' e h = subst IsKept e h
  Runs-IsKept (o ∷ operations) m m' (t, first, later) h =
      Runs-IsKept operations t m' later (Performs-IsKept o m t first h)
