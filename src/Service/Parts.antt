-- ===== src/Service/Parts.antt =====
-- service.go: the managers of the database and of the network as the parts of a service.
use yaice.Base.{◌≡◌, sym, ap, ◌∙◌, Bool, true, false, Option, none, some, arith}
use yaice.Base.Tests.{if◌then◌else◌, eq-of_some}
use yaice.Config.{NetworkConfig}
use yaice.Database.Manager.{Driver, Manager, disconnect}
use yaice.Database.Manager.{
  new_manager as new_db_manager, init as init_db_manager, start as start_db_manager,
}
use yaice.Network.{Services}
use yaice.Network.{
  Manager as NetManager, new_manager as new_net_manager, start as start_net_manager,
  stop as stop_net_manager,
}
use yaice.Service.{Managers}
use yaice.Utils.Tool.{returns, after_return}

abbrev pub no_error : {E : Type 0} → Option E → Bool
no_error none = true
no_error (some e) = false

module _ {Cl I M C E : Type 0} where
  -- What `Stop` leaves of a database manager, whatever its executors did.
  abbrev pub stopped_db : Manager Cl I M C E → Manager Cl I M C E
  stopped_db m = if m.is_ready then disconnect m else m

  pub stopped_db-ready : (m : Manager Cl I M C E) → (stopped_db m).is_ready ≡ false
  unfolding disconnect
  stopped_db-ready m = ground arith

  pub start_unready :
      (m : Manager Cl I M C E) → m.is_ready ≡ false → no_error (start_db_manager m).1 ≡ false
  unfolding start_db_manager
  start_unready m e = ground arith

-- The manager of a configuration with no network part is `none`: its `Start` dereferences the part. That of
-- another one answers as its servers do, which are taken to start without a panic.
module _ {S Cn : Type 0} where
  abbrev pub new_net : Option NetworkConfig → Option (NetManager S Cn)
  new_net none = none
  new_net (some config) = some (new_net_manager config true)

  abbrev pub start_net :
      Services S → Option (NetManager S Cn) → Option (Option (NetManager S Cn) × Bool)
  start_net services none = none
  start_net services (some n) =
      let r = start_net_manager services n in some (some r.manager, no_error r.error)

  -- `Stop` of a manager that is not ready does nothing.
  abbrev pub stop_net : Option (NetManager S Cn) → Option (NetManager S Cn)
  stop_net none = none
  stop_net (some n) = some (stop_net_manager n).0

  abbrev pub net_ready : Option (NetManager S Cn) → Bool
  net_ready none = false
  net_ready (some n) = n.is_ready

  start_ready :
      (services : Services S) (n : NetManager S Cn)
      → no_error (start_net_manager services n).error ≡ true
      → (start_net_manager services n).manager.is_ready ≡ true
  unfolding start_net_manager
  start_ready services n e = ground arith

  pub start_net-ready :
      (services : Services S) (n n' : Option (NetManager S Cn))
      → start_net services n ≡ some (n', true)
      → net_ready n' ≡ true
  start_net-ready services none n' e = absurd (ground arith)
  start_net-ready services (some n) n' e =
      let same = eq-of_some e in
      ap net_ready (sym (ap (λ x. x.0) same)) ∙ start_ready services n (ap (λ x. x.1) same)

module _ {Cl I M C E S Cn : Type 0} where
  -- The managers of a service, with the driver of the database and the servers of the network.
  unfoldable pub service_managers :
      Driver Cl → Services S → Managers (Manager Cl I M C E) (Option (NetManager S Cn))
  service_managers driver services = record {
    new_db = new_db_manager;
    init_db = λ m. after_return (λ r. returns (r.0, no_error r.1)) (init_db_manager driver m);
    start_db = λ m. let r = start_db_manager m in (r.0, no_error r.1);
    stop_db = stopped_db;
    db_ready = λ m. m.is_ready;
    new_net = new_net;
    start_net = start_net services;
    stop_net = stop_net;
    net_ready = net_ready;
    stop_db-ready = stopped_db-ready;
    start_db-unready = start_unready;
    start_net-ready = start_net-ready services;
  }
