-- ===== src/Network/Lifecycle.antt =====
-- network/manager.go: what `Start` and `Stop` leave, also where a server fails to start.
use mathlib.Core.List.{lookup}
use yaice.Base.{
  ℕ_discrete, ◌≡◌, inl, inr, refl, sym, ap, ◌∙◌, Bool, true, false, List, [], ◌∷◌, map, Option,
  none, some, arith,
}
use yaice.Base.Tests.{Bool-cases}
use yaice.Base.Assoc.{delete, lookup-insert}
use yaice.Config.{TcpConfig, HttpConfig}
use yaice.Network.{
  Services, Manager, StartError, tcp_error, http_error, tcp_network, http_network, tcp_enabled,
  http_enabled, start_tcp_server_locked, start_http_server_locked, start_tcp, start_http, start,
  stop, rollback_servers, get_server, is_server_enabled,
}
use yaice.Utils.Tool.{Text, text_discrete}
use yaice.Network.Starting.{
  start_tcp-cases, start_http-cases, start_tcp_failed, start_done, start_http_back, tcp_ran,
  start_http_unchanged, opened_tcp,
}

module _ {S C : Type 0} (services : Services S) where
  -- Where `Start` fails on a manager that is not ready and has no servers, it leaves it so, and has closed
  -- the server that it had started: the TCP server, if it is enabled and the HTTP server is what fails.
  pub start-rolls_back :
      (m : Manager S C) (e : StartError)
      → m.is_ready ≡ false
      → m.servers ≡ []
      → (start services m).error ≡ some e
      → ((start services m).manager.servers ≡ [])
        × ((start services m).manager.is_ready ≡ false)
        × ((start services m).closed
            ≡ elim e [ tcp_error ↦ [] | http_error ↦ opened_tcp services m.config.tcp ])
  start-rolls_back m e idle empty failed = elim (tcp_ran services m empty) [
    | inl (e1, servers, ready) ↦ let eq = start_tcp_failed services m idle e1 in ground arith
    | inr (names, e1, ready, back) ↦
        elim (Bool-cases
          (start_http services (start_tcp services m.config.tcp m).0.config.http
            (start_tcp services m.config.tcp m).0).1) [
              | inl e2 ↦
                  let eq = start_done services m idle (ap (λ (r : List Text × Bool). r.1) e1) e2 in
                  ground arith
              | inr e2 ↦
                  let eq =
                    start_http_back services m names (opened_tcp services m.config.tcp) idle e1
                      (start_http_unchanged services _ _ e2) back in
                  ground arith
            ]
  ]

abbrev pub is_some : {A : Type 0} → Option A → Bool
is_some none = false
is_some (some a) = true

module _ {S C : Type 0} (services : Services S) where
  tcp_serves :
      (m : Manager S C)
      → m.servers ≡ []
      → (start_tcp services m.config.tcp m).1.1 ≡ true
      → (is_some (lookup text_discrete tcp_network (start_tcp services m.config.tcp m).0.servers)
          ≡ tcp_enabled (start_tcp services m.config.tcp m).0.config.tcp)
        × (lookup text_discrete http_network (start_tcp services m.config.tcp m).0.servers ≡ none)
  unfolding lookup text_discrete tcp_enabled ℕ_discrete
  tcp_serves m empty ok = elim (start_tcp-cases services m.config.tcp m empty) [
    | inl (e, off, opened) ↦
        let same = ap (λ (r : Manager S C × (List Text × Bool)). r.0) e in
        let servers = ap (λ (c : Manager S C). c.servers) same ∙ empty in
        let config = ap (λ (c : Manager S C). tcp_enabled c.config.tcp) same ∙ off in
        (
          ap (λ (xs : List (Text × S)). is_some (lookup text_discrete tcp_network xs)) servers
              ∙ sym config,
          ap (lookup text_discrete http_network) servers,
        )
    | inr (inl (e, _, _)) ↦ absurd (ground arith)
    | inr (inr (s, e, servers, ready, http, on, opened)) ↦ (
      ap (λ (xs : List (Text × S)). is_some (lookup text_discrete tcp_network xs)) servers ∙ sym on,
      ap (lookup text_discrete http_network) servers,
    )
  ]

  http_serves :
      (m : Manager S C)
      → lookup text_discrete http_network m.servers ≡ none
      → (start_http services m.config.http m).1 ≡ true
      → (is_some (lookup text_discrete http_network (start_http services m.config.http m).0.servers)
          ≡ http_enabled (start_http services m.config.http m).0.config.http)
        × (lookup text_discrete tcp_network (start_http services m.config.http m).0.servers
            ≡ lookup text_discrete tcp_network m.servers)
        × ((start_http services m.config.http m).0.config.tcp ≡ m.config.tcp)
  unfolding text_discrete http_enabled ℕ_discrete
  http_serves m absent ok = elim (start_http-cases services m.config.http m) [
    | inl e ↦ absurd (ground arith)
    | inr (inl (e, off)) ↦ rw (e) (ap is_some absent ∙ sym off, refl, refl)
    | inr (inr (s, e, servers, config, on, _)) ↦ (
      ap (λ (xs : List (Text × S)). is_some (lookup text_discrete http_network xs)) servers
          ∙ ap is_some (lookup-insert text_discrete http_network http_network s m.servers)
          ∙ sym on,
      ap (lookup text_discrete tcp_network) servers
          ∙ lookup-insert text_discrete tcp_network http_network s m.servers,
      config,
    )
  ]

  -- Where `Start` succeeds on a manager that is not ready and has no servers, the manager is ready, and has
  -- a TCP server exactly where that part of its configuration is enabled, and so for HTTP.
  pub start-serves :
      (m : Manager S C)
      → m.is_ready ≡ false
      → m.servers ≡ []
      → (start services m).error ≡ none
      → ((start services m).manager.is_ready ≡ true)
        × (is_some (get_server tcp_network (start services m).manager)
            ≡ is_server_enabled tcp_network (start services m).manager)
        × (is_some (get_server http_network (start services m).manager)
            ≡ is_server_enabled http_network (start services m).manager)
  unfolding get_server is_server_enabled text_discrete ℕ_discrete start_http
  start-serves m idle empty ok = elim (tcp_ran services m empty) [
    | inl (e1, _, _) ↦ let eq = start_tcp_failed services m idle e1 in absurd (ground arith)
    | inr (names, e1, ready, back) ↦
        elim (Bool-cases
          (start_http services (start_tcp services m.config.tcp m).0.config.http
            (start_tcp services m.config.tcp m).0).1) [
              | inr e2 ↦
                  let eq =
                    start_http_back services m names (opened_tcp services m.config.tcp) idle e1
                      (start_http_unchanged services _ _ e2) back in
                  absurd (ground arith)
              | inl e2 ↦
                  let going = ap (λ (r : List Text × Bool). r.1) e1 in
                  let eq = start_done services m idle going e2 in
                  let tcp = tcp_serves m empty going in
                  let http = http_serves (start_tcp services m.config.tcp m).0 tcp.1 e2 in
                  rw (eq) (refl, ap is_some http.1 ∙ tcp.0 ∙ ap tcp_enabled (sym http.2), http.0)
            ]
  ]

module _ {S C : Type 0} where
  rollback_keeps :
      (names : List Text) (m : Manager S C) → (rollback_servers names m).0.cancelled ≡ m.cancelled
  unfolding rollback_servers
  rollback_keeps [] m = refl
  rollback_keeps (name ∷ names) m = ground (
    arith,
    rollback_keeps names m,
    rollback_keeps names (record m { servers = delete text_discrete name m.servers }),
  )

  stop_done :
      (m : Manager S C)
      → m.is_ready ≡ true
      → stop m ≡ (
        record m { cancelled = true; servers = []; clients = []; is_ready = false },
        (map (λ e. e.1) m.servers, map (λ e. e.1) m.clients),
      )
  unfolding stop
  stop_done m ready = ground arith

module _ {S C : Type 0} (services : Services S) where
  start_tcp_keeps :
      (t : Option TcpConfig) (m : Manager S C) → (start_tcp services t m).0.cancelled ≡ m.cancelled
  unfolding start_tcp start_tcp_server_locked
  start_tcp_keeps none m = refl
  start_tcp_keeps (some t) m = ground arith

  start_http_keeps :
      (h : Option HttpConfig) (m : Manager S C)
      → (start_http services h m).0.cancelled ≡ m.cancelled
  unfolding start_http start_http_server_locked
  start_http_keeps none m = refl
  start_http_keeps (some h) m = ground arith

  start_keeps : (m : Manager S C) → (start services m).manager.cancelled ≡ m.cancelled
  unfolding start
  start_keeps m =
      let tcp = (start_tcp services m.config.tcp m).0 in
      let names = (start_tcp services m.config.tcp m).1.0 in
      let http = (start_http services tcp.config.http tcp).0 in
      ground (
        arith,
        start_tcp_keeps m.config.tcp m,
        start_http_keeps tcp.config.http tcp,
        rollback_keeps names tcp,
        rollback_keeps names http,
      )

  -- `Stop` on a ready manager closes each of its servers and clients, and leaves a manager that a second
  -- `Stop` does not change. That manager can start again, but its context stays cancelled.
  pub stop-start :
      (m : Manager S C)
      → m.is_ready ≡ true
      → ((stop m).1 ≡ (map (λ e. e.1) m.servers, map (λ e. e.1) m.clients))
        × (stop (stop m).0 ≡ ((stop m).0, ([], [])))
        × ((stop m).0.servers ≡ [])
        × ((start services (stop m).0).manager.cancelled ≡ true)
  unfolding stop
  stop-start m ready = rw (stop_done m ready, stop) (refl, refl, refl, start_keeps _)
