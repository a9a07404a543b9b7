-- ===== src/Network/Starting.antt =====
-- network/manager.go: the cases of the parts of `Start`, and what it makes of them.
use mathlib.Core.List.{lookup}
use yaice.Base.{
  ◌≡◌, ◌⊎◌, inl, inr, refl, sym, ap, ◌∙◌, Bool, true, false, List, [], ◌∷◌, Option, none, some,
  arith,
}
use yaice.Base.Tests.{if◌then◌else◌, Bool-cases, Option-cases}
use yaice.Base.Int.{pos, leb_ℤ}
use yaice.Base.Assoc.{insert, delete}
use yaice.Config.{TcpConfig, HttpConfig}
use yaice.Network.{
  Services, Manager, tcp_error, http_error, tcp_network, http_network, tcp_enabled, http_enabled,
  start_tcp_server_locked, start_http_server_locked, start_tcp, start_http, start, rollback_servers,
}
use yaice.Utils.Tool.{Text, text_discrete}

module _ {S : Type 0} (services : Services S) where
  -- The server that is opened for the TCP part of a configuration, if the part is enabled.
  abbrev pub opened_tcp : Option TcpConfig → List S
  opened_tcp none = []
  opened_tcp (some t) = if t.enabled then (services.open_tcp t).0 ∷ [] else []

module _ {S C : Type 0} (services : Services S) where
  pub rollback_none :
      (m : Manager S C) → m.servers ≡ [] → rollback_servers [] m ≡ (record m { servers = [] }, [])
  unfolding rollback_servers
  rollback_none m e = ap (λ (servers : List (Text × S)). (record m { servers = servers }, [])) e

  pub rollback_one :
      (s : S) (m : Manager S C)
      → m.servers ≡ (tcp_network, s) ∷ []
      → rollback_servers (tcp_network ∷ []) m ≡ (record m { servers = [] }, s ∷ [])
  unfolding rollback_servers lookup delete text_discrete
  rollback_one s m e =
      let found = ap (lookup text_discrete tcp_network) e in
      let gone = ap (delete text_discrete tcp_network) e in ground arith

  pub start_tcp-cases :
      (t : Option TcpConfig) (m : Manager S C)
      → m.servers ≡ []
      → ((start_tcp services t m ≡ (m, ([], true)))
          × (tcp_enabled t ≡ false)
          × (opened_tcp services t ≡ []))
        ⊎ (((start_tcp services t m).1 ≡ ([], false))
            × ((start_tcp services t m).0.servers ≡ [])
            × ((start_tcp services t m).0.is_ready ≡ m.is_ready))
        ⊎ ((s : S) × ((start_tcp services t m).1 ≡ (tcp_network ∷ [], true))
            × ((start_tcp services t m).0.servers ≡ (tcp_network, s) ∷ [])
            × ((start_tcp services t m).0.is_ready ≡ m.is_ready)
            × ((start_tcp services t m).0.config.http ≡ m.config.http)
            × (tcp_enabled (start_tcp services t m).0.config.tcp ≡ true)
            × (opened_tcp services t ≡ s ∷ []))
  unfolding start_tcp start_tcp_server_locked tcp_enabled insert delete
  start_tcp-cases none m e = inl (refl, refl, refl)
  start_tcp-cases (some t) m e = elim (Bool-cases t.enabled) [
    | inr off ↦ inl (ground arith)
    | inl on ↦ elim (Bool-cases (leb_ℤ (services.open_tcp t).1 (pos 0))) [
      | inl closed ↦ inr (inl (ground arith))
      | inr listening ↦
          let one =
            ap
              (λ (xs : List (Text × S)).
                insert text_discrete tcp_network (services.open_tcp t).0 xs)
              e in
          inr (
            inr (
              (services.open_tcp t).0,
              ground arith,
              ground arith,
              ground arith,
              ground arith,
              ground arith,
              ground arith,
            ))
    ]
  ]

  pub start_http-cases :
      (h : Option HttpConfig) (m : Manager S C)
      → (start_http services h m ≡ (m, false))
        ⊎ ((start_http services h m ≡ (m, true)) × (http_enabled h ≡ false))
        ⊎ ((s : S) × ((start_http services h m).1 ≡ true)
            × ((start_http services h m).0.servers ≡ insert text_discrete http_network s m.servers)
            × ((start_http services h m).0.config.tcp ≡ m.config.tcp)
            × (http_enabled (start_http services h m).0.config.http ≡ true)
            × (http_enabled h ≡ true))
  unfolding start_http start_http_server_locked http_enabled
  start_http-cases none m = inr (inl (refl, refl))
  start_http-cases (some h) m = elim (Bool-cases h.enabled) [
    | inr off ↦ inr (inl (ground arith))
    | inl on ↦ elim (Option-cases (services.open_http h)) [
      | inl e ↦ inl (ground arith)
      | inr (opened, e) ↦ elim (Bool-cases (leb_ℤ opened.1 (pos 0))) [
        | inl closed ↦ inl (ground arith)
        | inr listening ↦
            inr
              (inr (opened.0, ground arith, ground arith, ground arith, ground arith, ground arith))
      ]
    ]
  ]

  pub start_tcp_failed :
      (m : Manager S C)
      → m.is_ready ≡ false
      → (start_tcp services m.config.tcp m).1 ≡ ([], false)
      → start services m ≡ record {
        manager = (start_tcp services m.config.tcp m).0;
        closed = [];
        error = some tcp_error;
      }
  unfolding start rollback_servers
  start_tcp_failed m idle e = ground arith

  pub start_done :
      (m : Manager S C)
      → m.is_ready ≡ false
      → (start_tcp services m.config.tcp m).1.1 ≡ true
      → (start_http services
          (start_tcp services m.config.tcp m).0.config.http
          (start_tcp services m.config.tcp m).0).1
        ≡ true
      → start services m ≡ record {
        manager =
            record (start_http services
              (start_tcp services m.config.tcp m).0.config.http
              (start_tcp services m.config.tcp m).0).0 { is_ready = true };
        closed = [];
        error = none;
      }
  unfolding start
  start_done m idle e e2 = ground arith

  pub start_http_back :
      (m : Manager S C) (names : List Text) (closed : List S)
      → m.is_ready ≡ false
      → (start_tcp services m.config.tcp m).1 ≡ (names, true)
      → start_http services
          (start_tcp services m.config.tcp m).0.config.http
          (start_tcp services m.config.tcp m).0
        ≡ ((start_tcp services m.config.tcp m).0, false)
      → rollback_servers names (start_tcp services m.config.tcp m).0
        ≡ (record (start_tcp services m.config.tcp m).0 { servers = [] }, closed)
      → start services m ≡ record {
        manager = record (start_tcp services m.config.tcp m).0 { servers = [] };
        closed = closed;
        error = some http_error;
      }
  unfolding start
  start_http_back m names closed idle e e2 back = ground arith

  -- What the TCP part leaves for the HTTP part.
  pub tcp_ran :
      (m : Manager S C)
      → m.servers ≡ []
      → (((start_tcp services m.config.tcp m).1 ≡ ([], false))
          × ((start_tcp services m.config.tcp m).0.servers ≡ [])
          × ((start_tcp services m.config.tcp m).0.is_ready ≡ m.is_ready))
        ⊎ ((names : List Text) × ((start_tcp services m.config.tcp m).1 ≡ (names, true))
            × ((start_tcp services m.config.tcp m).0.is_ready ≡ m.is_ready)
            × (rollback_servers names (start_tcp services m.config.tcp m).0 ≡ (
              record (start_tcp services m.config.tcp m).0 { servers = [] },
              opened_tcp services m.config.tcp,
            )))
  tcp_ran m empty = elim (start_tcp-cases m.config.tcp m empty) [
    | inl (e, off, opened) ↦
        let same = ap (λ (r : Manager S C × (List Text × Bool)). r.0) e in
        inr (
          [],
          ap (λ (r : Manager S C × (List Text × Bool)). r.1) e,
          ap (λ (c : Manager S C). c.is_ready) same,
          rollback_none (start_tcp services m.config.tcp m).0
                (ap (λ (c : Manager S C). c.servers) same ∙ empty)
              ∙ ap
                  (λ (cs : List S).
                    (record (start_tcp services m.config.tcp m).0 { servers = [] }, cs))
                  (sym opened),
        )
    | inr (inl failed) ↦ inl failed
    | inr (inr (s, e, servers, ready, http, on, opened)) ↦ inr (
      tcp_network ∷ [],
      e,
      ready,
      rollback_one s (start_tcp services m.config.tcp m).0 servers
          ∙ ap
              (λ (cs : List S). (record (start_tcp services m.config.tcp m).0 { servers = [] }, cs))
              (sym opened),
    )
  ]

  pub start_http_unchanged :
      (h : Option HttpConfig) (m : Manager S C)
      → (start_http services h m).1 ≡ false
      → start_http services h m ≡ (m, false)
  start_http_unchanged h m e = elim (start_http-cases h m) [
    | inl e2 ↦ e2
    | inr (inl (e2, _)) ↦ absurd (ground arith)
    | inr (inr (s, e2, _, _, _, _)) ↦ absurd (ground arith)
  ]
