-- ===== src/Tcp/Expiry.antt =====
-- network/tcp_net/server.go: which connections CheckConns leaves in the registry.
use mathlib.Core.List.{lookup, Mem, Nodup, Nodup-cons}
use mathlib.Core.Path.{subst}
use yaice.Base.{
  ◌≡◌, refl, ap, ◌∙◌, Bool, true, false, List, [], ◌∷◌, Option, none, some, ite, arith,
}
use yaice.Base.Tests.{if◌then◌else◌}
use yaice.Base.Int.{ℤ, ℤ_discrete}
use yaice.Base.Assoc.{keys, lookup-delete, none_of_not-mem}
use yaice.Tcp.Conn.{Conn}
use yaice.Tcp.Server.{
  Server, get_conn, remove_conn, is_expired_conn, expired_guids, close_guids, check_conns,
}

abbrev has : ℤ → List ℤ → Bool
has q [] = false
has q (g ∷ guids) = ite (ℤ_discrete q g) true (has q guids)

module _ {D : Type 0} (now timeout : ℤ) where
  -- What is left of a connection that was found: nothing where it is expired.
  abbrev pub unless_expired : Option (Conn D) → Option (Conn D)
  unless_expired none = none
  unless_expired (some conn) = if is_expired_conn now timeout conn then none else some conn

  abbrev expired : Option (Conn D) → Bool
  expired none = false
  expired (some conn) = is_expired_conn now timeout conn

  get_conn-remove_conn :
      (q g : ℤ) (s : Server D)
      → get_conn q (remove_conn g s) ≡ ite (ℤ_discrete q g) none (get_conn q s)
  unfolding get_conn remove_conn
  get_conn-remove_conn q g s = lookup-delete ℤ_discrete q g s.active_conns

  get_conn-close_guids :
      (q : ℤ) (guids : List ℤ) (s : Server D)
      → get_conn q (close_guids guids s).0 ≡ (if has q guids then none else get_conn q s)
  unfolding close_guids
  get_conn-close_guids q [] s = refl
  get_conn-close_guids q (g ∷ guids) s =
      let ih = get_conn-close_guids q guids (remove_conn g s) in
      let removed = get_conn-remove_conn q g s in
      elim (ℤ_discrete q g) [ yes same ↦ ground arith | no apart ↦ ground arith ]

  -- One more connection in front, whose key the others do not have.
  has_first :
      (q : ℤ) (e : ℤ × Conn D) (guids : List ℤ) (o : Option (Conn D))
      → has q guids ≡ expired o
      → (q ≡ e.0 → o ≡ none)
      → has q (if is_expired_conn now timeout e.1 then e.0 ∷ guids else guids)
        ≡ expired (ite (ℤ_discrete q e.0) (some e.1) o)
  has_first q e guids o ih new = elim (ℤ_discrete q e.0) [
    | yes same ↦ let absent = new same in ground arith
    | no apart ↦ ground arith
  ]

  has-expired_guids :
      (q : ℤ) (conns : List (ℤ × Conn D))
      → Nodup (keys conns)
      → has q (expired_guids now timeout conns) ≡ expired (lookup ℤ_discrete q conns)
  unfolding expired_guids lookup
  has-expired_guids q [] once = refl
  has-expired_guids q (e ∷ conns) once =
      let (new, later) = Nodup-cons.0 once in
      has_first q e (expired_guids now timeout conns) (lookup ℤ_discrete q conns)
        (has-expired_guids q conns later)
        (λ same.
          none_of_not-mem ℤ_discrete q conns (λ at. new (subst (λ k. Mem k (keys conns)) same at)))

  chosen : (o : Option (Conn D)) → (if expired o then none else o) ≡ unless_expired o
  chosen none = refl
  chosen (some conn) = refl

  -- Where each connection is registered once, CheckConns takes those out of the registry that were last
  -- active more than the time-out ago, and leaves the others as they are.
  pub get_conn-check_conns :
      (guid : ℤ) (s : Server D)
      → Nodup (keys s.active_conns)
      → get_conn guid (check_conns now timeout s).0 ≡ unless_expired (get_conn guid s)
  unfolding check_conns get_conn
  get_conn-check_conns guid s once =
      get_conn-close_guids guid (expired_guids now timeout s.active_conns) s
      ∙ ap (λ (b : Bool). if b then none else get_conn guid s)
          (has-expired_guids guid s.active_conns once)
      ∙ chosen (get_conn guid s)
