-- ===== src/Tcp/Conn/Locking.antt =====
-- network/tcp_net/conn.go: what the lock of a connection does to the calls that take it.
use yaice.Base.{◌≡◌, refl, Bool, true, false, ◌&&◌, arith}
use yaice.Base.Tests.{if◌then◌else◌}
use yaice.Tcp.Conn.{Conn, lock, unlock, close, get_remote_addr, sync_send}
use yaice.Utils.Tool.{returns, blocks}

module _ {D : Type 0} where
  -- With the lock free, a synchronous send comes back with the connection as it was, unless there is a
  -- socket and the write on it fails: then the call waits for ever for the lock that it holds itself.
  pub sync_send-blocks :
      (c : Conn D) (write_fails : Bool)
      → c.mu_held ≡ false
      → sync_send write_fails c ≡ (if c.has_conn && write_fails then blocks else returns c)
  unfolding sync_send lock unlock get_remote_addr
  sync_send-blocks c write_fails free = ground arith

  -- With the lock free, `Close` on an open connection comes back and leaves a connection that is closed,
  -- cancelled and has no socket, with the lock free; a second `Close` changes nothing.
  pub close_twice :
      (c : Conn D)
      → c.mu_held ≡ false
      → c.is_closed ≡ false
      → (c' : Conn D) × (close c ≡ returns c')
        × (c'.is_closed ≡ true)
        × (c'.cancelled ≡ true)
        × (c'.has_conn ≡ false)
        × (c'.mu_held ≡ false)
        × (close c' ≡ returns c')
  unfolding close lock unlock
  close_twice c free opened = (
    record c { is_closed = true; cancelled = true; mu_held = false; has_conn = false },
    ground arith,
    refl,
    refl,
    refl,
    refl,
    refl,
  )
