-- ===== src/BaseSocket/Close.antt =====
-- `BaseSocket::close` of base_socket.cpp: the map owns the handlers, so the call that erases a handler
-- destroys it, and what the method still does with it is done with a destroyed object.
use socket_server.Prelude.{ℕ, ◌≡◌, true, false, some, arith, Returns}
use socket_server.Cp.{Net, cp_close_socket}
use socket_server.BaseSocket.{Process, load, store, erase, find, remove, close}

-- A live handler that the map holds under its socket.
pub record IsRegistered {W : Type 0} (p : Process W) (this : ℕ) : Type 0 where
  pub alive : (p.objects this).live ≡ true
  pub held : find (p.objects this).sock p.handlers ≡ some this

module _ {W : Type 0} (net : Net W) where
  -- Whatever the state, `close` of a registered handler takes its entry out of the map and leaves the
  -- others, destroys it, closes its socket last, and has used the destroyed object by then: the
  -- socket's number is read from it.
  pub close-IsRegistered :
      (p : Process W) (this : ℕ)
      → IsRegistered p this
      → Returns (close net this p) (λ _ q.
        (q.handlers ≡ remove (p.objects this).sock p.handlers)
        × ((q.objects this).live ≡ false)
        × (q.stale ≡ true)
        × (q.world ≡ net.close (p.objects this).sock p.world))
  unfolding close load store erase cp_close_socket
  close-IsRegistered p this v = ground arith
