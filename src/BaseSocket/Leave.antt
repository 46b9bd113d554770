-- ===== src/BaseSocket/Leave.antt =====
-- `recv` of base_socket.cpp when the peer has closed the connection.
use socket_server.Prelude.{ℕ, suc, ◌≡◌, true, false, ◌||◌, not, pos, arith, Returns}
use socket_server.Cp.{Net, cp_recv, cp_close_socket}
use socket_server.BaseSocket.{
  Process, load, store, erase, remove, del_channel, close, handle_close, recv,
}
use socket_server.BaseSocket.Close.{IsRegistered}

-- A registered handler whose peer has closed: `recv` returns 0.
pub record IsLeaving {W : Type 0} (net : Net W) (size : ℕ) (p : Process W) (this : ℕ) : Type 0 where
  pub registered : IsRegistered p this
  pub ended : (net.recv (p.objects this).sock size 0 p.world).0.0 ≡ pos 0

-- It has left the map, is destroyed, and was used after that, which is marked: the number of the
-- descriptor that is closed was read from the destroyed object, and is the handler's as far as its
-- memory still holds it. Nothing was done to the world between receiving and this closing.
pub record HasLeft {W : Type 0} (net : Net W) (size : ℕ) (p : Process W) (this : ℕ) (q : Process W)
    : Type 0 where
  pub handlers : q.handlers ≡ remove (p.objects this).sock p.handlers
  pub destroyed : (q.objects this).live ≡ false
  pub stale : q.stale ≡ true
  pub world :
      q.world ≡ net.close (p.objects this).sock (net.recv (p.objects this).sock size 0 p.world).1

-- The state after a member of an object has been read.
abbrev pub after_load : {W : Type 0} → Process W → ℕ → Process W
after_load p this = record p { stale = p.stale || not (p.objects this).live }

module _ {W : Type 0} (net : Net W) where
  pub load-IsLeaving :
      (n : ℕ) (p : Process W) (this : ℕ)
      → IsLeaving net n p this
      → IsLeaving net n (after_load p this) this
  load-IsLeaving n p this v = record {
    registered = record { alive = v.registered.alive; held = v.registered.held };
    ended = v.ended;
  }

  pub HasLeft-load :
      (n : ℕ) (p : Process W) (this : ℕ) (q : Process W)
      → HasLeft net n (after_load p this) this q
      → HasLeft net n p this q
  HasLeft-load n p this q h = record {
    handlers = h.handlers;
    destroyed = h.destroyed;
    stale = h.stale;
    world = h.world;
  }

  pub recv-HasLeft :
      (n : ℕ) (p : Process W) (this : ℕ)
      → IsLeaving net (suc n) p this
      → Returns (recv net this (suc n) p) (λ r q. (r.0 ≡ pos 0) × HasLeft net (suc n) p this q)
  unfolding recv load store erase handle_close close del_channel cp_recv cp_close_socket
  recv-HasLeft n p this v =
      let a = v.registered.alive in let h = v.registered.held in let e = v.ended in ground arith
