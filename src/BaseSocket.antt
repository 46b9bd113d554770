-- ===== src/BaseSocket.antt =====
-- doc_ferry_server/src/base_socket.cpp and inc/base_socket.h, with the overrides of socket_handler.cpp,
-- virus_handler.cpp and tcp_server.cpp, in the Linux build: handlers, the map that owns them, and what
-- each event does.
-- A handler is an object at an address of the heap. Virtual calls branch on its class. The handler map
-- is the only owner: what it erases is destroyed. A method that goes on with a destroyed object reads
-- its old fields, and leaves a mark in `stale`: it is undefined in C++, and what a theorem says of a
-- marked state holds as far as the freed memory is not used again.
mod Heap
pub mod Map
pub mod Channel
pub mod Leave
pub mod Owned
pub mod Frame
pub mod Close
pub use Heap.{
  Class, base_socket, socket_handler, virus_handler, tcp_server, Handler, Process, lift_net,
  lift_stdio,
}
pub use Heap.{update}
unfoldable pub use Heap.{load, store, erase, insert, find, remove, put, allocate}
use socket_server.Prelude.{
  ℕ, zero, suc, Bool, true, false, ◌&&◌, ◌||◌, not, Option, none, some, List, [], ◌∷◌, ◌==ℤ◌, ◌==◌,
  if◌then◌else◌, ℤ, pos, negsuc, minus_one, ltb, length, M, pure, fault, call, run, ◌>>=◌, ◌>>◌,
  null_pointer,
}
use socket_server.Cache.{Stdio}
use socket_server.Cp.{
  Net, Errno, Addr, einval, enotconn, eisconn, ealready, einprogress, eagain, ewouldblock,
  econnaborted, socket_error, invalid_socket, sock_stream, sock_dgram, af_inet, cp_socket_valid,
  cp_socket_tcp, cp_socket_udp, cp_setblocking, cp_getpeername, cp_listen, cp_bind, cp_connect,
  cp_accept, cp_send, cp_recv, cp_close_socket,
}
use socket_server.Virus.{Session, read_loop, send_loop}

-- A host that is not empty; an empty one is passed on as a null pointer.
abbrev pub host_or_null : List ℕ → Option (List ℕ)
host_or_null [] = none
host_or_null (b ∷ bs) = some (b ∷ bs)

-- errno is EAGAIN or EWOULDBLOCK
unfoldable pub would_block : Errno → Bool
would_block eagain = true
would_block ewouldblock = true
would_block e = false

-- The same, or ECONNABORTED.
pub not_accepted : Errno → Bool
not_accepted eagain = true
not_accepted ewouldblock = true
not_accepted econnaborted = true
not_accepted e = false

pub is_connected : Errno → Bool
is_connected eisconn = true
is_connected e = false

pub under_way : Errno → Bool
under_way ealready = true
under_way einprogress = true
under_way e = false

pub not_connected : Errno → Bool
not_connected einval = true
not_connected enotconn = true
not_connected e = false

unfoldable pub readable : Handler → Bool
readable h = cp_socket_valid h.sock

unfoldable pub writable : Handler → Bool
writable h = elim h.class [
  | base_socket ↦ cp_socket_valid h.sock
  | tcp_server ↦ cp_socket_valid h.sock
  | socket_handler ↦ false
  | virus_handler ↦ elim h.session.resp [ [] ↦ false | r ∷ rs ↦ true ]
]

module _ {W : Type 0} (net : Net W) where
  abbrev pub P : Type 0 → Type 0
  P = M (Process W)

  abbrev pub net' : Net (Process W)
  net' = lift_net net

  -- add_channel and del_channel
  unfoldable pub add_channel : ℕ → P (Unit {0})
  unfolding load erase insert
  add_channel this = do self ← load this; run (erase self.sock); run (insert self.sock this)

  unfoldable pub del_channel : ℕ → P (Unit {0})
  unfolding load erase
  del_channel this = do self ← load this; run (erase self.sock)

  unfoldable pub set_socket : ℕ → ℤ → P (Unit {0})
  unfolding store add_channel
  set_socket this sock = do store this (λ h. record h { sock = sock }); add_channel this

  -- The socket is closed by the object's field, which is read after the object is erased.
  unfoldable pub close : ℕ → P (Unit {0})
  unfolding store del_channel load
  close this = do
    store this (λ h. record h { connected = false; connecting = false; accepting = false })
    del_channel this
    self ← load this
    cp_close_socket net' self.sock

  -- Every class logs or not, and closes.
  unfoldable pub handle_close : ℕ → P (Unit {0})
  unfolding close
  handle_close this = close this

  unfoldable pub handle_error : ℕ → P (Unit {0})
  unfolding handle_close
  handle_error this = handle_close this

  -- BaseSocket only logs; its server inherits that.
  unfoldable pub expt_as : Class → ℕ → P (Unit {0})
  unfolding handle_close
  expt_as base_socket this = pure tt
  expt_as tcp_server this = pure tt
  expt_as socket_handler this = handle_close this
  expt_as virus_handler this = handle_close this

  unfoldable pub handle_expt : ℕ → P (Unit {0})
  unfolding load expt_as
  handle_expt this = do self ← load this; expt_as self.class this

  unfoldable pub recv : ℕ → ℕ → P (ℤ × List ℕ)
  unfolding handle_close handle_expt load
  recv this size = do
    self ← load this
    r ← cp_recv net' self.sock size 0
    if r.0 ==ℤ pos 0
        then handle_close this >> pure r
        else if r.0 ==ℤ socket_error
        then handle_expt this >> pure r
        else pure r

  unfoldable pub send : ℕ → List ℕ → P ℤ
  unfolding handle_close load would_block
  send this buf = do
    self ← load this
    ret ← cp_send net' self.sock buf 0
    errno ← call (λ p. (net.errno p.world, p))
    if ret ==ℤ socket_error
        then (if would_block errno then pure (pos 0) else handle_close this >> pure ret)
        else pure ret
