-- ===== src/Events.antt =====
-- The events of doc_ferry_server/src/base_socket.cpp with the overrides of socket_handler.cpp,
-- virus_handler.cpp and tcp_server.cpp. Virtual calls branch on the object's class. The result `none`
-- means that a loop ran out of fuel.
pub mod Leave
pub mod Frame
pub mod Serve
pub mod Deliver
pub mod Exchange
pub mod Local
pub mod Isolation
pub mod Join
use socket_server.Prelude.{
  ℕ, Bool, true, false, ◌&&◌, ◌||◌, not, Option, none, some, List, [], ◌==ℤ◌, ◌==◌, if◌then◌else◌,
  ℤ, pos, minus_one, M, pure, fault, call, ◌>>=◌, ◌>>◌, null_pointer,
}
use socket_server.Cache.{Stdio}
use socket_server.Cp.{
  Net, socket_error, invalid_socket, sock_stream, sock_dgram, af_inet, cp_socket_valid,
  cp_socket_tcp, cp_socket_udp, cp_setblocking, cp_getpeername, cp_listen, cp_bind, cp_connect,
  cp_accept,
}
use socket_server.Virus.{Session, read_loop, send_loop}
use socket_server.Setup.{accept, new_virus_handler}
use socket_server.BaseSocket.{
  Class, base_socket, socket_handler, virus_handler, tcp_server, Handler, Process, lift_net,
  lift_stdio, load, store, allocate, host_or_null, set_socket, del_channel, handle_close,
  handle_error, handle_expt, recv, send, not_accepted, is_connected, under_way, not_connected,
}

module _ {W : Type 0} (net : Net W) (stdio : Stdio W) (fuel : ℕ) where
  abbrev P : Type 0 → Type 0
  P = M (Process W)

  abbrev net' : Net (Process W)
  net' = lift_net net

  -- What VirusHandler keeps of the loop of `handle_read`.
  pub keep_session : ℕ → Option Session → P (Option (Unit {0}))
  unfolding store
  keep_session this none = pure none
  keep_session this (some s) = store this (λ h. record h { session = s }) >> pure (some tt)

  -- VirusHandler::handle_read
  unfoldable pub read_requests : ℕ → P (Option (Unit {0}))
  unfolding recv load keep_session
  read_requests this = do
    r ← recv net this 65535
    if (r.0 ==ℤ pos 0) || (r.0 ==ℤ socket_error) then pure (some tt) else (do
      self ← load this
      s ← read_loop (lift_stdio stdio) fuel self.session r.1
      keep_session this s)

  unfoldable pub read_as : Class → ℕ → P (Option (Unit {0}))
  unfolding recv read_requests
  read_as base_socket this = pure (some tt)
  read_as tcp_server this = pure (some tt)
  read_as socket_handler this = recv net this 4096 >>= λ r. pure (some tt)
  read_as virus_handler this = read_requests this

  unfoldable pub handle_read : ℕ → P (Option (Unit {0}))
  unfolding load read_as
  handle_read this = do self ← load this; read_as self.class this

  -- VirusHandler::handle_write; the queue is empty when the loop ends.
  unfoldable pub write_replies : ℕ → P (Option (Unit {0}))
  unfolding send load store
  write_replies this = do
    self ← load this
    done ← send_loop (lift_stdio stdio) (send net this) fuel self.session.resp
    store this (λ h. record h { session = record (h.session) { resp = [] } })
    pure done

  unfoldable pub write_as : Class → ℕ → P (Option (Unit {0}))
  unfolding write_replies
  write_as base_socket this = pure (some tt)
  write_as tcp_server this = pure (some tt)
  write_as socket_handler this = pure (some tt)
  write_as virus_handler this = write_replies this

  unfoldable pub handle_write : ℕ → P (Option (Unit {0}))
  unfolding load write_as
  handle_write this = do self ← load this; write_as self.class this

  -- Every class only logs.
  pub handle_connect : ℕ → P (Unit {0})
  handle_connect this = pure tt

  pub handle_connect_event : ℕ → P (Unit {0})
  unfolding load store handle_error handle_connect
  handle_connect_event this = do
    self ← load this
    err ← call (net'.getsockopt self.sock)
    if err ==ℤ pos 0
        then (do
          handle_connect this
          store this (λ h. record h { connected = true; connecting = false }))
        else handle_error net this

  pub handle_expt_event : ℕ → P (Unit {0})
  unfolding load handle_expt handle_close
  handle_expt_event this = do
    self ← load this
    err ← call (net'.getsockopt self.sock)
    if err ==ℤ pos 0 then handle_expt net this else handle_close net this

  -- A connection that was under way.
  unfoldable pub connect_first : Handler → ℕ → P (Unit {0})
  unfolding handle_connect_event
  connect_first self this =
      if not self.connected && self.connecting then handle_connect_event this else pure tt

  unfoldable pub handle_write_event : ℕ → P (Option (Unit {0}))
  unfolding load connect_first handle_write
  handle_write_event this = do
    self ← load this
    if self.accepting then pure (some tt) else connect_first self this >> handle_write this

  -- A connection that is there, at once or by errno; one that is under way; or none.
  pub connect : ℕ → List ℕ × ℕ → P ℤ
  unfolding load store handle_connect_event
  connect this addr = do
    store this (λ h. record h { connected = false; connecting = true })
    self ← load this
    ret ← cp_connect net' self.sock af_inet (host_or_null addr.0) addr.1
    errno ← call (λ p. (net.errno p.world, p))
    if (ret ==ℤ pos 0) || is_connected errno
        then (do
          store this (λ h. record h { addr = addr })
          handle_connect_event this
          pure (pos 0))
        else if under_way errno
        then store this (λ h. record h { addr = addr }) >> pure minus_one
        else pure minus_one

  -- TCPServerImpl::handle_accept. `session` is what a new handler's own constructor sets up.
  unfoldable pub accept_client : Session → ℕ → P (Unit {0})
  accept_client session this = do
    r ← accept net this
    if cp_socket_valid r.0 then (new_virus_handler net session r.0 >>= λ o. pure tt) else pure tt

  -- The other classes only log.
  unfoldable pub accept_as : Class → Session → ℕ → P (Unit {0})
  unfolding accept_client
  accept_as base_socket session this = pure tt
  accept_as socket_handler session this = pure tt
  accept_as virus_handler session this = pure tt
  accept_as tcp_server session this = accept_client session this

  unfoldable pub handle_accept : Session → ℕ → P (Unit {0})
  unfolding load accept_as
  handle_accept session this = do self ← load this; accept_as self.class session this

  unfoldable pub handle_read_event : Session → ℕ → P (Option (Unit {0}))
  unfolding load handle_accept connect_first handle_read
  handle_read_event session this = do
    self ← load this
    if self.accepting
        then handle_accept session this >> pure (some tt)
        else connect_first self this >> handle_read this
