-- ===== src/Setup.antt =====
-- The constructors of handlers and of the server in base_socket.cpp, socket_handler.cpp,
-- virus_handler.cpp and tcp_server.cpp, and what they call: `accept`, `create_socket`, `bind`, `listen`.
pub mod Frame
pub mod Join
pub mod NullMap
pub mod World
use socket_server.Prelude.{
  ℕ, Bool, true, false, Option, none, some, List, [], ◌==ℤ◌, ◌==◌, if◌then◌else◌, ℤ, pos, minus_one,
  M, pure, fault, call, run, ◌>>=◌, ◌>>◌, null_pointer,
}
use socket_server.Cp.{
  Net, Addr, Errno, invalid_socket, sock_stream, sock_dgram, af_inet, cp_socket_valid,
  cp_socket_tcp, cp_socket_udp, cp_setblocking, cp_getpeername, cp_listen, cp_bind, cp_accept,
  cp_inet_ntop,
}
use socket_server.Virus.{Session}
use socket_server.BaseSocket.{
  virus_handler, tcp_server, Process, lift_net, load, store, erase, allocate, host_or_null,
  set_socket, del_channel, not_accepted, not_connected,
}

-- The members of TCPServer; the server's handler belongs to the map.
pub record TcpServer : Type 0 where
  pub p_impl : ℕ
  pub p_impl_sock : ℤ

-- A text, or the empty one for a null pointer or a buffer of zeros that nothing was written to.
abbrev text_or_zeros : Option (List ℕ) → List ℕ
text_or_zeros none = []
text_or_zeros (some t) = t

module _ {W : Type 0} (net : Net W) where
  abbrev P : Type 0 → Type 0
  P = M (Process W)

  abbrev net' : Net (Process W)
  net' = lift_net net

  unfoldable pub accept : ℕ → P (ℤ × List ℕ × ℕ)
  unfolding load
  accept this = do
    self ← load this
    r ← cp_accept net' self.sock
    if cp_socket_valid r.0
        then (do
          ip ← cp_inet_ntop net' (some r.1) (some 16)
          pure (r.0, text_or_zeros ip, r.1.port))
        else (do
          errno ← call (λ p. (net.errno p.world, p))
          pure (if not_accepted errno then invalid_socket else r.0, [], 0))

  -- The object's state is set, and the socket is told.
  pub listen : ℕ → ℕ → P ℤ
  unfolding load store
  listen this maxn = do
    store this (λ h. record h { accepting = true })
    self ← load this
    cp_listen net' self.sock maxn

  pub bind : ℕ → List ℕ × ℕ → P ℤ
  unfolding load store
  bind this addr = do
    store this (λ h. record h { addr = addr })
    self ← load this
    cp_bind net' self.sock af_inet (host_or_null addr.0) addr.1

  -- The socket of the given type; of any other, the one that is there.
  pub socket_of_type : ℕ → ℤ → P ℤ
  socket_of_type type old =
      if type == sock_stream
      then cp_socket_tcp net'
      else if type == sock_dgram
      then cp_socket_udp net'
      else pure old

  pub create_socket : ℕ → ℕ → P ℤ
  unfolding load store set_socket socket_of_type
  create_socket this type = do
    old ← load this
    sock ← socket_of_type type old.sock
    store this (λ h. record h { sock = sock })
    if cp_socket_valid sock
        then (do done ← cp_setblocking net' sock false; set_socket net this sock; pure (pos 0))
        else pure minus_one

  -- The peer's text becomes a `std::string`.
  pub set_peer : ℕ → ℕ → Option (List ℕ) → P (Unit {0})
  unfolding store
  set_peer this port none = fault null_pointer
  set_peer this port (some ip) = store this (λ h. record h { addr = (ip, port) })

  -- The end of the constructor, for a socket that is valid: who the peer is.
  pub find_peer : ℕ → ℤ × Addr → Errno → P (Unit {0})
  unfolding store del_channel set_peer
  find_peer this peer errno =
      if peer.0 ==ℤ pos 0
      then cp_inet_ntop net' (some peer.1) (some 16) >>= set_peer this peer.1.port
      else if not_connected errno
      then store this (λ h. record h { connected = false })
      else del_channel net this

  -- The constructor from where the handler is in the map.
  pub connected_to : ℕ → ℤ → P (Unit {0})
  unfolding store find_peer
  connected_to this sock = do
    store this (λ h. record h { connected = true })
    peer ← cp_getpeername net' sock
    errno ← call (λ p. (net.errno p.world, p))
    find_peer this peer errno

  -- BaseSocket::BaseSocket on a new object, with a map that is not null. The constructor does not look
  -- at the pointer before it passes it on.
  pub construct : ℕ → P (Unit {0})
  unfolding load set_socket connected_to
  construct this = do
    self ← load this
    if cp_socket_valid self.sock
        then (do
          done ← cp_setblocking net' self.sock false
          set_socket net this self.sock
          connected_to this self.sock)
        else pure tt

  -- `new VirusHandler(sock, p_handlers)`: the constructors of the three classes in turn. The second
  -- asks for a blocking socket again.
  pub new_virus_handler : Session → ℤ → P ℕ
  unfolding construct allocate
  new_virus_handler session sock = do
    this ← allocate (record {
      class = virus_handler;
      sock = sock;
      addr = ([], 0);
      connected = false;
      connecting = false;
      accepting = false;
      session = session;
      live = true;
    })
    construct this
    blocking ← cp_setblocking net' sock true
    pure this

  -- `new TCPServerImpl(host, port, p_handlers)`: the listening handler, made, bound and put into the
  -- map. Its results are not looked at, and `set_reuse_addr` does nothing.
  pub new_tcp_server_impl : Session → List ℕ → ℕ → P ℕ
  unfolding allocate construct create_socket bind listen
  new_tcp_server_impl session host port = do
    this ← allocate (record {
      class = tcp_server;
      sock = invalid_socket;
      addr = ([], 0);
      connected = false;
      connecting = false;
      accepting = false;
      session = session;
      live = true;
    })
    construct this
    created ← create_socket this sock_stream
    bound ← bind this (host, port)
    listening ← listen this 5
    pure this

  -- TCPServer::TCPServer, with a map that is not null.
  pub new_tcp_server : Session → Option (List ℕ) → ℕ → P TcpServer
  unfolding new_tcp_server_impl load
  new_tcp_server session host port = do
    p_impl ← new_tcp_server_impl session (text_or_zeros host) port
    impl ← load p_impl
    pure (record { p_impl = p_impl; p_impl_sock = impl.sock })

  -- TCPServer::~TCPServer
  pub delete_tcp_server : TcpServer → P (Unit {0})
  unfolding erase
  delete_tcp_server srv = run (erase srv.p_impl_sock)
