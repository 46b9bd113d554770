-- ===== src/Setup/Frame.antt =====
-- What the constructors of handlers and of the server keep: a map that owns its handlers.
use socket_server.Prelude.{
  ℕ, ◌≡◌, refl, true, false, Option, none, some, List, ℤ, M, Keeps, Triple, Triple-bind, Triple-if,
  Triple-pure, IfOk, arith, ◌==◌, keeps_rules, Keeps-pure, Keeps-bind, minus_one, pos, ◌>>=◌, ◌>>◌,
  pure,
}
use socket_server.Cp.{
  Net, Addr, Errno, cp_socket_tcp, cp_socket_udp, sock_stream, sock_dgram, invalid_socket,
  cp_socket_valid, cp_setblocking,
}
use socket_server.Cp.Frame.{
  NetKeeps, cp_accept-Keeps, cp_inet_ntop-Keeps, cp_listen-Keeps, cp_bind-Keeps,
  cp_setblocking-Keeps, cp_getpeername-Keeps, cp_socket_tcp-Keeps, cp_socket_udp-Keeps,
}
use socket_server.Virus.{Session}
use socket_server.BaseSocket.{Handler, Process, lift_net, load, store, allocate, set_socket}
use socket_server.BaseSocket.Owned.{IsOwned, IsNew, IsOwned-IsFrame, IsNew-IsFrame, lift_net-Keeps}
use socket_server.BaseSocket.Frame.{
  IsMild, load-Keeps, store-Keeps, erase-IsOwned, after_load-IsNew, load-IsNew, store-IsNew,
  allocate-IsNew, del_channel-Keeps, set_socket-IsNew,
}
use socket_server.Setup.{
  TcpServer, accept, listen, bind, socket_of_type, create_socket, set_peer, find_peer, connected_to,
  construct, new_virus_handler, new_tcp_server_impl, new_tcp_server, delete_tcp_server,
}

module _ {W : Type 0} (net : Net W) where
  keeps : NetKeeps (lift_net net) (IsOwned {W = W})
  keeps = lift_net-Keeps (IsOwned-IsFrame W) net

  keeps_IsNew : (this : ℕ) → NetKeeps (lift_net net) (IsNew {W = W} this)
  keeps_IsNew this = lift_net-Keeps (IsNew-IsFrame W this) net

  pub accept-Keeps : (this : ℕ) → Keeps (IsOwned {W = W}) (accept net this)
  unfolding accept
  accept-Keeps this =
      let same_world : (p : Process W) → IsOwned p → IsOwned p = λ p h. h in
      search
        (
          keeps_rules,
          load-Keeps,
          cp_accept-Keeps (lift_net net) keeps,
          cp_inet_ntop-Keeps (lift_net net) keeps,
          same_world,
        )
        depth 9

  listen-Keeps : (this maxn : ℕ) → Keeps (IsOwned {W = W}) (listen net this maxn)
  unfolding listen
  listen-Keeps this maxn =
      let mild : IsMild (λ h. record h { accepting = true }) = λ h. (refl, refl) in
      search (keeps_rules, load-Keeps, store-Keeps, mild, cp_listen-Keeps (lift_net net) keeps)
        depth 9

  bind-Keeps : (this : ℕ) (addr : List ℕ × ℕ) → Keeps (IsOwned {W = W}) (bind net this addr)
  unfolding bind
  bind-Keeps this a =
      let mild : IsMild (λ h. record h { addr = a }) = λ h. (refl, refl) in
      search (keeps_rules, load-Keeps, store-Keeps, mild, cp_bind-Keeps (lift_net net) keeps) depth
        9

  set_peer-Keeps :
      (this port : ℕ) (ip : Option (List ℕ)) → Keeps (IsOwned {W = W}) (set_peer net this port ip)
  unfolding set_peer
  set_peer-Keeps this port none = search keeps_rules
  set_peer-Keeps this port (some ip) =
      store-Keeps this (λ h. record h { addr = (ip, port) }) (λ h. (refl, refl))

  find_peer-Keeps :
      (this : ℕ) (peer : ℤ × Addr) (errno : Errno)
      → Keeps (IsOwned {W = W}) (find_peer net this peer errno)
  unfolding find_peer
  find_peer-Keeps this peer errno =
      let mild : IsMild (λ h. record h { connected = false }) = λ h. (refl, refl) in
      search
        (
          keeps_rules,
          cp_inet_ntop-Keeps (lift_net net) keeps,
          set_peer-Keeps,
          store-Keeps,
          mild,
          del_channel-Keeps,
        )
        depth 9

  connected_to-Keeps : (this : ℕ) (sock : ℤ) → Keeps (IsOwned {W = W}) (connected_to net this sock)
  unfolding connected_to
  connected_to-Keeps this sock =
      let mild : IsMild (λ h. record h { connected = true }) = λ h. (refl, refl) in
      let same_world : (p : Process W) → IsOwned p → IsOwned p = λ p h. h in
      search
        (
          keeps_rules,
          store-Keeps,
          mild,
          cp_getpeername-Keeps (lift_net net) keeps,
          find_peer-Keeps,
          same_world,
        )
        depth 9

  unheld : {A : Type 0} (this : ℕ) (a : A) → Triple (IsNew {W = W} this) (pure a) (λ b. IsOwned)
  unheld this a = Triple-pure a (λ p h. h.owned)

  -- Put into the map without blocking.
  registered :
      {A : Type 0} (this : ℕ) (sock : ℤ) (next : M (Process W) A)
      → Keeps IsOwned next
      → Triple
          (IsNew {W = W} this)
          (cp_setblocking (lift_net net) sock false >>= λ done. set_socket net this sock >> next)
          (λ a. IsOwned)
  registered this sock next h =
      Triple-bind (λ n. IsNew this) (cp_setblocking (lift_net net) sock false) _
        (cp_setblocking-Keeps (lift_net net) (keeps_IsNew this) sock false)
        (λ done.
          Triple-bind (λ u. IsOwned) (set_socket net this sock) _ (set_socket-IsNew net this sock)
            (λ u. h))

  -- The constructor of a handler, when nothing holds it yet.
  construct-IsNew : (this : ℕ) → Triple (IsNew {W = W} this) (construct net this) (λ u. IsOwned)
  unfolding construct
  construct-IsNew this =
      Triple-bind (λ h. IsNew this) (load this) _ (load-IsNew this this)
        (λ self.
          Triple-if (cp_socket_valid self.sock) _ (pure tt)
            (registered this self.sock (connected_to net this self.sock)
              (connected_to-Keeps this self.sock))
            (unheld this tt))

  -- With an invalid socket it does nothing.
  construct_invalid :
      (this : ℕ) (p : Process W)
      → IsNew this p
      → (p.objects this).sock ≡ invalid_socket
      → IfOk (λ u. IsNew this) (construct net this p)
  unfolding construct load cp_socket_valid
  construct_invalid this p h e = rw e (after_load-IsNew this this p h)

  socket_of_type-IsNew :
      (this type : ℕ) (old : ℤ) → Keeps (IsNew {W = W} this) (socket_of_type net type old)
  unfolding socket_of_type
  socket_of_type-IsNew this type old =
      Triple-if (type == sock_stream) (cp_socket_tcp (lift_net net)) _
        (cp_socket_tcp-Keeps (lift_net net) (keeps_IsNew this))
        (Triple-if (type == sock_dgram) (cp_socket_udp (lift_net net)) (pure old)
          (cp_socket_udp-Keeps (lift_net net) (keeps_IsNew this)) (Keeps-pure old))

  create_socket-IsNew :
      (this type : ℕ) → Triple (IsNew {W = W} this) (create_socket net this type) (λ r. IsOwned)
  unfolding create_socket
  create_socket-IsNew this type =
      Triple-bind (λ h. IsNew this) (load this) _ (load-IsNew this this)
        (λ old.
          Triple-bind (λ s. IsNew this) (socket_of_type net type old.sock) _
            (socket_of_type-IsNew this type old.sock)
            (λ sock.
              Triple-bind (λ u. IsNew this) (store this (λ h. record h { sock = sock })) _
                (store-IsNew this (λ h. record h { sock = sock }) (λ h. refl))
                (λ u.
                  Triple-if (cp_socket_valid sock) _ (pure minus_one)
                    (registered this sock (pure (pos 0)) (Keeps-pure (pos 0)))
                    (unheld this minus_one))))

  pub new_virus_handler-Keeps :
      (session : Session) (sock : ℤ) → Keeps (IsOwned {W = W}) (new_virus_handler net session sock)
  unfolding new_virus_handler
  new_virus_handler-Keeps session sock =
      Triple-bind (λ this. IsNew this) _ _ (allocate-IsNew _ refl)
        (λ this.
          Triple-bind (λ u. IsOwned) (construct net this) _ (construct-IsNew this)
            (λ u.
              Keeps-bind (cp_setblocking (lift_net net) sock true) (λ blocking. pure this)
                (cp_setblocking-Keeps (lift_net net) keeps sock true)
                (λ blocking. Keeps-pure this)))

  -- A new object with an invalid socket.
  IsBlank : ℕ → Process W → Type 0
  IsBlank this p = IsNew this p × ((p.objects this).sock ≡ invalid_socket)

  allocate-IsBlank :
      (h : Handler)
      → h.live ≡ true
      → h.sock ≡ invalid_socket
      → Triple (IsOwned {W = W}) (allocate h) IsBlank
  unfolding allocate IsBlank
  allocate-IsBlank h l e = record { at = λ p v. ((allocate-IsNew h l).at p v, ground arith) }

  new_tcp_server_impl-Keeps :
      (session : Session) (host : List ℕ) (port : ℕ)
      → Keeps (IsOwned {W = W}) (new_tcp_server_impl net session host port)
  unfolding new_tcp_server_impl IsBlank
  new_tcp_server_impl-Keeps session host port =
      Triple-bind IsBlank _ _ (allocate-IsBlank _ refl refl) (λ this.
        Triple-bind (λ u. IsNew this) (construct net this) _
          (record { at = λ p h. construct_invalid this p h.0 h.1 })
          (λ u.
            Triple-bind (λ r. IsOwned) (create_socket net this sock_stream) _
              (create_socket-IsNew this sock_stream)
              (λ created.
                Keeps-bind (bind net this (host, port)) _ (bind-Keeps this (host, port)) (λ bound.
                  Keeps-bind (listen net this 5) (λ listening. pure this) (listen-Keeps this 5)
                    (λ listening. Keeps-pure this)))))

  pub new_tcp_server-Keeps :
      (session : Session) (host : Option (List ℕ)) (port : ℕ)
      → Keeps (IsOwned {W = W}) (new_tcp_server net session host port)
  unfolding new_tcp_server
  new_tcp_server-Keeps session host port =
      search (keeps_rules, new_tcp_server_impl-Keeps, load-Keeps)

  pub delete_tcp_server-Keeps :
      (srv : TcpServer) → Keeps (IsOwned {W = W}) (delete_tcp_server net srv)
  unfolding delete_tcp_server
  delete_tcp_server-Keeps srv = search (keeps_rules, erase-IsOwned)
