-- ===== src/Cp/Frame.antt =====
-- What every wrapper of cp_socket.cpp keeps: whatever the system's calls keep.
use socket_server.Prelude.{
  ℕ, zero, suc, ℤ, List, [], ◌∷◌, Option, none, some, Bool, M, call, Keeps, keeps_rules,
}
use socket_server.Cp.{
  Net, Addr, Flags, cp_socket, cp_socket_udp, cp_socket_tcp, cp_inet_ntop, cp_inet_pton,
  with_address, cp_bind, cp_listen, cp_connect, cp_accept, cp_send, cp_recv, cp_setblocking,
  cp_close_socket, cp_getpeername,
}

-- No call of the system changes what `P` says.
pub record NetKeeps {W : Type 0} (net : Net W) (P : W → Type 0) : Type 0 where
  pub socket : (af type protocol : ℕ) (w : W) → P w → P (net.socket af type protocol w).1
  pub bind : (sock : ℤ) (addr : Addr) (w : W) → P w → P (net.bind sock addr w).1
  pub listen : (sock : ℤ) (n : ℕ) (w : W) → P w → P (net.listen sock n w).1
  pub connect : (sock : ℤ) (addr : Addr) (w : W) → P w → P (net.connect sock addr w).1
  pub accept : (sock : ℤ) (w : W) → P w → P (net.accept sock w).1
  pub send :
      (sock : ℤ) (bytes : List ℕ) (flags : ℕ) (w : W) → P w → P (net.send sock bytes flags w).1
  pub recv : (sock : ℤ) (n flags : ℕ) (w : W) → P w → P (net.recv sock n flags w).1
  pub get_flags : (sock : ℤ) (w : W) → P w → P (net.get_flags sock w).1
  pub set_flags : (sock : ℤ) (mode : Flags) (w : W) → P w → P (net.set_flags sock mode w).1
  pub close : (sock : ℤ) (w : W) → P w → P (net.close sock w)
  pub getpeername : (sock : ℤ) (w : W) → P w → P (net.getpeername sock w).1
  pub getsockopt : (sock : ℤ) (w : W) → P w → P (net.getsockopt sock w).1
  pub inet_pton : (host : List ℕ) (w : W) → P w → P (net.inet_pton host w).1
  pub inet_ntop : (addr : Addr) (n : ℕ) (w : W) → P w → P (net.inet_ntop addr n w).1
  pub select : (r w e : List ℤ) (timeout : ℕ) (v : W) → P v → P (net.select r w e timeout v).1
  pub usleep : (n : ℕ) (w : W) → P w → P (net.usleep n w)

module _ {W : Type 0} (net : Net W) {P : W → Type 0} (k : NetKeeps net P) where
  cp_socket-Keeps : (af type protocol : ℕ) → Keeps P (cp_socket net af type protocol)
  unfolding cp_socket
  cp_socket-Keeps af type protocol = search (keeps_rules, k.socket)

  pub cp_socket_tcp-Keeps : Keeps P (cp_socket_tcp net)
  unfolding cp_socket_tcp
  cp_socket_tcp-Keeps = search (keeps_rules, k.socket)

  pub cp_socket_udp-Keeps : Keeps P (cp_socket_udp net)
  unfolding cp_socket_udp
  cp_socket_udp-Keeps = search (keeps_rules, k.socket)

  pub cp_inet_ntop-Keeps : (src : Option Addr) (len : Option ℕ) → Keeps P (cp_inet_ntop net src len)
  unfolding cp_inet_ntop
  cp_inet_ntop-Keeps none len = search keeps_rules
  cp_inet_ntop-Keeps (some src) none = search keeps_rules
  cp_inet_ntop-Keeps (some src) (some len) = search (keeps_rules, k.inet_ntop)

  cp_inet_pton-Keeps : (host : Option (List ℕ)) (addr : Addr) → Keeps P (cp_inet_pton net host addr)
  unfolding cp_inet_pton
  cp_inet_pton-Keeps none addr = search keeps_rules
  cp_inet_pton-Keeps (some host) addr = search (keeps_rules, k.inet_pton)

  with_address-Keeps :
      (af : ℕ) (host : Option (List ℕ)) (port : ℕ) (failed : ℤ) (use_it : Addr → M W ℤ)
      → ((addr : Addr) → Keeps P (use_it addr))
      → Keeps P (with_address net af host port failed use_it)
  unfolding with_address
  with_address-Keeps af host port failed use_it h = search (keeps_rules, cp_inet_pton-Keeps, h)

  pub cp_bind-Keeps :
      (sock : ℤ) (af : ℕ) (host : Option (List ℕ)) (port : ℕ)
      → Keeps P (cp_bind net sock af host port)
  unfolding cp_bind
  cp_bind-Keeps sock af host port =
      with_address-Keeps af host port _ _ (λ addr. search (keeps_rules, k.bind))

  pub cp_connect-Keeps :
      (sock : ℤ) (af : ℕ) (host : Option (List ℕ)) (port : ℕ)
      → Keeps P (cp_connect net sock af host port)
  unfolding cp_connect
  cp_connect-Keeps sock af none port = search keeps_rules
  cp_connect-Keeps sock af (some host) port =
      let made : (addr : Addr) → Keeps P (call (net.connect sock addr)) =
        λ addr. search (keeps_rules, k.connect) in
      search (keeps_rules, with_address-Keeps, made)

  pub cp_listen-Keeps : (sock : ℤ) (n : ℕ) → Keeps P (cp_listen net sock n)
  unfolding cp_listen
  cp_listen-Keeps sock n = search (keeps_rules, k.listen)

  pub cp_accept-Keeps : (sock : ℤ) → Keeps P (cp_accept net sock)
  unfolding cp_accept
  cp_accept-Keeps sock = search (keeps_rules, k.accept)

  pub cp_send-Keeps :
      (sock : ℤ) (bytes : List ℕ) (flags : ℕ) → Keeps P (cp_send net sock bytes flags)
  unfolding cp_send
  cp_send-Keeps sock [] flags = search keeps_rules
  cp_send-Keeps sock (b ∷ bs) flags = search (keeps_rules, k.send)

  pub cp_recv-Keeps : (sock : ℤ) (n flags : ℕ) → Keeps P (cp_recv net sock n flags)
  unfolding cp_recv
  cp_recv-Keeps sock zero flags = search keeps_rules
  cp_recv-Keeps sock (suc n) flags = search (keeps_rules, k.recv)

  pub cp_setblocking-Keeps :
      (sock : ℤ) (is_block : Bool) → Keeps P (cp_setblocking net sock is_block)
  unfolding cp_setblocking
  cp_setblocking-Keeps sock is_block = search (keeps_rules, k.get_flags, k.set_flags)

  pub cp_close_socket-Keeps : (sock : ℤ) → Keeps P (cp_close_socket net sock)
  unfolding cp_close_socket
  cp_close_socket-Keeps sock = search (keeps_rules, k.close)

  pub cp_getpeername-Keeps : (sock : ℤ) → Keeps P (cp_getpeername net sock)
  unfolding cp_getpeername
  cp_getpeername-Keeps sock = search (keeps_rules, k.getpeername)
