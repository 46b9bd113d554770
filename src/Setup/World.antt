-- ===== src/Setup/World.antt =====
-- `accept` and the constructors of a new client's handler: what they keep of the system's state.
use socket_server.Prelude.{
  ℕ, Bool, Option, none, some, List, ℤ, Keeps, keeps_rules, Option-cases, inl, inr,
}
use socket_server.Cp.{
  Net, Addr, Errno, Flags, cp_accept, cp_inet_ntop, cp_getpeername, cp_setblocking,
}
use socket_server.Virus.{Session}
use socket_server.BaseSocket.{
  Handler, Process, lift_net, load, store, erase, insert, allocate, find, add_channel, del_channel,
  set_socket,
}
use socket_server.BaseSocket.Frame.{erase-absent, erase-present}
use socket_server.Setup.{accept, set_peer, find_peer, connected_to, construct, new_virus_handler}

-- The calls that are made for a new client keep `R`.
pub record JoinKeeps {W : Type 0} (net : Net W) (R : W → Type 0) : Type 0 where
  pub accept : (s : ℤ) (w : W) → R w → R (net.accept s w).1
  pub getpeername : (s : ℤ) (w : W) → R w → R (net.getpeername s w).1
  pub inet_ntop : (addr : Addr) (n : ℕ) (w : W) → R w → R (net.inet_ntop addr n w).1
  pub get_flags : (s : ℤ) (w : W) → R w → R (net.get_flags s w).1
  pub set_flags : (s : ℤ) (mode : Flags) (w : W) → R w → R (net.set_flags s mode w).1

module _ {W : Type 0} (net : Net W) (R : W → Type 0) (kept : JoinKeeps net R) where
  -- `R` of the system's state.
  abbrev pub OfWorld : Process W → Type 0
  OfWorld p = R p.world

  pub load-OfWorld : (this : ℕ) → Keeps OfWorld (load this)
  unfolding load
  load-OfWorld this = record { at = λ p h. h }

  store-OfWorld : (this : ℕ) (f : Handler → Handler) → Keeps OfWorld (store this f)
  unfolding store
  store-OfWorld this f = record { at = λ p h. h }

  allocate-OfWorld : (h : Handler) → Keeps OfWorld (allocate h)
  unfolding allocate
  allocate-OfWorld h = record { at = λ p h. h }

  erase-OfWorld : (sock : ℤ) (p : Process W) → OfWorld p → OfWorld (erase sock p)
  erase-OfWorld sock p h = elim (Option-cases (find sock p.handlers)) [
    | inl a ↦ rw (erase-absent sock p a) h
    | inr (o, f) ↦ rw (erase-present sock p o f) h
  ]

  insert-OfWorld : (sock : ℤ) (this : ℕ) (p : Process W) → OfWorld p → OfWorld (insert sock this p)
  unfolding insert
  insert-OfWorld sock this p h = h

  same : (p : Process W) → OfWorld p → OfWorld p
  same p h = h

  pub accept-OfWorld : (this : ℕ) → Keeps OfWorld (accept net this)
  unfolding accept cp_accept cp_inet_ntop
  accept-OfWorld this =
      let accepts : (s : ℤ) (p : Process W) → OfWorld p → OfWorld ((lift_net net).accept s p).1 =
        λ s p h. kept.accept s p.world h in
      let texts : (addr : Addr) (n : ℕ) (p : Process W)
          → OfWorld p
          → OfWorld ((lift_net net).inet_ntop addr n p).1 =
        λ addr n p h. kept.inet_ntop addr n p.world h in
      search (keeps_rules, load-OfWorld, accepts, texts, same) depth 9

  setblocking-OfWorld : (sock : ℤ) (b : Bool) → Keeps OfWorld (cp_setblocking (lift_net net) sock b)
  unfolding cp_setblocking
  setblocking-OfWorld sock b =
      let gets : (s : ℤ) (p : Process W) → OfWorld p → OfWorld ((lift_net net).get_flags s p).1 =
        λ s p h. kept.get_flags s p.world h in
      let sets : (s : ℤ) (m : Flags) (p : Process W)
          → OfWorld p
          → OfWorld ((lift_net net).set_flags s m p).1 =
        λ s m p h. kept.set_flags s m p.world h in
      search (keeps_rules, gets, sets)

  set_socket-OfWorld : (this : ℕ) (sock : ℤ) → Keeps OfWorld (set_socket net this sock)
  unfolding set_socket add_channel
  set_socket-OfWorld this sock =
      search (keeps_rules, store-OfWorld, load-OfWorld, erase-OfWorld, insert-OfWorld) depth 9

  del_channel-OfWorld : (this : ℕ) → Keeps OfWorld (del_channel net this)
  unfolding del_channel
  del_channel-OfWorld this = search (keeps_rules, load-OfWorld, erase-OfWorld)

  set_peer-OfWorld :
      (this port : ℕ) (ip : Option (List ℕ)) → Keeps OfWorld (set_peer net this port ip)
  unfolding set_peer
  set_peer-OfWorld this port none = search keeps_rules
  set_peer-OfWorld this port (some ip) = store-OfWorld this (λ h. record h { addr = (ip, port) })

  find_peer-OfWorld :
      (this : ℕ) (peer : ℤ × Addr) (errno : Errno) → Keeps OfWorld (find_peer net this peer errno)
  unfolding find_peer cp_inet_ntop
  find_peer-OfWorld this peer errno =
      let texts : (addr : Addr) (n : ℕ) (p : Process W)
          → OfWorld p
          → OfWorld ((lift_net net).inet_ntop addr n p).1 =
        λ addr n p h. kept.inet_ntop addr n p.world h in
      search (keeps_rules, texts, set_peer-OfWorld, store-OfWorld, del_channel-OfWorld) depth 9

  connected_to-OfWorld : (this : ℕ) (sock : ℤ) → Keeps OfWorld (connected_to net this sock)
  unfolding connected_to cp_getpeername
  connected_to-OfWorld this sock =
      let peers : (s : ℤ) (p : Process W) → OfWorld p → OfWorld ((lift_net net).getpeername s p).1 =
        λ s p h. kept.getpeername s p.world h in
      search (keeps_rules, store-OfWorld, peers, find_peer-OfWorld, same) depth 9

  construct-OfWorld : (this : ℕ) → Keeps OfWorld (construct net this)
  unfolding construct
  construct-OfWorld this =
      search
        (keeps_rules, load-OfWorld, setblocking-OfWorld, set_socket-OfWorld, connected_to-OfWorld)
        depth 9

  pub new_virus_handler-OfWorld :
      (session : Session) (sock : ℤ) → Keeps OfWorld (new_virus_handler net session sock)
  unfolding new_virus_handler
  new_virus_handler-OfWorld session sock =
      search (keeps_rules, allocate-OfWorld, construct-OfWorld, setblocking-OfWorld) depth 9
