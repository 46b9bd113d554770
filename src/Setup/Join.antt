-- ===== src/Setup/Join.antt =====
-- A client that `accept` has given: its VirusHandler, by the constructors of virus_handler.cpp,
-- socket_handler.cpp and base_socket.cpp.
use socket_server.Prelude.{
  ℕ, suc, ◌≡◌, ◌≢◌, refl, sym, true, false, Bool, none, some, List, [], ◌∷◌, ℤ, pos, arith, ◌∙◌, ap,
  Returns, Returns->>=, inl, inr, Option-cases, subst, ◌>>=◌, ◌>>◌, pure,
}
use socket_server.Cp.{Net, Addr, cp_socket_valid, cp_setblocking, cp_getpeername, cp_inet_ntop}
use socket_server.Virus.{Session}
use socket_server.BaseSocket.{
  Handler, Process, virus_handler, lift_net, load, store, erase, insert, allocate, find, remove,
  put, update, add_channel, set_socket,
}
use socket_server.BaseSocket.Leave.{after_load}
use socket_server.BaseSocket.Frame.{erase-absent, erase-present}
use socket_server.Setup.{set_peer, find_peer, connected_to, construct, new_virus_handler}

-- A valid socket, of which the system knows the peer and the peer's text.
pub record IsPeer {W : Type 0} (net : Net W) (sock : ℤ) (addr : Addr) (ip : List ℕ) : Type 0 where
  pub valid : cp_socket_valid sock ≡ true
  pub peer : (w : W) → (net.getpeername sock w).0 ≡ (pos 0, addr)
  pub text : (w : W) → (net.inet_ntop addr 16 w).0 ≡ some ip

module _ {W : Type 0} (net : Net W) (sock : ℤ) (addr : Addr) (ip : List ℕ)
    (known : IsPeer net sock addr ip) where
  -- The object is `h`, and the map is `hs`.
  abbrev Has : ℕ → Handler → List (ℤ × ℕ) → Process W → Type 0
  Has this h hs p = (p.objects this ≡ h) × (p.handlers ≡ hs)

  connected_to-Has :
      (this : ℕ) (h : Handler) (hs : List (ℤ × ℕ)) (p : Process W)
      → Has this h hs p
      → Returns
          (connected_to net this sock p)
          (λ u. Has this (record h { connected = true; addr = (ip, addr.port) }) hs)
  unfolding connected_to find_peer set_peer store cp_getpeername cp_inet_ntop
  connected_to-Has this h hs p (e, m) =
      let q = net.getpeername sock p.world in
      rw (known.peer p.world, known.text q.1) (ground (arith, e), m)

  remove-absent : (s : ℤ) (hs : List (ℤ × ℕ)) → find s hs ≡ none → remove s hs ≡ hs
  unfolding find remove
  remove-absent s [] h = refl
  remove-absent s ((s', o) ∷ rest) h = ground (arith, remove-absent s rest)

  -- The entry of the socket is removed, and its object may have been destroyed, but it is not this one.
  erase-Has :
      (this : ℕ) (h : Handler) (hs : List (ℤ × ℕ)) (p : Process W)
      → Has this h hs p
      → find sock hs ≢ some this
      → Has this h (remove sock hs) (erase sock p)
  erase-Has this h hs p (e, m) n = elim (Option-cases (find sock p.handlers)) [
    | inl a ↦
        subst (Has this h (remove sock hs)) (sym (erase-absent sock p a))
          (e, m ∙ sym (remove-absent sock hs (ap (find sock) (sym m) ∙ a)))
    | inr (o, f) ↦
        subst (Has this h (remove sock hs)) (sym (erase-present sock p o f))
          (ground (arith, e, f, m, n), ap (remove sock) m)
  ]

  -- The map with the new handler in the place of what was under its socket.
  abbrev joined : ℕ → List (ℤ × ℕ) → List (ℤ × ℕ)
  joined this hs = put sock this (remove sock hs)

  add_channel-Has :
      (this : ℕ) (h : Handler) (hs : List (ℤ × ℕ)) (p : Process W)
      → h.sock ≡ sock
      → find sock hs ≢ some this
      → Has this h hs p
      → Returns (add_channel net this p) (λ u. Has this h (joined this hs))
  unfolding add_channel load insert
  add_channel-Has this h hs p k n (e, m) =
      let erased = erase-Has this h hs (after_load p this) (e, m) n in
      subst (λ s. Has this h (joined this hs) (insert s this (erase s (after_load p this))))
        (sym (ap (λ (o : Handler). o.sock) e ∙ k)) (erased.0, ap (put sock this) erased.1)

  set_socket-Has :
      (this : ℕ) (h : Handler) (hs : List (ℤ × ℕ)) (p : Process W)
      → h.sock ≡ sock
      → find sock hs ≢ some this
      → Has this h hs p
      → Returns (set_socket net this sock p) (λ u. Has this h (joined this hs))
  unfolding set_socket store
  set_socket-Has this h hs p k n (e, m) =
      Returns->>= (store this (λ o. record o { sock = sock })) (λ u. add_channel net this)
        (λ u. Has this h hs) (λ u. Has this h (joined this hs)) p (ground (arith, e, k), m)
        (λ u q. add_channel-Has this h hs q k n)

  blocking-Has :
      (b : Bool) (this : ℕ) (h : Handler) (hs : List (ℤ × ℕ)) (p : Process W)
      → Has this h hs p
      → Returns (cp_setblocking (lift_net net) sock b p) (λ r. Has this h hs)
  unfolding cp_setblocking
  blocking-Has b this h hs p k = k

  construct-Has :
      (this : ℕ) (h : Handler) (hs : List (ℤ × ℕ)) (p : Process W)
      → h.sock ≡ sock
      → find sock hs ≢ some this
      → Has this h hs p
      → Returns
          (construct net this p)
          (λ u. Has this (record h { connected = true; addr = (ip, addr.port) }) (joined this hs))
  unfolding construct load
  construct-Has this h hs p k n (e, m) =
      let own : (p.objects this).sock ≡ sock = ap (λ (o : Handler). o.sock) e ∙ k in
      let h' : Handler = record h { connected = true; addr = (ip, addr.port) } in
      rw (own, known.valid)
        (Returns->>= (cp_setblocking (lift_net net) sock false)
          (λ d. set_socket net this sock >> connected_to net this sock) (λ d. Has this h hs)
          (λ u. Has this h' (joined this hs)) (after_load p this)
          (blocking-Has false this h hs (after_load p this) (e, m))
          (λ d q w.
            Returns->>= (set_socket net this sock) (λ u. connected_to net this sock)
              (λ u. Has this h (joined this hs)) (λ u. Has this h' (joined this hs)) q
              (set_socket-Has this h hs q k n w)
              (λ u q'. connected_to-Has this h (joined this hs) q')))

  -- The handler of a new client.
  abbrev pub client : Session → Handler
  client session = record {
    class = virus_handler;
    sock = sock;
    addr = (ip, addr.port);
    connected = true;
    connecting = false;
    accepting = false;
    session = session;
    live = true;
  }

  pub new_virus_handler-Has :
      (session : Session) (p : Process W)
      → find sock p.handlers ≢ some p.next
      → Returns
          (new_virus_handler net session sock p)
          (λ o q. (o ≡ p.next) × Has p.next (client session) (joined p.next p.handlers) q)
  unfolding new_virus_handler allocate
  new_virus_handler-Has session p n =
      let made : Process W = record p {
        objects =
            update p.objects p.next (record (client session) { connected = false; addr = ([], 0) });
        next = suc p.next;
      } in
      Returns->>= (construct net p.next)
        (λ u. cp_setblocking (lift_net net) sock true >>= λ blocking. pure p.next)
        (λ u. Has p.next (client session) (joined p.next p.handlers))
        (λ o q. (o ≡ p.next) × Has p.next (client session) (joined p.next p.handlers) q) made
        (construct-Has p.next (record (client session) { connected = false; addr = ([], 0) })
          p.handlers made refl n (ground arith, refl))
        (λ u q h.
          Returns->>= (cp_setblocking (lift_net net) sock true) (λ blocking. pure p.next)
            (λ r. Has p.next (client session) (joined p.next p.handlers))
            (λ o q. (o ≡ p.next) × Has p.next (client session) (joined p.next p.handlers) q) q
            (blocking-Has true p.next (client session) (joined p.next p.handlers) q h)
            (λ r q' h'. (refl, h')))
