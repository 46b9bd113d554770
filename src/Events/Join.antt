-- ===== src/Events/Join.antt =====
-- The read event of the server in base_socket.cpp and tcp_server.cpp: a new client.
use socket_server.Prelude.{
  ℕ, ◌≡◌, refl, true, some, List, ℤ, arith, ◌∙◌, ap, Returns, Returns->>=, Returns-map,
  Returns-IfOk, pure,
}
use socket_server.Cache.{Stdio}
use socket_server.Cp.{Net, Addr, cp_socket_valid, cp_accept, cp_inet_ntop}
use socket_server.Virus.{Session}
use socket_server.BaseSocket.{Process, tcp_server, load, find, remove, put}
use socket_server.BaseSocket.Map.{
  IsMap, find-put, find-put_other, put-IsMap, find-removed, find-remove_other, remove-IsMap,
}
use socket_server.BaseSocket.Channel.{IsBut}
use socket_server.BaseSocket.Owned.{IsOwned}
use socket_server.BaseSocket.Frame.{load-Keeps}
use socket_server.BaseSocket.Leave.{after_load}
use socket_server.Setup.Frame.{accept-Keeps}
use socket_server.Setup.{accept, new_virus_handler}
use socket_server.Setup.Join.{IsPeer, client, new_virus_handler-Has}
use socket_server.Events.{accept_client, accept_as, handle_accept, handle_read_event}
use socket_server.Events.Frame.{handle_read_event-Keeps}

-- A handler that accepts, whose next client has the socket `sock` and the address `addr`.
pub record IsAccepting {W : Type 0} (net : Net W) (p : Process W) (srv : ℕ) (sock : ℤ) (addr : Addr)
    : Type 0 where
  pub class : (p.objects srv).class ≡ tcp_server
  pub accepting : (p.objects srv).accepting ≡ true
  pub next_client : (net.accept (p.objects srv).sock p.world).0 ≡ (sock, addr)

put-remove-IsBut :
    (sock : ℤ) (this : ℕ) (hs : List (ℤ × ℕ))
    → IsMap hs
    → (find sock (put sock this (remove sock hs)) ≡ some this)
      × IsBut sock hs (put sock this (remove sock hs))
put-remove-IsBut sock this hs m =
    let gone = find-removed sock hs m in
    (
      find-put sock this (remove sock hs) gone,
      (
        put-IsMap sock this (remove sock hs) gone (remove-IsMap sock hs m),
        λ s d. find-put_other sock s this (remove sock hs) d ∙ find-remove_other sock s hs d,
      ),
    )

module _ {W : Type 0} (net : Net W) (stdio : Stdio W) (fuel : ℕ) (sock : ℤ) (addr : Addr)
    (ip : List ℕ) (known : IsPeer net sock addr ip) where
  -- The map has a new object for the client, and every other socket has what it had.
  abbrev pub HasJoined : Session → Process W → Process W → Type 0
  HasJoined session p q =
      (q.objects p.next ≡ client net sock addr ip known session)
      × (find sock q.handlers ≡ some p.next)
      × IsBut sock p.handlers q.handlers

  new_virus_handler-HasJoined :
      (session : Session) (p : Process W)
      → IsOwned p
      → Returns (new_virus_handler net session sock p) (λ o. HasJoined session p)
  new_virus_handler-HasJoined session p w =
      Returns-map _ (λ o. HasJoined session p) _
        (new_virus_handler-Has net sock addr ip known session p
          (λ e. omega (arith, w.allocated sock p.next e)))
        (λ o q (e, (h, m)).
          let (f, b) = put-remove-IsBut sock p.next p.handlers w.one_entry in (h, rw m f, rw m b))

  -- The client's socket; the objects and the map as before.
  abbrev Given : Process W → ℤ × List ℕ × ℕ → Process W → Type 0
  Given p r q =
      (r.0 ≡ sock) × (q.objects ≡ p.objects) × (q.handlers ≡ p.handlers) × (q.next ≡ p.next)

  accept-Given :
      (p : Process W) (srv : ℕ)
      → IsAccepting net p srv sock addr
      → Returns (accept net srv p) (Given p)
  unfolding accept load cp_accept cp_inet_ntop
  accept-Given p srv a =
      let s : (net.accept (p.objects srv).sock p.world).0.0 ≡ sock =
        ap (λ (x : ℤ × Addr). x.0) a.next_client in
      let valid : cp_socket_valid (net.accept (p.objects srv).sock p.world).0.0 ≡ true =
        ap cp_socket_valid s ∙ known.valid in
      rw valid (s, refl, refl, refl)

  accept_client-HasJoined :
      (session : Session) (p : Process W) (srv : ℕ)
      → IsOwned p
      → IsAccepting net p srv sock addr
      → Returns (accept_client net stdio fuel session srv p) (λ u. HasJoined session p)
  unfolding accept_client
  accept_client-HasJoined session p srv w a =
      Returns->>= (accept net srv) _ (λ r q. Given p r q × IsOwned q) (λ u. HasJoined session p) p
        (Returns-IfOk (Given p) (λ r. IsOwned) _ (accept-Given p srv a)
          ((accept-Keeps net srv).at p w))
        (λ r q ((s, o, m, n), v).
          rw (s, known.valid)
            (Returns->>= (new_virus_handler net session sock) (λ o. pure tt)
              (λ o. HasJoined session q) (λ u. HasJoined session p) q
              (new_virus_handler-HasJoined session q v)
              (λ o q' (h, f, b). (rw (← n) h, rw (← n) f, (b.0, λ s d. b.1 s d ∙ ap (find s) m)))))

  handle_accept-HasJoined :
      (session : Session) (p : Process W) (srv : ℕ)
      → IsOwned p
      → IsAccepting net p srv sock addr
      → Returns (handle_accept net stdio fuel session srv p) (λ u. HasJoined session p)
  unfolding handle_accept accept_as load
  handle_accept-HasJoined session p srv w a = rw a.class (
      accept_client-HasJoined session (after_load p srv) srv ((load-Keeps srv).at p w)
        (record { class = a.class; accepting = a.accepting; next_client = a.next_client }))

  joins :
      (session : Session) (p : Process W) (srv : ℕ)
      → IsOwned p
      → IsAccepting net p srv sock addr
      → Returns
          (handle_read_event net stdio fuel session srv p)
          (λ d q. (d ≡ some tt) × HasJoined session p q)
  unfolding handle_read_event load
  joins session p srv w a = rw a.accepting (
      Returns->>= (handle_accept net stdio fuel session srv) (λ u. pure (some tt))
        (λ u. HasJoined session p) (λ d q. (d ≡ some tt) × HasJoined session p q) (after_load p srv)
        (handle_accept-HasJoined session (after_load p srv) srv ((load-Keeps srv).at p w)
          (record { class = a.class; accepting = a.accepting; next_client = a.next_client }))
        (λ u q h. (refl, h)))

  -- On a map that owns its handlers, the read event of the server, when `accept` gives a valid socket of
  -- which the system knows the peer and its text: it returns without undefined behaviour; a new object
  -- is a VirusHandler with this socket and the peer's text and port, connected and not accepting, with
  -- the session that its constructor sets up; the map has it under its socket, has for every other
  -- socket what it had, and owns its handlers.
  pub handle_read_event-HasJoined :
      (session : Session) (p : Process W) (srv : ℕ)
      → IsOwned p
      → IsAccepting net p srv sock addr
      → Returns
          (handle_read_event net stdio fuel session srv p)
          (λ d q. ((d ≡ some tt) × HasJoined session p q) × IsOwned q)
  handle_read_event-HasJoined session p srv w a =
      Returns-IfOk (λ d q. (d ≡ some tt) × HasJoined session p q) (λ d. IsOwned) _
        (joins session p srv w a) ((handle_read_event-Keeps net stdio fuel session srv).at p w)
