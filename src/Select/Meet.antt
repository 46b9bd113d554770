-- ===== src/Select/Meet.antt =====
-- A round of `loop` in base_socket.cpp in which a client joins a server.
use socket_server.Prelude.{
  ℕ, suc, ◌≡◌, sym, true, Option, some, List, [], ◌∷◌, ℤ, pos, pure, ◌>>◌, subst, IfOk, Keeps,
  keeps_rules, Returns, Returns-map, Returns-IfOk,
}
use socket_server.Cache.{Stdio}
use socket_server.Cp.{Net, Addr}
use socket_server.Virus.{Session}
use socket_server.BaseSocket.{Process, tcp_server, load, find}
use socket_server.BaseSocket.Owned.{IsOwned}
use socket_server.BaseSocket.Leave.{after_load}
use socket_server.Setup.Join.{IsPeer, client}
use socket_server.Setup.World.{JoinKeeps, OfWorld, accept-OfWorld, new_virus_handler-OfWorld}
use socket_server.Events.{accept_client, accept_as, handle_accept, handle_read_event}
use socket_server.Events.Join.{IsAccepting, HasJoined, handle_read_event-HasJoined}
use socket_server.Select.{rounds}
use socket_server.Select.Round.{Reports, selected}
use socket_server.Select.Due.{stale-eq, do_select_reads, rounds-do_select}

module _ {W : Type 0} (net : Net W) (stdio : Stdio W) (R : W → Type 0) (kept : JoinKeeps net R)
    (fuel : ℕ) where
  accept_client-OfWorld :
      (session : Session) (this : ℕ)
      → Keeps (OfWorld net R kept) (accept_client net stdio fuel session this)
  unfolding accept_client
  accept_client-OfWorld session this =
      search (keeps_rules, accept-OfWorld net R kept, new_virus_handler-OfWorld net R kept) depth 9

  -- The read event of a server makes no call but those for a new client.
  pub accepts-OfWorld :
      (session : Session) (p : Process W) (srv : ℕ)
      → (p.objects srv).class ≡ tcp_server
      → (p.objects srv).accepting ≡ true
      → R p.world
      → IfOk (λ d q. R q.world) (handle_read_event net stdio fuel session srv p)
  unfolding handle_read_event handle_accept accept_as load
  accepts-OfWorld session p srv c a h =
      let made : Keeps (OfWorld net R kept)
          (accept_client net stdio fuel session srv >> pure (some tt)) =
        search (keeps_rules, accept_client-OfWorld session srv) in
      rw (a, IfOk, c) (made.at (after_load (after_load p srv) srv) h)

module _ {W : Type 0} (net : Net W) (stdio : Stdio W) (sent : ℤ → W → List ℕ) (k : ℕ) (fuel : ℕ)
    (session : Session) (addr : Addr) (ip : List ℕ) (known : IsPeer net (pos (suc k)) addr ip)
    (greeting : W → Type 0)
    (keeps : (x : List ℕ) → JoinKeeps net (λ w. greeting w × (sent (pos (suc k)) w ≡ x)))
    (select_sends : (r w e : List ℤ) (timeout : ℕ) (v : W)
      → sent (pos (suc k)) (net.select r w e timeout v).1 ≡ sent (pos (suc k)) v) where
  abbrev sock : ℤ
  sock = pos (suc k)

  -- After the first round: the client's handler is `this`.
  abbrev pub HasMet : ℕ → List ℕ → Process W → Type 0
  HasMet this x q =
      (q.objects this ≡ client net sock addr ip known session)
      × (find sock q.handlers ≡ some this)
      × (greeting q.world × (sent sock q.world ≡ x))
      × IsOwned q

  meets :
      (p : Process W) (srv : ℕ) (x : List ℕ)
      → IsOwned p
      → IsAccepting net p srv sock addr
      → greeting p.world × (sent sock p.world ≡ x)
      → Returns
          (handle_read_event net stdio fuel session srv p)
          (λ d q. (d ≡ some tt) × HasMet p.next x q)
  meets p srv x w a g =
      Returns-map
        (λ d q.
          (((d ≡ some tt) × HasJoined net stdio fuel sock addr ip known session p q) × IsOwned q)
          × (greeting q.world × (sent sock q.world ≡ x)))
        _ _
        (Returns-IfOk
          (λ d q.
            ((d ≡ some tt) × HasJoined net stdio fuel sock addr ip known session p q) × IsOwned q)
          (λ d q. greeting q.world × (sent sock q.world ≡ x)) _
          (handle_read_event-HasJoined net stdio fuel sock addr ip known session p srv w a)
          (accepts-OfWorld net stdio (λ v. greeting v × (sent sock v ≡ x)) (keeps x) fuel session p
            srv a.class a.accepting g))
        (λ d q (((e, (h, f, b)), own), g'). (e, (h, f, g', own)))

  -- The process when the first `select` has returned.
  abbrev pub begun : ℕ → ℕ → Process W → Process W
  begun j timeout p =
      selected net stdio fuel session (pos (suc j) ∷ []) [] [] (pos (suc j)) timeout p

  -- The first round; `Q` is what the rounds behind it do for a client that has joined.
  pub rounds-HasMet :
      (n timeout j : ℕ) (p : Process W) (srv : ℕ) (Q : Option (Unit {0}) → Process W → Type 0)
      → IsOwned p
      → find (pos (suc j)) p.handlers ≡ some srv
      → Reports net stdio fuel session (pos (suc j) ∷ []) [] [] (pos (suc j)) timeout p
      → IsAccepting net (begun j timeout p) srv sock addr
      → greeting (begun j timeout p).world
      → ((q : Process W)
          → HasMet p.next (sent sock p.world) q
          → Returns (rounds net stdio fuel session n timeout q) Q)
      → Returns (rounds net stdio fuel session (suc n) timeout p) Q
  rounds-HasMet n timeout j p srv Q w f reported a g later =
      let x = sent sock p.world in
      rounds-do_select net stdio fuel session j srv n timeout (HasMet p.next x) Q p f
        (do_select_reads net stdio fuel session j srv timeout (HasMet p.next x) p w f reported
          (λ q same.
            let q0 : Process W = record (begun j timeout p) { stale = q.stale } in
            subst
              (λ q.
                Returns (handle_read_event net stdio fuel session srv q)
                  (λ d q'. (d ≡ some tt) × HasMet p.next x q'))
              (sym (stale-eq net stdio fuel session j srv (begun j timeout p) q same))
              (meets q0 srv x
                (record {
                  one_entry = w.one_entry;
                  alive = w.alive;
                  same_sock = w.same_sock;
                  allocated = w.allocated;
                })
                (record { class = a.class; accepting = a.accepting; next_client = a.next_client })
                (g, select_sends _ _ _ timeout p.world))))
        later
