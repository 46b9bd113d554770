-- ===== src/Select/Welcome.antt =====
-- Three rounds of `loop` in base_socket.cpp: a client joins, its requests come in, and its answers go
-- out.
use socket_server.Prelude.{
  ℕ, suc, ◌<◌, ◌≤◌, ◌≡◌, refl, sym, Option, some, List, [], ◌∷◌, ◌++◌, length, map, ℤ, pos, ap, ◌∙◌,
  subst, Returns, Returns-map,
}
use socket_server.Cache.{Stdio}
use socket_server.Cache.Storage.{IsReliable}
use socket_server.Cp.{Net, Addr}
use socket_server.Hv.Message.{IsStart}
use socket_server.Virus.{Session}
use socket_server.Virus.Read.{Message, AllLarge, stream}
use socket_server.BaseSocket.{Handler, Process, find}
use socket_server.BaseSocket.Owned.{IsOwned}
use socket_server.Setup.Join.{IsPeer}
use socket_server.Setup.World.{JoinKeeps}
use socket_server.Events.Join.{IsAccepting}
use socket_server.Events.Deliver.{TakesAll}
use socket_server.Events.Exchange.{ok_reply}
use socket_server.Select.{rounds, watch_all}
use socket_server.Select.Round.{Reports, selected}
use socket_server.Select.Exchange.{IsDuplex, rounds-HasWritten}
use socket_server.Select.Meet.{HasMet, rounds-HasMet}

-- `greeting` is the state of the system from the first `select` to the second, `x` being what the
-- client's socket has been given before. The calls that are made for a new client keep it, and the next
-- `select` reports that the client's socket can be read, and nothing else; `buf` has then arrived
-- there, whole, and `phase` begins.
pub record IsGreeting {W : Type 0} (net : Net W) (sock : ℤ) (sent : ℤ → W → List ℕ)
    (phase : W → Type 0) (buf : List ℕ) (greeting : W → Type 0) : Type 0 where
  pub keeps : (x : List ℕ) → JoinKeeps net (λ w. greeting w × (sent sock w ≡ x))
  pub reports :
      (r w e : List ℤ) (timeout : ℕ) (v : W)
      → greeting v
      → (net.select r w e timeout v).0 ≡ (pos 1, sock ∷ [], [], [])
  pub begins :
      (r w e : List ℤ) (timeout : ℕ) (v : W) → greeting v → phase (net.select r w e timeout v).1
  pub arrives :
      (r w e : List ℤ) (timeout : ℕ) (v : W)
      → greeting v
      → (net.recv sock 65535 0 (net.select r w e timeout v).1).0 ≡ (pos (length buf), buf)
  pub some_bytes : 0 < length buf
  pub at_most : length buf ≤ 65535

module _ {W : Type 0} (net : Net W) (stdio : Stdio W) (rel : IsReliable stdio)
    (sent : ℤ → W → List ℕ) (all : TakesAll net stdio sent) (k : ℕ) (phase : W → Type 0)
    (duplex : IsDuplex net stdio (pos (suc k)) sent phase) (fuel : ℕ) (session : Session)
    (addr : Addr) (ip : List ℕ) (known : IsPeer net (pos (suc k)) addr ip) (m : Message)
    (ms : List Message) (greeting : W → Type 0)
    (greets : IsGreeting net (pos (suc k)) sent phase (stream (m ∷ ms)) greeting) where
  abbrev sock : ℤ
  sock = pos (suc k)

  -- Every request is answered, after `x`.
  abbrev Answered : ℕ → List ℕ → Option (Unit {0}) → Process W → Type 0
  Answered this x d q =
      (d ≡ some tt)
      × (sent sock q.world ≡ x ++ stream (map ok_reply (m ∷ ms)))
      × ((q.objects this).session.resp ≡ [])

  -- The next two.
  serves :
      (timeout this : ℕ) (x : List ℕ) (q : Process W)
      → IsStart session.req
      → session.resp ≡ []
      → AllLarge (m ∷ ms)
      → length ms < fuel
      → 4 < fuel
      → HasMet net stdio sent k fuel session addr ip known greeting greets.keeps duplex.select_sends
          this x q
      → Returns (rounds net stdio fuel session 2 timeout q) (Answered this x)
  serves timeout this x q st none_yet big g l (h, f, (met, out), own) =
      let s : (q.objects this).sock ≡ sock = ap (λ (o : Handler). o.sock) h in
      let sets = watch_all q.objects q.handlers in
      let came = greets.arrives sets.r sets.w sets.e timeout q.world met in
      let session_is : (q.objects this).session ≡ session = ap (λ (o : Handler). o.session) h in
      Returns-map (Answered this (sent sock q.world)) (Answered this x) _
        (rounds-HasWritten net stdio rel sent all k phase duplex fuel session timeout q this m ms
          own f
          (record {
            class = ap (λ (o : Handler). o.class) h;
            connected = ap (λ (o : Handler). o.connected) h;
            accepting = ap (λ (o : Handler). o.accepting) h;
          })
          (greets.reports sets.r sets.w sets.e timeout q.world met)
          (greets.begins sets.r sets.w sets.e timeout q.world met)
          (record {
            count = rw (s, came) refl;
            bytes = rw (s, came) refl;
            some_bytes = greets.some_bytes;
            at_most = greets.at_most;
          })
          (subst (λ (t : Session). IsStart t.req) (sym session_is) st)
          (ap (λ (t : Session). t.resp) session_is ∙ none_yet) big g l)
        (λ d q' (e, o, empty). (e, o ∙ ap (λ l. l ++ stream (map ok_reply (m ∷ ms))) out, empty))

  -- Over a network that takes all that it is given, on a host that runs out of nothing, with a map that
  -- owns its handlers: the first `select` reports that the socket of a server's listening handler can be
  -- read, `accept` gives a client's socket, and the system is then greeting that client, with whole
  -- requests, of at least 1024 bytes each, on their way. After three rounds of the loop, whatever other
  -- handlers there are, the client's socket has been given exactly one answer for each request, in order,
  -- with the request's id and state OK, and its new handler has none left. A new handler stands before a
  -- request, with no answer waiting; there is a turn for each request, and more than four.
  pub rounds-HasWelcomed :
      (timeout j : ℕ) (p : Process W) (srv : ℕ)
      → IsOwned p
      → find (pos (suc j)) p.handlers ≡ some srv
      → Reports net stdio fuel session (pos (suc j) ∷ []) [] [] (pos (suc j)) timeout p
      → IsAccepting net
          (selected net stdio fuel session (pos (suc j) ∷ []) [] [] (pos (suc j)) timeout p)
          srv
          sock
          addr
      → greeting
          (selected net stdio fuel session (pos (suc j) ∷ []) [] [] (pos (suc j)) timeout p).world
      → IsStart session.req
      → session.resp ≡ []
      → AllLarge (m ∷ ms)
      → length ms < fuel
      → 4 < fuel
      → Returns (rounds net stdio fuel session 3 timeout p) (λ d q.
        (d ≡ some tt)
        × (sent sock q.world ≡ sent sock p.world ++ stream (map ok_reply (m ∷ ms)))
        × ((q.objects p.next).session.resp ≡ []))
  rounds-HasWelcomed timeout j p srv w f reported a g st none_yet big g1 g2 =
      rounds-HasMet net stdio sent k fuel session addr ip known greeting greets.keeps
        duplex.select_sends 2 timeout j p srv (Answered p.next (sent sock p.world)) w f reported a g
        (λ q h. serves timeout p.next (sent sock p.world) q st none_yet big g1 g2 h)
