-- ===== src/Select/Exchange.antt =====
-- Two rounds of `loop` in base_socket.cpp: a client's requests come in, and its answers go out.
use socket_server.Prelude.{
  ℕ, suc, ◌<◌, ◌≡◌, refl, sym, true, false, Bool, Option, none, some, List, [], ◌∷◌, ◌++◌, length,
  map, ℤ, pos, ap, ◌∙◌, subst, Returns, Returns-map, Returns-IfOk, is_some,
}
use socket_server.Cache.{Stdio}
use socket_server.Cache.Frame.{HostKeeps, HostKeeps-both}
use socket_server.Cache.Storage.{IsReliable}
use socket_server.Cp.{Net}
use socket_server.Hv.{Hv}
use socket_server.Hv.Message.{IsStart}
use socket_server.Virus.{Session}
use socket_server.Virus.Read.{Message, AllLarge, Replies, stream}
use socket_server.BaseSocket.{Handler, Process, virus_handler, find, writable}
use socket_server.BaseSocket.Owned.{IsOwned}
use socket_server.Events.{handle_read_event}
use socket_server.Events.Frame.{handle_read_event-Keeps}
use socket_server.Events.Leave.{IsServing}
use socket_server.Events.Serve.{Arrives, HasServed, handle_read_event-HasServed}
use socket_server.Events.Deliver.{TakesAll}
use socket_server.Events.Exchange.{ok_reply, answered}
use socket_server.Select.{do_select, rounds}
use socket_server.Select.Round.{IsSame, Reports, selected}
use socket_server.Select.Due.{rounds-do_select, do_select_reads, do_select_writes, stale-eq}

-- In a world with `phase`, the next `select` reports that the socket can be written, and nothing else.
-- Neither that nor a receive nor the C library sends anything, or ends the phase before that.
pub record IsDuplex {W : Type 0} (net : Net W) (stdio : Stdio W) (sock : ℤ) (sent : ℤ → W → List ℕ)
    (phase : W → Type 0) : Type 0 where
  pub reports :
      (r w e : List ℤ) (timeout : ℕ) (v : W)
      → phase v
      → (net.select r w e timeout v).0 ≡ (pos 1, [], sock ∷ [], [])
  pub select_sends :
      (r w e : List ℤ) (timeout : ℕ) (v : W)
      → sent sock (net.select r w e timeout v).1 ≡ sent sock v
  pub recv_sends : (s' s : ℤ) (n flags : ℕ) (v : W) → sent s (net.recv s' n flags v).1 ≡ sent s v
  pub recv_keeps : (s : ℤ) (n flags : ℕ) (v : W) → phase v → phase (net.recv s n flags v).1
  pub library_keeps : HostKeeps stdio phase

module _ {W : Type 0} (net : Net W) (stdio : Stdio W) (rel : IsReliable stdio)
    (sent : ℤ → W → List ℕ) (all : TakesAll net stdio sent) (k : ℕ) (phase : W → Type 0)
    (duplex : IsDuplex net stdio (pos (suc k)) sent phase) (fuel : ℕ) (session : Session) where
  abbrev sock : ℤ
  sock = pos (suc k)

  abbrev reading : ℕ → Process W → Process W
  reading = selected net stdio fuel session (sock ∷ []) [] [] sock

  abbrev writing : ℕ → Process W → Process W
  writing = selected net stdio fuel session [] (sock ∷ []) [] sock

  -- The phase goes on, and `x` is what was sent.
  abbrev pub Quiet : List ℕ → W → Type 0
  Quiet x w = phase w × (sent sock w ≡ x)

  both : (x : List ℕ) → HostKeeps stdio (Quiet x)
  both x = HostKeeps-both stdio duplex.library_keeps (all.library_keeps sock x)

  -- After the first round.
  abbrev pub HasRead : Process W → ℕ → List Message → List ℕ → Process W → Type 0
  HasRead p this ms x q =
      HasServed (p.objects this) this ms (some tt) q
      × (q.handlers ≡ p.handlers)
      × Quiet x q.world
      × IsOwned q

  selected-IsOwned :
      (p : Process W) (w : W) (b : Bool) → IsOwned p → IsOwned (record p { world = w; stale = b })
  selected-IsOwned p w b h = record {
    one_entry = h.one_entry;
    alive = h.alive;
    same_sock = h.same_sock;
    allocated = h.allocated;
  }

  reads :
      (timeout : ℕ) (p : Process W) (this : ℕ) (m : Message) (ms : List Message) (x : List ℕ)
      (q : Process W)
      → IsOwned p
      → IsServing p this
      → Arrives net (reading timeout p) this (stream (m ∷ ms))
      → IsStart (p.objects this).session.req
      → AllLarge (m ∷ ms)
      → length ms < fuel
      → Quiet x (reading timeout p).world
      → IsSame (reading timeout p) q
      → Returns
          (handle_read_event net stdio fuel session this q)
          (λ d q'. (d ≡ some tt) × HasRead p this (m ∷ ms) x q')
  reads timeout p this m ms x q w v a st big f h same =
      let q0 : Process W = record (reading timeout p) { stale = q.stale } in
      subst
        (λ q.
          Returns (handle_read_event net stdio fuel session this q)
            (λ d q'. (d ≡ some tt) × HasRead p this (m ∷ ms) x q'))
        (sym (stale-eq net stdio fuel session k this (reading timeout p) q same))
        (Returns-map
          (λ d q'.
            (HasServed (p.objects this) this (m ∷ ms) d q'
              × (q'.handlers ≡ p.handlers)
              × Quiet x q'.world)
            × IsOwned q')
          _ _
          (Returns-IfOk
            (λ d q'.
              HasServed (p.objects this) this (m ∷ ms) d q'
              × (q'.handlers ≡ p.handlers)
              × Quiet x q'.world)
            (λ d. IsOwned) _
            (handle_read_event-HasServed net stdio rel (Quiet x)
              (record {
                recv = λ s n flags w h.
                    (duplex.recv_keeps s n flags w h.0, duplex.recv_sends s sock n flags w ∙ h.1);
                library = both x;
              })
              fuel session q0 this m ms
              (record { class = v.class; connected = v.connected; accepting = v.accepting })
              (record {
                count = a.count;
                bytes = a.bytes;
                some_bytes = a.some_bytes;
                at_most = a.at_most;
              })
              st big f h)
            ((handle_read_event-Keeps net stdio fuel session this).at q0
              (selected-IsOwned p (reading timeout p).world q.stale w)))
          (λ d q' ((served, held, quiet), own). (served.0, ((refl, served.1), held, quiet, own))))

  -- Answers wait for a VirusHandler.
  writable-HasServed :
      (h : Handler) (this : ℕ) (m : Message) (ms : List Message) (q : Process W)
      → h.class ≡ virus_handler
      → h.session.resp ≡ []
      → HasServed h this (m ∷ ms) (some tt) q
      → writable (q.objects this) ≡ true
  unfolding writable
  writable-HasServed h this m ms q c none_yet (d, (t, (rs, (start, queued), replies), same)) =
      let waiting : t.resp ≡ rs = queued ∙ ap (λ l. l ++ rs) none_yet in
      rw (same, c, waiting) (not_empty rs replies)
    where
      not_empty :
          (rs : List Hv)
          → Replies (m ∷ ms) rs
          → elim rs as (λ l. Bool) [ [] ↦ false | r ∷ rs' ↦ true ] ≡ true
      not_empty [] r = absurd r
      not_empty (x ∷ xs) r = refl

  some-eq : (o : Option (Unit {0})) → is_some o ≡ true → o ≡ some tt
  some-eq none h = cc
  some-eq (some u) h = refl

  -- What the socket was given, and that no answer waits.
  abbrev pub HasWritten : ℕ → List Message → List ℕ → Process W → Type 0
  HasWritten this ms x q =
      (sent sock q.world ≡ x ++ stream (map ok_reply ms)) × ((q.objects this).session.resp ≡ [])

  pub writes :
      (timeout : ℕ) (p : Process W) (this : ℕ) (m : Message) (ms : List Message) (x : List ℕ)
      (q : Process W)
      → 4 < fuel
      → IsServing p this
      → (p.objects this).sock ≡ sock
      → find sock p.handlers ≡ some this
      → (p.objects this).session.resp ≡ []
      → HasRead p this (m ∷ ms) x q
      → Returns
          (do_select net stdio fuel session timeout q)
          (λ d q'. (d ≡ some tt) × HasWritten this (m ∷ ms) x q')
  writes timeout p this m ms x q g v own f none_yet (served, held, quiet, owned) =
      let h = p.objects this in
      do_select_writes net stdio fuel session k this timeout (HasWritten this (m ∷ ms) x) q owned
        (ap (find sock) held ∙ f) (writable-HasServed h this m ms q v.class none_yet served)
        (duplex.reports _ _ _ timeout q.world quiet.0)
        (λ q2 same.
          let out : sent h.sock q2.world ≡ x =
            ap (sent h.sock) same.world
            ∙ rw own (duplex.select_sends _ _ _ timeout q.world ∙ quiet.1) in
          Returns-map _ (λ d q'. (d ≡ some tt) × HasWritten this (m ∷ ms) x q') _
            (answered net stdio sent all fuel h x this (m ∷ ms) (some tt) q2 g
              (v.class, v.connected, v.accepting) none_yet
              (
                served.0,
                (
                  served.1.0,
                  served.1.1,
                  ap (λ (o : ℕ → Handler). o this) same.objects ∙ served.1.2,
                ),
              )
              out)
            (λ d q' (e, o, empty). (
              some-eq d e,
              (subst (λ s. sent s q'.world ≡ x ++ stream (map ok_reply (m ∷ ms))) own o, empty),
            )))

  -- Over a network that takes all that it is given, on a host that runs out of nothing, with a map that
  -- owns its handlers: the first `select` reports that the socket of a connected VirusHandler can be
  -- read, and the next one that it can be written, and nothing else. Whole requests, of at least 1024
  -- bytes each, have arrived for the handler, which stands before a request and has no answer waiting.
  -- After two rounds of the loop, whatever other handlers there are, its socket has been given exactly one
  -- answer for each request, in order, with the request's id and state OK, and none is left. There is a
  -- turn for each request, and more than four.
  pub rounds-HasWritten :
      (timeout : ℕ) (p : Process W) (this : ℕ) (m : Message) (ms : List Message)
      → IsOwned p
      → find sock p.handlers ≡ some this
      → IsServing p this
      → Reports net stdio fuel session (sock ∷ []) [] [] sock timeout p
      → phase (reading timeout p).world
      → Arrives net (reading timeout p) this (stream (m ∷ ms))
      → IsStart (p.objects this).session.req
      → (p.objects this).session.resp ≡ []
      → AllLarge (m ∷ ms)
      → length ms < fuel
      → 4 < fuel
      → Returns (rounds net stdio fuel session 2 timeout p) (λ d q.
        (d ≡ some tt)
        × (sent sock q.world ≡ sent sock p.world ++ stream (map ok_reply (m ∷ ms)))
        × ((q.objects this).session.resp ≡ []))
  unfolding rounds
  rounds-HasWritten timeout p this m ms w f v reported begun a st none_yet big g l =
      let own : (p.objects this).sock ≡ sock = w.same_sock sock this f in
      let x = sent sock p.world in
      let begun_quiet : Quiet x (reading timeout p).world =
        (begun, duplex.select_sends _ _ _ timeout p.world) in
      rounds-do_select net stdio fuel session k this 1 timeout (HasRead p this (m ∷ ms) x) _ p f
        (do_select_reads net stdio fuel session k this timeout (HasRead p this (m ∷ ms) x) p w f
          reported (λ q same. reads timeout p this m ms x q w v a st big g begun_quiet same))
        (λ q r.
          rounds-do_select net stdio fuel session k this 0 timeout (HasWritten this (m ∷ ms) x) _ q
            (ap (find sock) r.1 ∙ f) (writes timeout p this m ms x q l v own f none_yet r)
            (λ q' h. (refl, h.0, h.1)))
