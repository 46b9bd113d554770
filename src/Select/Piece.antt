-- ===== src/Select/Piece.antt =====
-- A round of `loop` in base_socket.cpp in which a piece of a request comes in.
use socket_server.Prelude.{
  ℕ, suc, ◌≤◌, ◌<◌, ◌≡◌, refl, sym, ap, ◌∙◌, subst, some, List, [], ◌∷◌, length, ℤ, pos, Returns,
  Returns-map, Returns-IfOk,
}
use socket_server.Cache.{Stdio}
use socket_server.Cache.Frame.{HostKeeps, HostKeeps-both}
use socket_server.Cache.Storage.{IsReliable}
use socket_server.Cp.{Net}
use socket_server.Virus.{Session, read_loop}
use socket_server.BaseSocket.{Handler, Process, find, lift_stdio}
use socket_server.BaseSocket.Owned.{IsOwned}
use socket_server.Events.{handle_read_event}
use socket_server.Events.Frame.{handle_read_event-Keeps}
use socket_server.Events.Leave.{IsServing}
use socket_server.Events.Serve.{HasBecome, OfSome, handle_read_event-HasBecome}
use socket_server.Events.Deliver.{TakesAll}
use socket_server.Select.{do_select, watch_all}
use socket_server.Select.Round.{selected}
use socket_server.Select.Due.{stale-eq, do_select_reads}
use socket_server.Select.Exchange.{IsDuplex}

-- `left bufs` is the state of the system in which the next rounds of `select` report, one after the
-- other, that the socket can be read, and nothing else, and each of these pieces is then received.
pub record IsFeed {W : Type 0} (net : Net W) (stdio : Stdio W) (sock : ℤ)
    (left : List (List ℕ) → W → Type 0) : Type 0 where
  pub reports :
      (buf : List ℕ) (bufs : List (List ℕ)) (r w e : List ℤ) (timeout : ℕ) (v : W)
      → left (buf ∷ bufs) v
      → (net.select r w e timeout v).0 ≡ (pos 1, sock ∷ [], [], [])
  pub arrives :
      (buf : List ℕ) (bufs : List (List ℕ)) (r w e : List ℤ) (timeout : ℕ) (v : W)
      → left (buf ∷ bufs) v
      → (net.recv sock 65535 0 (net.select r w e timeout v).1).0 ≡ (pos (length buf), buf)
  pub goes_on :
      (buf : List ℕ) (bufs : List (List ℕ)) (r w e : List ℤ) (timeout : ℕ) (v : W)
      → left (buf ∷ bufs) v
      → left bufs (net.select r w e timeout v).1
  pub recv_keeps :
      (bufs : List (List ℕ)) (s : ℤ) (n flags : ℕ) (v : W)
      → left bufs v
      → left bufs (net.recv s n flags v).1
  pub library_keeps : (bufs : List (List ℕ)) → HostKeeps stdio (left bufs)

-- No piece is longer than the buffer of a receive.
abbrev pub AllShort : List (List ℕ) → Type 0
AllShort [] = Unit {0}
AllShort (v ∷ vs) = (length v ≤ 65535) × AllShort vs

module _ {W : Type 0} (net : Net W) (stdio : Stdio W) (rel : IsReliable stdio)
    (sent : ℤ → W → List ℕ) (all : TakesAll net stdio sent) (k : ℕ)
    (left : List (List ℕ) → W → Type 0) (feed : IsFeed net stdio (pos (suc k)) left)
    (duplex : IsDuplex net stdio (pos (suc k)) sent (left [])) (fuel : ℕ) (session : Session)
    (h : Handler) (this : ℕ) (hs : List (ℤ × ℕ)) (x : List ℕ) where
  abbrev sock : ℤ
  sock = pos (suc k)

  -- These pieces are left, and `x` is what was sent.
  abbrev pub Waits : List (List ℕ) → W → Type 0
  Waits bufs w = left bufs w × (sent sock w ≡ x)

  -- The handler is `h` but for its session, of which `Post` holds.
  abbrev pub Stands : List (List ℕ) → (Session → Type 0) → Process W → Type 0
  Stands bufs Post q =
      ((t : Session) × Post t × (q.objects this ≡ record h { session = t }))
      × (q.handlers ≡ hs)
      × Waits bufs q.world
      × IsOwned q

  -- A round that receives the next piece.
  pub round-Stands :
      (timeout : ℕ) (buf : List ℕ) (bufs : List (List ℕ)) (Post : Session → Type 0) (t : Session)
      (q : Process W)
      → IsOwned q
      → IsServing q this
      → find sock q.handlers ≡ some this
      → q.handlers ≡ hs
      → q.objects this ≡ record h { session = t }
      → Waits (buf ∷ bufs) q.world
      → 0 < length buf
      → length buf ≤ 65535
      → ((p : Process W)
          → Returns (read_loop (lift_stdio stdio) fuel t buf p) (λ s _. OfSome Post s))
      → Returns
          (do_select net stdio fuel session timeout q)
          (λ d q'. (d ≡ some tt) × Stands bufs Post q')
  round-Stands timeout buf bufs Post t q w v f m is (l, out) some_bytes at_most does =
      let own : (q.objects this).sock ≡ sock = w.same_sock sock this f in
      let sets = watch_all q.objects q.handlers in
      let begun = selected net stdio fuel session (sock ∷ []) [] [] sock timeout q in
      let came = feed.arrives buf bufs sets.r sets.w sets.e timeout q.world l in
      do_select_reads net stdio fuel session k this timeout (Stands bufs Post) q w f
        (feed.reports buf bufs sets.r sets.w sets.e timeout q.world l)
        (λ q1 same.
          let q0 : Process W = record begun { stale = q1.stale } in
          subst
            (λ q.
              Returns (handle_read_event net stdio fuel session this q)
                (λ d q'. (d ≡ some tt) × Stands bufs Post q'))
            (sym (stale-eq net stdio fuel session k this begun q1 same))
            (Returns-map
              (λ d q'.
                (HasBecome (q.objects this) this Post d q'
                  × (q'.handlers ≡ q.handlers)
                  × Waits bufs q'.world)
                × IsOwned q')
              (λ d q'. (d ≡ some tt) × Stands bufs Post q') _
              (Returns-IfOk
                (λ d q'.
                  HasBecome (q.objects this) this Post d q'
                  × (q'.handlers ≡ q.handlers)
                  × Waits bufs q'.world)
                (λ d. IsOwned) _
                (handle_read_event-HasBecome net stdio rel (Waits bufs)
                  (record {
                    recv = λ s n flags w h. (
                      feed.recv_keeps bufs s n flags w h.0,
                      duplex.recv_sends s sock n flags w ∙ h.1,
                    );
                    library =
                        HostKeeps-both stdio (feed.library_keeps bufs) (all.library_keeps sock x);
                  })
                  fuel Post session q0 this buf
                  (record { class = v.class; connected = v.connected; accepting = v.accepting })
                  (record {
                    count = rw (own, came) refl;
                    bytes = rw (own, came) refl;
                    some_bytes = some_bytes;
                    at_most = at_most;
                  })
                  (λ p.
                    subst
                      (λ (o : Handler).
                        Returns (read_loop (lift_stdio stdio) fuel o.session buf p)
                          (λ s _. OfSome Post s))
                      (sym is) (does p))
                  (
                    feed.goes_on buf bufs sets.r sets.w sets.e timeout q.world l,
                    duplex.select_sends _ _ _ timeout q.world ∙ out,
                  ))
                ((handle_read_event-Keeps net stdio fuel session this).at q0 (record {
                  one_entry = w.one_entry;
                  alive = w.alive;
                  same_sock = w.same_sock;
                  allocated = w.allocated;
                })))
              (λ d q' (((e, (t', post, o)), held, waits), owned). (
                e,
                (
                  (t', post, o ∙ ap (λ (i : Handler). record i { session = t' }) is),
                  held ∙ m,
                  waits,
                  owned,
                ),
              ))))
