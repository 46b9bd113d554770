-- ===== src/Select/Feed.antt =====
-- Rounds of `loop` in base_socket.cpp: a request comes in over as many rounds as it has pieces, and its
-- answer goes out.
use socket_server.Prelude.{
  ℕ, suc, ◌+◌, ◌^◌, ◌<◌, ◌≡◌, refl, ap, ◌∙◌, inl, inr, Option, none, some, List, [], ◌∷◌, ◌++◌,
  length, length-append, map, arith, ℤ, pos, Returns, Returns-map,
}
use socket_server.Cache.{Stdio}
use socket_server.Cache.Storage.{IsReliable}
use socket_server.Cp.{Net}
use socket_server.Hv.Head.{encode, wire}
use socket_server.Wire.Bytes.{length-bytes_of_header}
use socket_server.Hv.Message.{IsStart}
use socket_server.Virus.{Session}
use socket_server.Virus.Read.{Message, IsLarge, AllServed, stream}
use socket_server.Virus.Pieces.{After, joined, AllPieces, piece-After, first-After}
use socket_server.BaseSocket.{Handler, Process, find, lift_stdio}
use socket_server.BaseSocket.Owned.{IsOwned}
use socket_server.Events.Leave.{IsServing}
use socket_server.Events.Serve.{lift_stdio-IsReliable, OfSome}
use socket_server.Events.Deliver.{TakesAll}
use socket_server.Events.Exchange.{ok_reply}
use socket_server.Select.{rounds}
use socket_server.Select.Due.{rounds-do_select}
use socket_server.Select.Exchange.{IsDuplex, HasWritten, writes}
use socket_server.Select.Piece.{IsFeed, AllShort, Stands, round-Stands}

OfSome-After :
    (s : Session) (m : Message) (n : ℕ) (o : Option Session)
    → After s m n o
    → OfSome (λ t. After s m n (some t)) o
OfSome-After s m n none a = a
OfSome-After s m n (some t) a = a

module _ {W : Type 0} (net : Net W) (stdio : Stdio W) (rel : IsReliable stdio)
    (sent : ℤ → W → List ℕ) (all : TakesAll net stdio sent) (k : ℕ)
    (left : List (List ℕ) → W → Type 0) (feed : IsFeed net stdio (pos (suc k)) left)
    (duplex : IsDuplex net stdio (pos (suc k)) sent (left [])) (fuel : ℕ) (enough : 4 < suc fuel)
    (session : Session) (timeout : ℕ) (m : Message) (short : m.header.length < 2 ^ 31)
    (p : Process W) (this : ℕ) (v : IsServing p this) (own : (p.objects this).sock ≡ pos (suc k))
    (f : find (pos (suc k)) p.handlers ≡ some this) (none_yet : (p.objects this).session.resp ≡ [])
    (x : List ℕ) where
  abbrev client : ℤ
  client = pos (suc k)

  -- The request has its answer, after `x`.
  abbrev Answered : Option (Unit {0}) → Process W → Type 0
  Answered d q =
      (d ≡ some tt)
      × (sent client q.world ≡ x ++ stream (map ok_reply (m ∷ [])))
      × ((q.objects this).session.resp ≡ [])

  -- `n` bytes of the value have come, and `vs` are left.
  abbrev Standing : ℕ → List (List ℕ) → Process W → Type 0
  Standing n vs =
      Stands net stdio rel sent all k left feed duplex (suc fuel) session (p.objects this) this
        p.handlers x vs (λ t. After (p.objects this).session m n (some t))

  -- All of it has come: the answer goes out.
  last-Answered :
      (n : ℕ) (q : Process W)
      → n ≡ m.header.length
      → Standing n [] q
      → Returns (rounds net stdio (suc fuel) session 1 timeout q) Answered
  unfolding rounds
  last-Answered n q e ((t, a, is), held, (l, out), w) =
      let served : AllServed (p.objects this).session (m ∷ []) (some t) = elim a [
        | inl u ↦ absurd (omega (arith, e, u.0))
        | inr s ↦ s.1
      ] in
      rounds-do_select net stdio (suc fuel) session k this 0 timeout
        (HasWritten net stdio rel sent all k (left []) duplex (suc fuel) session this (m ∷ []) x)
        Answered q (ap (find client) held ∙ f)
        (writes net stdio rel sent all k (left []) duplex (suc fuel) session timeout p this m [] x q
          enough v own f none_yet ((refl, (t, served, is)), held, (l, out), w))
        (λ q' h. (refl, h.0, h.1))

  rest-Answered :
      (n : ℕ) (vs : List (List ℕ)) (q : Process W)
      → n + length (joined vs) ≡ m.header.length
      → AllPieces vs
      → AllShort vs
      → Standing n vs q
      → Returns (rounds net stdio (suc fuel) session (suc (length vs)) timeout q) Answered
  rest-Answered n [] q e a b h = last-Answered n q (omega (arith, e)) h
  rest-Answered n ([] ∷ vs) q e a b h = absurd (omega (arith, a.0))
  rest-Answered n ((c ∷ cs) ∷ vs) q e a b ((t, after, is), held, waits, w) =
      let total : n + length (c ∷ cs) + length (joined vs) ≡ m.header.length =
        omega (arith, e, length-append (c ∷ cs) (joined vs)) in
      let s = (p.objects this).session in
      rounds-do_select net stdio (suc fuel) session k this (suc (length vs)) timeout
        (Standing (n + length (c ∷ cs)) vs) Answered q (ap (find client) held ∙ f)
        (round-Stands net stdio rel sent all k left feed duplex (suc fuel) session (p.objects this)
          this p.handlers x timeout (c ∷ cs) vs (λ t'. After s m (n + length (c ∷ cs)) (some t')) t
          q w
          (record {
            class = ap (λ (o : Handler). o.class) is ∙ v.class;
            connected = ap (λ (o : Handler). o.connected) is ∙ v.connected;
            accepting = ap (λ (o : Handler). o.accepting) is ∙ v.accepting;
          })
          (ap (find client) held ∙ f) held is waits (omega arith) b.0
          (λ p'.
            Returns-map (λ o w'. After s m (n + length (c ∷ cs)) o)
              (λ o w'. OfSome (λ t'. After s m (n + length (c ∷ cs)) (some t')) o) _
              (elim after [
                | inl u ↦
                    piece-After (lift_stdio stdio) (lift_stdio-IsReliable stdio rel) fuel s t m n c
                      cs p' u.1 (omega (arith, total)) (omega (arith, total, short))
                | inr u ↦ absurd (omega (arith, total, u.0))
              ])
              (λ o w' h. OfSome-After s m (n + length (c ∷ cs)) o h)))
        (λ q' h. rest-Answered (n + length (c ∷ cs)) vs q' total a.1 b.1 h)

  -- Over a network that takes all that it is given, on a host that runs out of nothing, with a map that
  -- owns its handlers: a request of at least 1024 and less than 2 ^ 31 bytes comes in for a connected
  -- VirusHandler that stands before a request and has no answer waiting, its header whole in the first
  -- piece, its value in any pieces that are not empty, a piece for each round, in which `select` reports
  -- the socket to be read and nothing else; then it reports that it can be written. With one round more
  -- than pieces, whatever other handlers there are, the loop has given the socket exactly one answer,
  -- with the request's id and state OK, and none is left. There are more than four turns.
  pub rounds-HasFed :
      (piece : List ℕ) (vs : List (List ℕ))
      → IsOwned p
      → IsStart (p.objects this).session.req
      → IsLarge m
      → m.value ≡ piece ++ joined vs
      → AllPieces vs
      → AllShort ((encode m.header ++ piece) ∷ vs)
      → left ((encode m.header ++ piece) ∷ vs) p.world
      → sent client p.world ≡ x
      → Returns (rounds net stdio (suc fuel) session (suc (suc (length vs))) timeout p) Answered
  rounds-HasFed piece vs w st big e a b l out =
      let total : length piece + length (joined vs) ≡ m.header.length =
        omega (arith, length-append piece (joined vs), ap length e, big.announced) in
      let s = (p.objects this).session in
      rounds-do_select net stdio (suc fuel) session k this (suc (length vs)) timeout
        (Standing (length piece) vs) Answered p f
        (round-Stands net stdio rel sent all k left feed duplex (suc fuel) session (p.objects this)
          this p.handlers x timeout (encode m.header ++ piece) vs
          (λ t. After s m (length piece) (some t)) s p w v f refl refl (l, out)
          (omega
            (arith, length-append (encode m.header) piece, length-bytes_of_header (wire m.header)))
          b.0
          (λ p'.
            Returns-map (λ o w'. After s m (length piece) o)
              (λ o w'. OfSome (λ t. After s m (length piece) (some t)) o) _
              (first-After (lift_stdio stdio) (lift_stdio-IsReliable stdio rel) fuel s m piece p' st
                big (omega (arith, total)) (omega (arith, total, short)))
              (λ o w' h. OfSome-After s m (length piece) o h)))
        (λ q h. rest-Answered (length piece) vs q total a b.1 h)
