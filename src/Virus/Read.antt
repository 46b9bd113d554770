-- ===== src/Virus/Read.antt =====
-- The read loop of virus_handler.cpp, on a host that runs out of nothing: a buffer of whole messages.
use socket_server.Prelude.{
  ℕ, zero, suc, ◌+◌, ◌^◌, ◌≤◌, ◌<◌, ◌≡◌, refl, Option, none, some, List, [], ◌∷◌, ◌++◌, drop,
  length, length-append, drop-append, append_assoc, arith, ℤ, Returns, Returns->>=, Returns-map,
  subst, ◌>>=◌, min, M, ◌∙◌,
}
use socket_server.Cache.{Stdio, to_file}
use socket_server.Cache.Storage.{IsReliable}
use socket_server.Wire.{Header, state_ok}
use socket_server.Wire.Bytes.{length-bytes_of_header}
use socket_server.Hv.{Hv, write, clear, is_complete, default_max_memory_cache}
use socket_server.Hv.Head.{encode, wire, IsWord}
use socket_server.Hv.Value.{IsDone}
use socket_server.Hv.Message.{IsStart, Taken, write-Taken}
use socket_server.Hv.Small.{clear-IsStart}
use socket_server.Virus.{Session, request, answer, written, go_on, read_turn, read_loop}
use socket_server.Virus.Reply.{IsReply, Answered, response-Answered}

pub record Message : Type 0 where
  pub header : Header
  pub value : List ℕ

-- A request as a client sends it.
abbrev pub stream : List Message → List ℕ
stream [] = []
stream (m ∷ ms) = encode m.header ++ (m.value ++ stream ms)

-- Its header announces its value, which is long enough to be kept in a file.
pub record IsLarge (m : Message) : Type 0 where
  pub words : IsWord m.header
  pub announced : length m.value ≡ m.header.length
  pub large : default_max_memory_cache ≤ m.header.length

abbrev pub AllLarge : List Message → Type 0
AllLarge [] = Unit {0}
AllLarge (m ∷ ms) = IsLarge m × AllLarge ms

-- One answer for each request, in order, each to its id and with state OK.
abbrev pub Replies : List Message → List Hv → Type 0
Replies [] [] = Unit {0}
Replies [] (r ∷ rs) = ⊥
Replies (m ∷ ms) [] = ⊥
Replies (m ∷ ms) (r ∷ rs) = IsReply m.header.id state_ok r × Replies ms rs

-- The session is ready for the next message, and `rs` was added to its queue.
abbrev pub Served : Session → List Hv → Session → Type 0
Served s rs t = IsStart t.req × (t.resp ≡ s.resp ++ rs)

-- What the loop has to return for the messages `ms`.
abbrev pub AllServed : Session → List Message → Option Session → Type 0
AllServed s ms none = ⊥
AllServed s ms (some t) = (rs : List Hv) × Served s rs t × Replies ms rs

module _ {W : Type 0} (host : Stdio W) (rel : IsReliable host) where
  pub answer-Served :
      (s : Session) (w : W)
      → s.req.to ≡ some to_file
      → Returns
          (answer host s w)
          (λ t _. (r : Hv) × Served s (r ∷ []) t × IsReply s.req.header.id state_ok r)
  unfolding answer request
  answer-Served s w e =
      Returns->>= (clear host s.req) _ (λ m _. IsStart m × (m.header ≡ s.req.header)) _ w
        (clear-IsStart host s.req w e)
        (λ m w' p.
          let s' : Session = record s { req = m; state = some state_ok } in
          Returns-map (λ t _. Answered s' m.header.id state_ok t) _ _
            (response-Answered host rel s' m state_ok w')
            (λ t w'' a. (
              a.reply,
              (rw a.same_req p.0, a.queued),
              subst (λ h. IsReply h.id state_ok a.reply) p.1 a.correct,
            )))

  -- The bytes that a write leaves, and the answer to the message that it completes.
  written-Served :
      (s : Session) (m : Message) (k : ℕ) (r : Hv × ℤ) (w : W)
      → IsLarge m
      → m.header.length ≤ k
      → Taken m.header k r
      → Returns
          (written host (record s { req = r.0 }) w)
          (λ t _. (a : Hv) × Served s (a ∷ []) t × IsReply m.header.id state_ok a)
  unfolding written is_complete
  written-Served s m k r w l h t =
      let done : IsDone r.0 = ground arith in
      let to_disk : r.0.to ≡ some to_file = ground (arith, t.storage) in
      let kept : r.0.header ≡ m.header = t.header_read in
      let called : written host (record s { req = r.0 }) w
          ≡ answer host (record s { req = r.0 }) w =
        ground arith in
      rw called (
        subst
          (λ h.
            Returns (answer host (record s { req = r.0 }) w)
              (λ t _. (a : Hv) × Served s (a ∷ []) t × IsReply h.id state_ok a))
          kept (answer-Served (record s { req = r.0 }) w to_disk))

  drop-message :
      (m : Message) (rest : List ℕ)
      → length m.value ≡ m.header.length
      → drop (8 + m.header.length) (encode m.header ++ (m.value ++ rest)) ≡ rest
  drop-message m rest e = rw (← append_assoc (encode m.header) m.value rest) (
      drop-append (8 + m.header.length) (encode m.header ++ m.value) rest (
        omega
          (arith, length-append (encode m.header) m.value, length-bytes_of_header (wire m.header))))

  drop_taken :
      (m : Message) (rest : List ℕ)
      → length m.value ≡ m.header.length
      → drop
          (8 + min (length (m.value ++ rest)) m.header.length)
          (encode m.header ++ (m.value ++ rest))
        ≡ rest
  drop_taken m rest e =
      let n : min (length (m.value ++ rest)) m.header.length ≡ m.header.length =
        omega (arith, length-append m.value rest) in
      rw n (drop-message m rest e)

  -- One turn of the loop: the first message is answered, and the loop goes on behind it.
  turn-Served :
      (loop : Session → List ℕ → M W (Option Session)) (Q : Option Session → W → Type 0)
      → (s : Session) (m : Message) (rest : List ℕ) (w : W) → IsStart s.req
      → IsLarge m
      → length (m.value ++ rest) < 2 ^ 31
      → ((t : Session) (w' : W) (a : Hv)
          → Served s (a ∷ []) t
          → IsReply m.header.id state_ok a
          → Returns (go_on host loop rest t w') Q)
      → let buf = encode m.header ++ (m.value ++ rest) in
        Returns ((write host s.req buf >>= read_turn host loop s buf) w) Q
  unfolding read_turn
  turn-Served loop Q s m rest w st big short next =
      let buf = encode m.header ++ (m.value ++ rest) in
      Returns->>= (write host s.req buf) (read_turn host loop s buf)
        (λ r _. Taken m.header (length (m.value ++ rest)) r) Q w
        (write-Taken host rel s.req m.header (m.value ++ rest) w big.words st
          (omega (arith, length-append m.value rest)) short)
        (λ r w' t. simp t.count (
          rw (drop_taken m rest big.announced) (
            Returns->>= (written host (record s { req = r.0 })) (go_on host loop rest)
              (λ u _. (a : Hv) × Served s (a ∷ []) u × IsReply m.header.id state_ok a) Q w'
              (written-Served s m (length (m.value ++ rest)) r w' big
                (omega (arith, length-append m.value rest)) t)
              (λ u w'' p. next u w'' p.0 p.1 p.2))))

  go_on-loop :
      (loop : Session → List ℕ → M W (Option Session)) (buf : List ℕ) (s : Session)
      → 0 < length buf
      → go_on host loop buf s ≡ loop s buf
  unfolding go_on
  go_on-loop loop [] s h = absurd (omega arith)
  go_on-loop loop (b ∷ bs) s h = refl

  AllServed-cons :
      (s t : Session) (a : Hv) (m : Message) (ms : List Message) (o : Option Session)
      → Served s (a ∷ []) t
      → IsReply m.header.id state_ok a
      → AllServed t ms o
      → AllServed s (m ∷ ms) o
  AllServed-cons s t a m ms none p q h = h
  AllServed-cons s t a m ms (some u) p q h =
      (a ∷ h.0, (h.1.0, h.1.1 ∙ rw p.1 (append_assoc s.resp (a ∷ []) h.0)), (q, h.2))

  length-rest :
      (m : Message) (rest : List ℕ)
      → length (encode m.header ++ (m.value ++ rest)) ≡ 8 + length (m.value ++ rest)
  length-rest m rest = omega (
    arith,
    length-append (encode m.header) (m.value ++ rest),
    length-bytes_of_header (wire m.header),
  )

  -- `ms` are large messages in one buffer, of less than 2 ^ 31 bytes, read by a session that stands
  -- before a message. With a turn for each of them the loop ends with an answer to each queued in
  -- order, each to its id and with state OK, and stands before a message again. It meets no undefined
  -- behaviour.
  pub read_loop-Served :
      (fuel : ℕ) (s : Session) (m : Message) (ms : List Message) (w : W)
      → IsStart s.req
      → AllLarge (m ∷ ms)
      → length (stream (m ∷ ms)) < 2 ^ 31
      → length ms < fuel
      → Returns (read_loop host fuel s (stream (m ∷ ms)) w) (λ o _. AllServed s (m ∷ ms) o)
  unfolding read_loop go_on
  read_loop-Served zero s m ms w st big short f = absurd (omega arith)
  read_loop-Served (suc fuel) s m [] w st big short f =
      turn-Served (read_loop host fuel) _ s m [] w st big.0 (omega (arith, length-rest m []))
        (λ t w' a p q. (a ∷ [], p, (q, tt)))
  read_loop-Served (suc fuel) s m (m' ∷ ms) w st big short f =
      turn-Served (read_loop host fuel) _ s m (stream (m' ∷ ms)) w st big.0
        (omega (arith, length-rest m (stream (m' ∷ ms))))
        (λ t w' a p q.
          rw
            (go_on-loop (read_loop host fuel) (stream (m' ∷ ms)) t
              (omega (arith, length-rest m' (stream ms))))
            (Returns-map (λ o _. AllServed t (m' ∷ ms) o) _ _
              (read_loop-Served fuel t m' ms w' p.0 big.1
                (omega (
                  arith,
                  length-rest m (stream (m' ∷ ms)),
                  length-append m.value (stream (m' ∷ ms)),
                ))
                (omega arith))
              (λ o w'' h. AllServed-cons s t a m (m' ∷ ms) o p q h)))
