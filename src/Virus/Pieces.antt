-- ===== src/Virus/Pieces.antt =====
-- A request that arrives in pieces: several calls of `VirusHandler::handle_read` of virus_handler.cpp.
use socket_server.Prelude.{
  ℕ, suc, ◌+◌, ◌^◌, ◌≤◌, ◌<◌, ◌≡◌, refl, ◌⊎◌, inl, inr, Option, none, some, List, [], ◌∷◌, ◌++◌,
  drop_all, length, length-append, append-nil, sym, arith, ℤ, pos, Returns, Returns->>=,
  Returns-map, subst, ◌>>=◌, M, ◌∙◌, ap, pure, ok, >>=-ok, ltb, if◌then◌else◌,
}
use socket_server.Cache.{Stdio, to_mem, to_file}
use socket_server.Cache.Storage.{IsReliable}
use socket_server.Wire.{Header, state_ok}
use socket_server.Wire.Bytes.{length-bytes_of_header}
use socket_server.Hv.{Hv, write, is_complete, default_max_memory_cache}
use socket_server.Hv.Head.{encode, wire, headed}
use socket_server.Hv.Value.{IsPart, IsDone, Received, write-Received}
use socket_server.Hv.Message.{IsStart, Taken, write-Taken, write-head_only, headed-IsPart}
use socket_server.Virus.{Session, answer, written, go_on, read_turn, read_loop}
use socket_server.Virus.Reply.{IsReply}
use socket_server.Virus.Read.{Message, IsLarge, Served, AllServed, answer-Served}

-- The value of `m` has begun to arrive, `n` bytes of it, and the queue is that of `s`.
pub record IsUnderWay (s : Session) (m : Message) (n : ℕ) (t : Session) : Type 0 where
  pub part : IsPart t.req n
  pub same_header : t.req.header ≡ m.header
  pub to_disk : t.req.to ≡ some to_file
  pub same_queue : t.resp ≡ s.resp

-- After `n` bytes of the value: under way, or answered if that is all of it.
abbrev pub After : Session → Message → ℕ → Option Session → Type 0
After s m n none = ⊥
After s m n (some t) =
    ((n < m.header.length) × IsUnderWay s m n t)
    ⊎ ((n ≡ m.header.length) × AllServed s (m ∷ []) (some t))

-- Pieces of a value, and none of them is empty.
abbrev pub joined : List (List ℕ) → List ℕ
joined [] = []
joined (v ∷ vs) = v ++ joined vs

abbrev pub AllPieces : List (List ℕ) → Type 0
AllPieces [] = Unit {0}
AllPieces (v ∷ vs) = (0 < length v) × AllPieces vs

module _ {W : Type 0} (host : Stdio W) (rel : IsReliable host) where
  -- One answer to a whole request.
  answer-After :
      (s t : Session) (m : Message) (w : W)
      → t.req.to ≡ some to_file
      → t.req.header ≡ m.header
      → t.resp ≡ s.resp
      → Returns (answer host t w) (λ u _. AllServed s (m ∷ []) (some u))
  answer-After s t m w d h q =
      Returns-map (λ u _. (r : Hv) × Served t (r ∷ []) u × IsReply t.req.header.id state_ok r) _ _
        (answer-Served host rel t w d)
        (λ u w' (r, served, reply). (
          r ∷ [],
          (served.0, served.1 ∙ ap (λ l. l ++ r ∷ []) q),
          (subst (λ (k : Header). IsReply k.id state_ok r) h reply, tt),
        ))

  -- The end of a turn that took all of its bytes.
  turn-After :
      (loop : Session → List ℕ → M W (Option Session)) (s t : Session) (m : Message) (n k : ℕ)
      (buf : List ℕ) (r : Hv × ℤ) (w : W)
      → t.resp ≡ s.resp
      → r.1 ≡ pos k
      → length buf ≤ k
      → r.0.header ≡ m.header
      → r.0.to ≡ some to_file
      → ((n < m.header.length) × IsPart r.0 n) ⊎ ((n ≡ m.header.length) × IsDone r.0)
      → Returns (read_turn host loop t buf r w) (λ o _. After s m n o)
  unfolding read_turn written go_on is_complete
  turn-After loop s t m n k buf r w q e l h d (inl (lt, part)) =
      simp (e, part.value_open, part.head_done)
        (rw (drop_all k buf l)
          (inl (lt, record { part = part; same_header = h; to_disk = d; same_queue = q })))
  turn-After loop s t m n k buf r w q e l h d (inr (all, done)) =
      simp (e, done.value_done, done.head_done)
        (rw (drop_all k buf l) (
          Returns->>= (answer host (record t { req = r.0 })) (go_on host loop [])
            (λ u _. AllServed s (m ∷ []) (some u)) _ w
            (answer-After s (record t { req = r.0 }) m w d h q) (λ u w' v. inr (all, v))))

  large_to_file :
      (m : Message)
      → IsLarge m
      → some (if ltb m.header.length default_max_memory_cache then to_mem else to_file)
        ≡ some to_file
  large_to_file m big = ground (arith, big.large)

  kept_in_file : (m : Message) (v : Hv) → IsLarge m → (headed v m.header).to ≡ some to_file
  kept_in_file m v big = ground (arith, big.large)

  -- A piece of the value.
  pub piece-After :
      (fuel : ℕ) (s t : Session) (m : Message) (n b : ℕ) (bs : List ℕ) (w : W)
      → IsUnderWay s m n t
      → n + length (b ∷ bs) ≤ m.header.length
      → length (b ∷ bs) < 2 ^ 31
      → Returns (read_loop host (suc fuel) t (b ∷ bs) w) (λ o _. After s m (n + length (b ∷ bs)) o)
  unfolding read_loop
  piece-After fuel s t m n b bs w u fits short =
      let same : t.req.header.length ≡ m.header.length =
        ap (λ (h : Header). h.length) u.same_header in
      Returns->>= (write host t.req (b ∷ bs)) (read_turn host (read_loop host fuel) t (b ∷ bs))
        (λ r _. Received t.req n (length (b ∷ bs)) r) _ w
        (write-Received host rel t.req n b bs w u.part short)
        (λ r w' v.
          turn-After (read_loop host fuel) s t m (n + length (b ∷ bs)) (length (b ∷ bs)) (b ∷ bs) r
            w' u.same_queue (v.count ∙ ap pos (omega (arith, same, fits))) (omega arith)
            (v.same_header ∙ u.same_header) (v.same_storage ∙ u.to_disk)
            (elim v.state [
              | inl (lt, p) ↦ inl (omega (arith, same), p)
              | inr (le, d) ↦ inr (omega (arith, same), d)
            ]))

  -- The piece with the header.
  pub first-After :
      (fuel : ℕ) (s : Session) (m : Message) (v : List ℕ) (w : W)
      → IsStart s.req
      → IsLarge m
      → length v ≤ m.header.length
      → length v < 2 ^ 31
      → Returns
          (read_loop host (suc fuel) s (encode m.header ++ v) w)
          (λ o _. After s m (length v) o)
  unfolding read_loop
  first-After fuel s m [] w st big fits short =
      let buf = encode m.header ++ [] in
      let called : write host s.req buf w ≡ ok ((headed s.req m.header, pos 8), w) =
        rw append-nil (write-head_only host s.req m.header w big.words st) in
      subst (λ r. Returns r (λ o _. After s m 0 o))
        (sym (>>=-ok (write host s.req buf) (read_turn host (read_loop host fuel) s buf) called))
        (turn-After (read_loop host fuel) s s m 0 8 buf (headed s.req m.header, pos 8) w refl refl
          (omega
            (arith, length-append (encode m.header) [], length-bytes_of_header (wire m.header)))
          refl (kept_in_file m s.req big)
          (inl (omega (arith, big.large), headed-IsPart s.req m.header st big.words)))
  first-After fuel s m (b ∷ bs) w st big fits short =
      let buf = encode m.header ++ b ∷ bs in
      Returns->>= (write host s.req buf) (read_turn host (read_loop host fuel) s buf)
        (λ r _. Taken m.header (length (b ∷ bs)) r) _ w
        (write-Taken host rel s.req m.header (b ∷ bs) w big.words st (omega arith) short)
        (λ r w' t.
          turn-After (read_loop host fuel) s s m (length (b ∷ bs)) (8 + length (b ∷ bs)) buf r w'
            refl (t.count ∙ ap pos (omega (arith, fits)))
            (omega (
              arith,
              length-append (encode m.header) (b ∷ bs),
              length-bytes_of_header (wire m.header),
            ))
            t.header_read (t.storage ∙ large_to_file m big)
            (elim t.state [ inl (lt, p) ↦ inl (lt, p) | inr (le, d) ↦ inr (omega arith, d) ]))

  -- The session after reads of `bufs`, one after the other.
  go_with : (Session → M W (Option Session)) → Option Session → M W (Option Session)
  go_with next none = pure none
  go_with next (some t) = next t

  unfoldable pub feed : ℕ → Session → List (List ℕ) → M W (Option Session)
  unfolding go_with
  feed fuel s [] = pure (some s)
  feed fuel s (buf ∷ bufs) = read_loop host fuel s buf >>= go_with (λ t. feed fuel t bufs)

  -- After a piece, with `vs` still to come.
  next-Served :
      (fuel : ℕ) (s : Session) (m : Message) (n : ℕ) (vs : List (List ℕ)) (o : Option Session)
      (w : W)
      → n + length (joined vs) ≡ m.header.length
      → AllPieces vs
      → ((t : Session)
          → IsUnderWay s m n t
          → n < m.header.length
          → Returns (feed fuel t vs w) (λ o' _. AllServed s (m ∷ []) o'))
      → After s m n o
      → Returns (go_with (λ t. feed fuel t vs) o w) (λ o' _. AllServed s (m ∷ []) o')
  unfolding feed
  next-Served fuel s m n vs none w e a go h = absurd h
  next-Served fuel s m n vs (some t) w e a go (inl (lt, u)) = go t u lt
  next-Served fuel s m n [] (some t) w e a go (inr (all, served)) = served
  next-Served fuel s m n (v ∷ vs) (some t) w e a go (inr (all, served)) =
      absurd (omega (arith, length-append v (joined vs), a.0))

  rest-Served :
      (fuel : ℕ) (s t : Session) (m : Message) (n : ℕ) (vs : List (List ℕ)) (w : W)
      → n + length (joined vs) ≡ m.header.length
      → m.header.length < 2 ^ 31
      → AllPieces vs
      → IsUnderWay s m n t
      → n < m.header.length
      → Returns (feed (suc fuel) t vs w) (λ o _. AllServed s (m ∷ []) o)
  unfolding feed
  rest-Served fuel s t m n [] w e k a u lt = absurd (omega arith)
  rest-Served fuel s t m n ([] ∷ vs) w e k a u lt = absurd (omega (arith, a.0))
  rest-Served fuel s t m n ((b ∷ bs) ∷ vs) w e k a u lt =
      let total : n + length (b ∷ bs) + length (joined vs) ≡ m.header.length =
        omega (arith, length-append (b ∷ bs) (joined vs)) in
      Returns->>= (read_loop host (suc fuel) t (b ∷ bs)) (go_with (λ t'. feed (suc fuel) t' vs))
        (λ o _. After s m (n + length (b ∷ bs)) o) _ w
        (piece-After fuel s t m n b bs w u (omega arith) (omega arith))
        (λ o w' h.
          next-Served (suc fuel) s m (n + length (b ∷ bs)) vs o w' total a.1
            (λ t' u' lt'. rest-Served fuel s t' m (n + length (b ∷ bs)) vs w' total k a.1 u' lt') h)

  -- A request of at least 1024 bytes and less than 2 ^ 31, on a host that runs out of nothing, whose
  -- header arrives whole, at once with the beginning of its value or without, and whose value arrives in
  -- any pieces, none of them empty: when the last one has been read, the request has exactly one answer
  -- in the queue, to its id and with state OK, and the session stands before a request again.
  pub feed-Served :
      (fuel : ℕ) (s : Session) (m : Message) (v : List ℕ) (vs : List (List ℕ)) (w : W)
      → IsStart s.req
      → IsLarge m
      → m.header.length < 2 ^ 31
      → m.value ≡ v ++ joined vs
      → AllPieces vs
      → Returns (feed (suc fuel) s ((encode m.header ++ v) ∷ vs) w) (λ o _. AllServed s (m ∷ []) o)
  unfolding feed
  feed-Served fuel s m v vs w st big k e a =
      let total : length v + length (joined vs) ≡ m.header.length =
        omega (arith, length-append v (joined vs), ap length e, big.announced) in
      Returns->>= (read_loop host (suc fuel) s (encode m.header ++ v))
        (go_with (λ t. feed (suc fuel) t vs)) (λ o _. After s m (length v) o) _ w
        (first-After fuel s m v w st big (omega arith) (omega arith))
        (λ o w' h.
          next-Served (suc fuel) s m (length v) vs o w' total a
            (λ t u lt. rest-Served fuel s t m (length v) vs w' total k a u lt) h)
