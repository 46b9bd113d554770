-- ===== src/Virus/Stuck.antt =====
-- Where the read loop of virus_handler.cpp does not do what it means to: on a full disk it never ends,
-- and behind a small message it takes a value for a header.
use socket_server.Prelude.{
  ℕ, zero, suc, ◌+◌, ◌^◌, ◌<◌, ◌≡◌, refl, true, false, Option, none, some, List, [], ◌∷◌, ◌++◌,
  drop, length, length-append, drop-append, drop_all, arith, ℤ, pos, Returns, Returns->>=,
  Returns-map, Returns-value, >>=-ok, Result, M, is_some, ◌∙◌, subst,
}
use socket_server.Cache.{Stdio, Cache, to_mem}
use socket_server.Cache.Storage.{IsReliable}
use socket_server.Wire.{Header, state_ok}
use socket_server.Wire.Bytes.{length-bytes_of_header}
use socket_server.Hv.{Hv, write, clear, is_complete, default_max_memory_cache}
use socket_server.Hv.Head.{encode, wire, IsWord}
use socket_server.Hv.Value.{IsDone}
use socket_server.Hv.Message.{IsStart, Taken, write-Taken}
use socket_server.Hv.Small.{IsStale, clear-IsDone, clear_resets, write-IsStale}
use socket_server.Hv.Full.{IsFull, IsWaiting, write-IsWaiting}
use socket_server.Virus.{Session, request, answer, written, go_on, read_turn, read_loop}
use socket_server.Virus.Reply.{IsReply, Answered, response-Answered}

module _ {W : Type 0} (host : Stdio W) (full : IsFull host) where
  -- On a full disk the loop never ends, once a request's file is there and not filled: whatever the
  -- fuel and the bytes that were read, it runs out.
  pub read_loop-IsFull :
      (fuel : ℕ) (s : Session) (c : Cache) (n b : ℕ) (bs : List ℕ) (w : W)
      → IsWaiting s.req c n
      → Returns (read_loop host fuel s (b ∷ bs) w) (λ o _. o ≡ none)
  unfolding read_loop read_turn written go_on
  read_loop-IsFull zero s c n b bs w v = refl
  read_loop-IsFull (suc fuel) s c n b bs w v =
      Returns->>= (write host s.req (b ∷ bs)) (read_turn host (read_loop host fuel) s (b ∷ bs))
        (λ r _. (r.1 ≡ pos 0) × (is_complete r.0 ≡ false) × ((c' : Cache) × IsWaiting r.0 c' n)) _ w
        (write-IsWaiting host full s.req c n b bs w v)
        (λ r w' p.
          simp (p.0, p.1) (read_loop-IsFull fuel (record s { req = r.0 }) p.2.0 n b bs w' p.2.1))

-- Ready for the next header, with one more answer to the request `id`.
pub record AnsweredTo (s : Session) (id : ℕ) (t : Session) : Type 0 where
  pub reply : Hv
  pub queued : t.resp ≡ s.resp ++ reply ∷ []
  pub correct : IsReply id state_ok reply
  pub no_head : t.req.hlen ≡ 0
  pub head_open : t.req.head_complete ≡ false

-- It is about the queue only.
AnsweredTo-queue :
    (s s' : Session) (id : ℕ) (t : Session)
    → s.resp ≡ s'.resp
    → AnsweredTo s id t
    → AnsweredTo s' id t
AnsweredTo-queue s s' id t e a = record {
  reply = a.reply;
  queued = rw (← e) a.queued;
  correct = a.correct;
  no_head = a.no_head;
  head_open = a.head_open;
}

-- What the loop has to return for a small message.
abbrev pub LeftStale : Session → ℕ → Option Session → Type 0
LeftStale s id none = ⊥
LeftStale s id (some t) = ((c : Cache) × IsStale t.req c) × AnsweredTo s id t

module _ {W : Type 0} (host : Stdio W) (rel : IsReliable host) where
  answer-AnsweredTo :
      (s : Session) (h : Header) (w : W)
      → s.req.header ≡ h
      → is_some s.req.to ≡ true
      → Returns (answer host s w) (λ t _. AnsweredTo s h.id t)
  unfolding answer request
  answer-AnsweredTo s h w e f =
      Returns->>= (clear host s.req) _
        (λ m _. (m.hlen ≡ 0) × (m.head_complete ≡ false) × (m.header ≡ s.req.header)) _ w
        (clear_resets host s.req w f)
        (λ m w' p.
          let s' : Session = record s { req = m; state = some state_ok } in
          Returns-map (λ t _. Answered s' m.header.id state_ok t) _ _
            (response-Answered host rel s' m state_ok w')
            (λ t w'' a. record {
              reply = a.reply;
              queued = a.queued;
              correct = subst (λ k. IsReply k.id state_ok a.reply) (p.2 ∙ e) a.correct;
              no_head = rw a.same_req p.0;
              head_open = rw a.same_req p.1;
            }))

  Next : ℕ → Session → Header → List ℕ → W → Result (Option Session × W) → Type 0
  Next fuel s h rest w r =
      (t : Session) × (w' : W) × (r ≡ read_loop host fuel t rest w') × AnsweredTo s h.id t

  stale_turn :
      (fuel : ℕ) (s : Session) (h : Header) (b : ℕ) (bs : List ℕ) (r : Hv × ℤ) (w : W)
      → r.1 ≡ pos 8
      → is_complete r.0 ≡ true
      → r.0.header ≡ h
      → is_some r.0.to ≡ true
      → Next fuel s h (b ∷ bs) w (read_turn host (read_loop host fuel) s (encode h ++ b ∷ bs) r w)
  unfolding read_turn written go_on Next
  stale_turn fuel s h b bs r w e f g k =
      let (t, w', q, a) =
        Returns-value (λ t _. AnsweredTo (record s { req = r.0 }) h.id t)
          (answer host (record s { req = r.0 }) w)
          (answer-AnsweredTo (record s { req = r.0 }) h w g k) in
      let behind : drop 8 (encode h ++ b ∷ bs) ≡ b ∷ bs =
        drop-append 8 (encode h) (b ∷ bs) (length-bytes_of_header (wire h)) in
      (
        t,
        w',
        simp (e, f)
            (rw behind (
              >>=-ok (answer host (record s { req = r.0 }))
                (go_on host (read_loop host fuel) (b ∷ bs)) q)),
        AnsweredTo-queue (record s { req = r.0 }) s h.id t refl a,
      )

  -- A message, of whatever length, that reaches a session which still holds the cache of a small one:
  -- it is answered with state OK after its header, and the loop takes the bytes of its value for the
  -- next header.
  pub read_loop-IsStale :
      (fuel : ℕ) (s : Session) (c : Cache) (h : Header) (b : ℕ) (bs : List ℕ) (w : W)
      → IsWord h
      → IsStale s.req c
      → length (b ∷ bs) < 2 ^ 31
      → (t : Session) × (w' : W) × (read_loop host (suc fuel) s (encode h ++ b ∷ bs) w
          ≡ read_loop host fuel t (b ∷ bs) w')
        × AnsweredTo s h.id t
  unfolding read_loop Next
  read_loop-IsStale fuel s c h b bs w p v l =
      let (r, w1, q, a) =
        Returns-value _ (write host s.req (encode h ++ b ∷ bs) w)
          (write-IsStale host rel s.req c h b bs w p v l) in
      let (t, w2, e, k) = stale_turn fuel s h b bs r w1 a.0 a.1 a.2 a.3 in
      (
        t,
        w2,
        >>=-ok (write host s.req (encode h ++ b ∷ bs))
              (read_turn host (read_loop host fuel) s (encode h ++ b ∷ bs)) q
            ∙ e,
        k,
      )

  answer-LeftStale :
      (s : Session) (h : Header) (w : W)
      → IsDone s.req
      → s.req.to ≡ some to_mem
      → s.req.header ≡ h
      → 0 < h.length
      → h.length < 2 ^ 32
      → Returns (answer host s w) (λ t _. LeftStale s h.id (some t))
  unfolding answer request
  answer-LeftStale s h w d e f p q =
      Returns->>= (clear host s.req) _
        (λ m _. ((c : Cache) × IsStale m c) × (m.header ≡ s.req.header)) _ w
        (clear-IsDone host s.req w e d (ground arith) (ground arith))
        (λ m w' v.
          let s' : Session = record s { req = m; state = some state_ok } in
          Returns-map (λ t _. Answered s' m.header.id state_ok t) _ _
            (response-Answered host rel s' m state_ok w')
            (λ t w'' a. (
              (v.0.0, rw a.same_req v.0.1),
              record {
                reply = a.reply;
                queued = a.queued;
                correct = subst (λ k. IsReply k.id state_ok a.reply) (v.1 ∙ f) a.correct;
                no_head = rw a.same_req v.0.1.no_head;
                head_open = rw a.same_req v.0.1.head_open;
              },
            )))

  small_turn :
      (loop : Session → List ℕ → M W (Option Session)) (s : Session) (h : Header) (value : List ℕ)
      (r : Hv × ℤ) (w : W)
      → 0 < h.length
      → h.length < default_max_memory_cache
      → length value ≡ h.length
      → Taken h (length value) r
      → Returns (read_turn host loop s (encode h ++ value) r w) (λ o _. LeftStale s h.id o)
  unfolding read_turn written go_on is_complete
  small_turn loop s h value r w p q e t =
      let count : r.1 ≡ pos (8 + h.length) = ground arith in
      let done : IsDone r.0 = ground arith in
      let to_memory : r.0.to ≡ some to_mem = ground (arith, t.storage) in
      let behind : drop (8 + h.length) (encode h ++ value) ≡ [] =
        drop_all (8 + h.length) (encode h ++ value)
          (omega (arith, length-append (encode h) value, length-bytes_of_header (wire h))) in
      simp (count, done.head_done, done.value_done)
        (rw behind (
          Returns->>= (answer host (record s { req = r.0 })) (go_on host loop [])
            (λ u _. LeftStale s h.id (some u)) _ w
            (Returns-map (λ u _. LeftStale (record s { req = r.0 }) h.id (some u)) _ _
              (answer-LeftStale (record s { req = r.0 }) h w done to_memory t.header_read p
                (omega arith))
              (λ u w' v. (v.0, AnsweredTo-queue (record s { req = r.0 }) s h.id u refl v.1)))
            (λ u w' v. v)))

  -- A message whose value has at least one byte and less than 1024, read whole by a session that
  -- stands before a message, is answered, and leaves its full cache behind.
  pub read_loop-LeftStale :
      (fuel : ℕ) (s : Session) (h : Header) (value : List ℕ) (w : W)
      → IsWord h
      → IsStart s.req
      → 0 < h.length
      → h.length < default_max_memory_cache
      → length value ≡ h.length
      → Returns (read_loop host (suc fuel) s (encode h ++ value) w) (λ o _. LeftStale s h.id o)
  unfolding read_loop
  read_loop-LeftStale fuel s h value w p st l k e =
      Returns->>= (write host s.req (encode h ++ value))
        (read_turn host (read_loop host fuel) s (encode h ++ value))
        (λ r _. Taken h (length value) r) _ w
        (write-Taken host rel s.req h value w p st (omega arith) (omega arith))
        (λ r w' t. small_turn (read_loop host fuel) s h value r w' l k e t)
