-- ===== src/Virus/Send.antt =====
-- `VirusHandler::handle_write` of virus_handler.cpp, over a socket that takes all that it is given.
use socket_server.Prelude.{
  ℕ, zero, suc, ◌<◌, ◌≤◌, ◌≡◌, refl, true, false, ltb, Option, none, some, List, [], ◌∷◌, ◌++◌,
  take, drop, length, length-take, length-drop, take-append-drop, append_assoc, append-nil, arith,
  ℤ, pos, Returns, Returns->>=, Returns-map, M, is_some, ap, ◌∙◌, subst,
}
use socket_server.Cache.{Stdio, CachePath, Cache, cache_pop, delete_cache, leave_cache}
use socket_server.Cache.Fifo.{Stream, Holds, get, pop-Holds}
use socket_server.Hv.{Hv}
use socket_server.Hv.Head.{encode, wire}
use socket_server.Hv.Store.{IsReady}
use socket_server.Virus.{send_more, release, send_value, send_held, send_reply, proceed, send_loop}
use socket_server.Virus.Read.{Message, stream}

-- `sent` is what the peer is given. A send takes all of its bytes, and closing and removing files sends nothing.
pub record IsOutlet {W : Type 0} (host : Stdio W) (send : List ℕ → M W ℤ) (sent : W → List ℕ)
    : Type 0 where
  pub send_all :
      (bytes : List ℕ) (w : W) → Returns (send bytes w) (λ r w'. sent w' ≡ sent w ++ bytes)
  pub fclose_keeps : (f : ℕ) (w : W) → sent (host.fclose f w) ≡ sent w
  pub unlink_keeps : (path : CachePath) (w : W) → sent (host.unlink path w) ≡ sent w

-- The queue `rs` holds the messages `ms`.
abbrev pub AllReady : List Message → List Hv → Type 0
AllReady [] [] = Unit {0}
AllReady [] (r ∷ rs) = ⊥
AllReady (m ∷ ms) [] = ⊥
AllReady (m ∷ ms) (r ∷ rs) = IsReady m.header m.value (r, pos 0) × AllReady ms rs

-- The loop ended, and `bytes` went out.
abbrev pub Sent : {W A : Type 0} → (W → List ℕ) → List ℕ → W → Option A → W → Type 0
Sent sent bytes w o w' = (is_some o ≡ true) × (sent w' ≡ sent w ++ bytes)

-- The longest value.
abbrev pub Below : ℕ → List Message → Type 0
Below n [] = Unit {0}
Below n (m ∷ ms) = (length m.value < n) × Below n ms

nil_of_length : (xs : List ℕ) → length xs ≡ 0 → xs ≡ []
nil_of_length [] h = refl
nil_of_length (x ∷ xs) h = absurd (omega arith)

fits_buffer : (n : ℕ) (bytes : List ℕ) → n ≡ length (take 4096 bytes) → ltb 4096 n ≡ false
fits_buffer n bytes e =
    let l : n ≤ 4096 = omega (arith, e, length-take 4096 bytes) in ground (arith, l)

module _ {W : Type 0} (host : Stdio W) (send : List ℕ → M W ℤ) (sent : W → List ℕ)
    (out : IsOutlet host send sent) where
  -- One turn of the inner loop.
  more :
      (n : ℕ) (loop : Cache → M W (Option Cache)) (c : Cache) (bytes : List ℕ) (s : Stream) (w : W)
      → bytes ≡ take 4096 s.pending
      → n ≡ length (take 4096 s.pending)
      → ((k : ℕ)
          → suc k ≡ n
          → (w' : W) → Returns (loop c w') (λ o w''. Sent sent (drop 4096 s.pending) w' o w''))
      → Returns (send_more host send loop c n bytes w) (λ o w'. Sent sent s.pending w o w')
  unfolding send_more
  more zero loop c bytes s w e f next =
      let none_left : s.pending ≡ [] =
        nil_of_length s.pending (omega (arith, length-take 4096 s.pending)) in
      (refl, rw (none_left, append-nil))
  more (suc k) loop c bytes s w e f next = rw (fits_buffer (suc k) s.pending f) (
      Returns->>= (send bytes) _ (λ r w'. sent w' ≡ sent w ++ bytes) _ w (out.send_all bytes w)
        (λ r w' p.
          Returns-map (λ o w''. Sent sent (drop 4096 s.pending) w' o w'') _ _ (next k refl w')
            (λ o w'' q. (
              q.0,
              q.1
                  ∙ rw (p, e)
                      (append_assoc (sent w) (take 4096 s.pending) (drop 4096 s.pending)
                        ∙ ap (λ l. sent w ++ l) (take-append-drop 4096 s.pending)),
            ))))

  send_value-Sent :
      (fuel : ℕ) (c : Cache) (s : Stream) (w : W)
      → Holds c s
      → length s.pending < fuel
      → Returns (send_value host send fuel c w) (λ o w'. Sent sent s.pending w o w')
  unfolding send_value
  send_value-Sent zero c s w h f = absurd (omega arith)
  send_value-Sent (suc fuel) c s w h f =
      Returns->>= (cache_pop host c 4096) _
        (λ r w'.
          Holds r.0 (get 4096 s).0
          × (r.2 ≡ (get 4096 s).1)
          × (r.1 ≡ length (get 4096 s).1)
          × (w' ≡ w))
        _ w (pop-Holds host c s 4096 w h)
        (λ r w' p.
          subst
            (λ w0.
              Returns (send_more host send (send_value host send fuel) r.0 r.1 r.2 w')
                (λ o w''. Sent sent s.pending w0 o w''))
            p.3
            (more r.1 (send_value host send fuel) r.0 r.2 s w' p.1 p.2 (λ n e w''.
              send_value-Sent fuel r.0 (get 4096 s).0 w'' p.0
                (omega (arith, length-drop 4096 s.pending, length-take 4096 s.pending)))))

  release-Sent :
      (o : Option Cache) (w : W)
      → is_some o ≡ true
      → Returns (release host send o w) (λ u w'. (is_some u ≡ true) × (sent w' ≡ sent w))
  unfolding release delete_cache leave_cache
  release-Sent none w e = absurd (cc)
  release-Sent (some c) w e = grind (arith, out.fclose_keeps, out.unlink_keeps)

  send_held-Sent :
      (fuel : ℕ) (c : Cache) (m : Message) (w : W)
      → Holds c (record { room = 0; pending = m.value })
      → length m.value < fuel
      → Returns
          (send_held host send fuel (wire m.header) c w)
          (λ o w'. Sent sent (encode m.header ++ m.value) w o w')
  unfolding send_held
  send_held-Sent fuel c m w h f =
      Returns->>= (send (encode m.header)) _ (λ r w1. sent w1 ≡ sent w ++ encode m.header) _ w
        (out.send_all (encode m.header) w)
        (λ r w1 p.
          Returns->>= (send_value host send fuel c) (release host send)
            (λ o w2. Sent sent m.value w1 o w2) _ w1
            (send_value-Sent fuel c (record { room = 0; pending = m.value }) w1 h f)
            (λ o w2 q.
              Returns-map (λ u w3. (is_some u ≡ true) × (sent w3 ≡ sent w2)) _ _
                (release-Sent o w2 q.0)
                (λ u w3 e.
                  (e.0, e.1 ∙ q.1 ∙ rw p (append_assoc (sent w) (encode m.header) m.value)))))

  value-Sent :
      (fuel : ℕ) (r : Hv) (m : Message) (w : W) (value : Option Cache)
      → r.value ≡ value
      → IsReady m.header m.value (r, pos 0)
      → length m.value < fuel
      → Returns
          (send_reply host send fuel r w)
          (λ o w'. Sent sent (encode m.header ++ m.value) w o w')
  unfolding send_reply
  value-Sent fuel r m w none e h f = absurd (rw e at h.value_of)
  value-Sent fuel r m w (some c) e h f =
      let held : Holds c (record { room = 0; pending = m.value }) = rw e at h.value_of in
      let called : send_reply host send fuel r w ≡ send_held host send fuel (wire m.header) c w =
        ground (arith, h.header_of) in
      rw called (send_held-Sent fuel c m w held f)

  sent-append :
      (m : Message) (ms : List Message) (w w1 w2 : W)
      → sent w1 ≡ sent w ++ (encode m.header ++ m.value)
      → sent w2 ≡ sent w1 ++ stream ms
      → sent w2 ≡ sent w ++ stream (m ∷ ms)
  sent-append m ms w w1 w2 p q =
      q
      ∙ rw p (
          append_assoc (sent w) (encode m.header ++ m.value) (stream ms)
          ∙ ap (λ l. sent w ++ l) (append_assoc (encode m.header) m.value (stream ms)))

  -- A queue of answers that hold their values is sent whole: each header in network order and each
  -- value, in the queue's order, with nothing in between. The loops end if the fuel is above the
  -- length of each value.
  pub send_loop-Sent :
      (fuel : ℕ) (ms : List Message) (rs : List Hv) (w : W)
      → AllReady ms rs
      → Below fuel ms
      → Returns (send_loop host send fuel rs w) (λ o w'. Sent sent (stream ms) w o w')
  unfolding send_loop proceed
  send_loop-Sent fuel [] [] w h b = (refl, rw append-nil)
  send_loop-Sent fuel [] (r ∷ rs) w h b = absurd h
  send_loop-Sent fuel (m ∷ ms) [] w h b = absurd h
  send_loop-Sent fuel (m ∷ ms) (r ∷ rs) w h b =
      Returns->>= (send_reply host send fuel r) (proceed host send (send_loop host send fuel rs))
        (λ o w1. Sent sent (encode m.header ++ m.value) w o w1) _ w
        (value-Sent fuel r m w r.value refl h.0 b.0)
        (continue (λ w1. send_loop-Sent fuel ms rs w1 h.1 b.1))
    where
      continue :
          ((w1 : W)
            → Returns (send_loop host send fuel rs w1) (λ o w2. Sent sent (stream ms) w1 o w2))
          → (o : Option (Unit {0})) (w1 : W) → Sent sent (encode m.header ++ m.value) w o w1
          → Returns
              (proceed host send (send_loop host send fuel rs) o w1)
              (λ u w2. Sent sent (stream (m ∷ ms)) w u w2)
      continue send_rest none w1 p = absurd (cc)
      continue send_rest (some u) w1 p =
          Returns-map (λ v w2. Sent sent (stream ms) w1 v w2) _ _ (send_rest w1)
            (λ v w2 q. (q.0, sent-append m ms w w1 w2 p.1 q.1))
