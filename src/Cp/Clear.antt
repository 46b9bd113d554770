-- ===== src/Cp/Clear.antt =====
-- `cp_clear_recv_buffer` of cp_socket.cpp, which nothing calls.
use socket_server.Prelude.{
  ℕ, zero, suc, ◌-◌, ◌<◌, ◌≡◌, ◌⊎◌, inl, inr, refl, ◌∙◌, Bool, true, false, Option, some, none,
  List, [], ◌∷◌, ◌||◌, ◌==ℤ◌, if◌then◌else◌, ℤ, pos, M, pure, call, ◌>>=◌, ◌>>◌, Returns, min,
  arith,
}
use socket_server.Cp.{Net, socket_error, is_set}

module _ {W : Type 0} (net : Net W) where
  -- One hundred bytes, if the socket is in the set.
  unfoldable pub drain : ℤ → Bool → M W (Unit {0})
  drain sock false = pure tt
  drain sock true = call (net.recv sock 100 0) >>= λ r. pure tt

  -- The body of the loop after `select`; `next` is the loop.
  unfoldable pub clear_turn :
      M W (Option (Unit {0})) → ℤ → ℤ × List ℤ × List ℤ × List ℤ → M W (Option (Unit {0}))
  unfolding drain
  clear_turn next sock r =
      if (r.0 ==ℤ pos 0) || (r.0 ==ℤ socket_error)
      then pure (some tt)
      else drain sock (is_set sock r.1) >> next

  -- `none` means that the fuel ran out.
  unfoldable pub cp_clear_recv_buffer : ℕ → ℤ → M W (Option (Unit {0}))
  unfolding clear_turn
  cp_clear_recv_buffer zero sock = pure none
  cp_clear_recv_buffer (suc fuel) sock =
      call (net.select (sock ∷ []) [] [] 0) >>= clear_turn (cp_clear_recv_buffer fuel sock) sock

-- `waiting` is how many bytes can be received: `select` is 0 exactly where there are none, and has the
-- socket in its set where there are some, and a receive takes as many as it may.
pub record IsQueue {W : Type 0} (net : Net W) (sock : ℤ) (waiting : W → ℕ) : Type 0 where
  pub empty : (w : W) → waiting w ≡ 0 → (net.select (sock ∷ []) [] [] 0 w).0.0 ≡ pos 0
  pub ready : (w : W) → 0 < waiting w → (net.select (sock ∷ []) [] [] 0 w).0.0 ≡ pos 1
  pub member : (w : W) → 0 < waiting w → is_set sock (net.select (sock ∷ []) [] [] 0 w).0.1 ≡ true
  pub looks : (w : W) → waiting (net.select (sock ∷ []) [] [] 0 w).1 ≡ waiting w
  pub takes : (w : W) → waiting (net.recv sock 100 0 w).1 ≡ waiting w - min 100 (waiting w)

-- The peer has closed: `select` always has the socket ready to be read.
pub record IsClosed {W : Type 0} (net : Net W) (sock : ℤ) : Type 0 where
  pub ready : (w : W) → (net.select (sock ∷ []) [] [] 0 w).0.0 ≡ pos 1

zero_or_more : (n : ℕ) → (n ≡ 0) ⊎ (0 < n)
zero_or_more zero = inl refl
zero_or_more (suc n) = inr (omega arith)

module _ {W : Type 0} (net : Net W) (sock : ℤ) where
  -- Of a socket on which bytes wait, the loop ends, within one turn more than there are bytes, and no
  -- byte waits then.
  pub cp_clear_recv_buffer-empty :
      (waiting : W → ℕ)
      → IsQueue net sock waiting
      → (fuel : ℕ) (w : W) → waiting w < fuel
      → Returns (cp_clear_recv_buffer net fuel sock w) (λ o w'. (o ≡ some tt) × (waiting w' ≡ 0))
  unfolding cp_clear_recv_buffer clear_turn drain
  cp_clear_recv_buffer-empty waiting q zero w f = absurd (omega arith)
  cp_clear_recv_buffer-empty waiting q (suc fuel) w f = elim (zero_or_more (waiting w)) [
    | inl e ↦ rw (q.empty w e) (refl, q.looks w ∙ e)
    | inr h ↦
        let s = net.select (sock ∷ []) [] [] 0 w in
        rw (q.ready w h, q.member w h)
          (cp_clear_recv_buffer-empty waiting q fuel (net.recv sock 100 0 s.1).1
            (omega (arith, q.takes s.1, q.looks w)))
  ]

  -- Of a socket whose peer has closed, the loop never ends.
  pub cp_clear_recv_buffer-IsClosed :
      IsClosed net sock
      → (fuel : ℕ) (w : W) → Returns (cp_clear_recv_buffer net fuel sock w) (λ o w'. o ≡ none)
  unfolding cp_clear_recv_buffer clear_turn drain
  cp_clear_recv_buffer-IsClosed q zero w = refl
  cp_clear_recv_buffer-IsClosed q (suc fuel) w =
      let s = net.select (sock ∷ []) [] [] 0 w in
      rw (q.ready w)
        (elim (is_set sock s.0.1)
          as (λ b.
            Returns ((drain net sock b >> cp_clear_recv_buffer net fuel sock) s.1)
              (λ o w'. o ≡ none)) [
                | true ↦ cp_clear_recv_buffer-IsClosed q fuel (net.recv sock 100 0 s.1).1
                | false ↦ cp_clear_recv_buffer-IsClosed q fuel s.1
              ])
