-- ===== src/Cp/SendAll.antt =====
-- `cp_send_all` of cp_socket.cpp.
use socket_server.Prelude.{
  ℕ, zero, suc, ◌+◌, ◌≤◌, ◌<◌, ◌≡◌, refl, ◌⊎◌, inl, inr, Option, some, List, [], ◌∷◌, ◌++◌, take,
  drop, length, length-drop, take-append-drop, append_assoc, append-nil, arith, ℤ, pos, negsuc,
  minus_one, Returns, Returns-map, M, subst, sym, ap, ◌∙◌,
}
use socket_server.Cp.{Net, send_rest, send_turn, send_left, cp_send_all}

-- What one `send` of `bytes` has done: it took some of the bytes from the front, or none.
abbrev pub Took : {W : Type 0} → (W → List ℕ) → List ℕ → W → ℤ × W → Type 0
Took sent bytes w (pos n, w') = (n ≤ length bytes) × (sent w' ≡ sent w ++ take n bytes)
Took sent bytes w (negsuc n, w') = sent w' ≡ sent w

-- `sent` is what the peer of a socket is given.
pub record IsPipe {W : Type 0} (net : Net W) (sock : ℤ) (sent : W → List ℕ) : Type 0 where
  pub takes : (bytes : List ℕ) (flags : ℕ) (w : W) → Took sent bytes w (net.send sock bytes flags w)

-- All of `bytes` went out and `len` is returned, or fewer did and 0 or -1 is.
abbrev pub Delivered : {W : Type 0} → (W → List ℕ) → ℕ → List ℕ → W → Option ℤ → W → Type 0
Delivered sent len bytes w o w' =
    ((o ≡ some (pos len)) × (sent w' ≡ sent w ++ bytes))
    ⊎ (((o ≡ some (pos 0)) ⊎ (o ≡ some minus_one))
        × ((k : ℕ) × (k < length bytes) × (sent w' ≡ sent w ++ take k bytes)))

take-add : (m k n : ℕ) (xs : List ℕ) → m + k ≡ n → take m xs ++ take k (drop m xs) ≡ take n xs
take-add zero k n xs e = ap (λ j. take j xs) (omega arith)
take-add (suc m) k zero xs e = absurd (omega arith)
take-add (suc m) zero (suc n) [] e = refl
take-add (suc m) (suc k) (suc n) [] e = refl
take-add (suc m) k (suc n) (x ∷ xs) e = ap (λ l. x ∷ l) (take-add m k n xs (omega arith))

module _ {W : Type 0} (net : Net W) (sock : ℤ) (sent : W → List ℕ)
    (pipe : IsPipe net sock sent) where
  Delivered-later :
      (len m : ℕ) (left : List ℕ) (w w1 : W) (o : Option ℤ) (w2 : W)
      → sent w1 ≡ sent w ++ take m left
      → m ≤ length left
      → Delivered sent len (drop m left) w1 o w2
      → Delivered sent len left w o w2
  Delivered-later len m left w w1 o w2 e l (inl (p, q)) = inl (
    p,
    q
        ∙ rw e (
            append_assoc (sent w) (take m left) (drop m left)
            ∙ ap (λ x. sent w ++ x) (take-append-drop m left)),
  )
  Delivered-later len m left w w1 o w2 e l (inr (p, (k, lt, q))) = inr (
    p,
    (
      m + k,
      omega (arith, length-drop m left),
      q
          ∙ rw e (
              append_assoc (sent w) (take m left) (take k (drop m left))
              ∙ ap (λ x. sent w ++ x) (take-add m k (m + k) left refl)),
    ),
  )

  -- The test of the loop, with `more` left of `left` after `m` bytes.
  rest-Delivered :
      (next : List ℕ → M W (Option ℤ)) (more left : List ℕ) (len m : ℕ) (w w1 : W)
      → drop m left ≡ more
      → Took sent left w (pos m, w1)
      → ((c : ℕ) (cs : List ℕ)
          → drop m left ≡ c ∷ cs
          → Returns (next (c ∷ cs) w1) (λ o w2. Delivered sent len (c ∷ cs) w1 o w2))
      → Returns (send_rest next len more w1) (λ o w2. Delivered sent len left w o w2)
  unfolding send_rest
  rest-Delivered next [] left len m w w1 e t go =
      Delivered-later len m left w w1 (some (pos len)) w1 t.1 t.0 (rw e (inl (refl, rw append-nil)))
  rest-Delivered next (c ∷ cs) left len m w w1 e t go =
      Returns-map (λ o w2. Delivered sent len (c ∷ cs) w1 o w2) _ _ (go c cs e)
        (λ o w2 d.
          Delivered-later len m left w w1 o w2 t.1 t.0
            (subst (λ l. Delivered sent len l w1 o w2) (sym e) d))

  -- A turn of the loop, after a send that returned `n`; `next` is the loop.
  turn-Delivered :
      (next : List ℕ → M W (Option ℤ)) (left : List ℕ) (len : ℕ) (w w1 : W) (n : ℤ)
      → 0 < length left
      → Took sent left w (n, w1)
      → ((c : ℕ) (cs : List ℕ)
          → length (c ∷ cs) < length left
          → Returns (next (c ∷ cs) w1) (λ o w2. Delivered sent len (c ∷ cs) w1 o w2))
      → Returns (send_turn next left len n w1) (λ o w2. Delivered sent len left w o w2)
  unfolding send_turn
  turn-Delivered next left len w w1 (pos zero) l t go = inr (inl refl, (0, l, t.1))
  turn-Delivered next left len w w1 (negsuc n) l t go = inr (inr refl, (0, l, t ∙ rw append-nil))
  turn-Delivered next left len w w1 (pos (suc n)) l t go =
      rest-Delivered next (drop (suc n) left) left len (suc n) w w1 refl t
        (λ c cs e. go c cs (omega (arith, ap length e, length-drop (suc n) left)))

  send_left-Delivered :
      (fuel : ℕ) (left : List ℕ) (len flags : ℕ) (w : W)
      → 0 < length left
      → length left ≤ fuel
      → Returns (send_left net fuel sock left len flags w) (λ o w'. Delivered sent len left w o w')
  unfolding send_left
  send_left-Delivered zero left len flags w l f = absurd (omega arith)
  send_left-Delivered (suc fuel) left len flags w l f =
      turn-Delivered (λ left'. send_left net fuel sock left' len flags) left len w
        (net.send sock left flags w).1 (net.send sock left flags w).0 l (pipe.takes left flags w)
        (λ c cs s.
          send_left-Delivered fuel (c ∷ cs) len flags (net.send sock left flags w).1 (omega arith)
            (omega arith))

  -- With as much fuel as there are bytes the loop of `cp_send_all` ends, on a buffer that is not empty.
  -- It returns the length, and every byte went out in order; or a send took nothing or failed, it
  -- returns 0 or -1, and a shorter front of the bytes went out.
  pub cp_send_all-Delivered :
      (fuel b : ℕ) (bs : List ℕ) (flags : ℕ) (w : W)
      → length (b ∷ bs) ≤ fuel
      → Returns
          (cp_send_all net fuel sock (b ∷ bs) flags w)
          (λ o w'. Delivered sent (length (b ∷ bs)) (b ∷ bs) w o w')
  unfolding cp_send_all
  cp_send_all-Delivered fuel b bs flags w f =
      send_left-Delivered fuel (b ∷ bs) (length (b ∷ bs)) flags w (omega arith) f
