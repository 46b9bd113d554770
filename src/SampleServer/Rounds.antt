-- ===== src/SampleServer/Rounds.antt =====
-- server/test_server.cpp: what a client gets, and what a client with too much to say does.
use socket_server.Prelude.{
  ℕ, zero, suc, ◌<◌, ◌≤◌, ◌≡◌, ◌⊎◌, inl, inr, Bool, true, false, List, ◌++◌, ℤ, pos, ◌==ℤ◌, ◌∙◌, ap,
  M, call, run, fault, ◌>>=◌, out_of_bounds, ub, ltb, subst, sym, Returns, Returns-map, Ends,
  Ends-bind, Ends-call, Ends-run, if◌then◌else◌, arith,
}
use socket_server.Cp.{Net, Addr, invalid_socket}
use socket_server.SampleServer.{rev_data_size, send_data, show_data, serve, serve_next}

lt_or_ge : (n k : ℕ) → (n < k) ⊎ (k ≤ n)
lt_or_ge n k = ground arith

-- `sent` is what the client `client` has been given: only a send to it changes it, and takes all.
-- `printf` returns, whatever its format.
pub record IsGreeted {W : Type 0} (net : Net W) (printf : List ℕ → M W (Unit {0})) (client : ℤ)
    (sent : W → List ℕ) : Type 0 where
  pub send : (bytes : List ℕ) (w : W) → sent (net.send client bytes 0 w).1 ≡ sent w ++ bytes
  pub recv : (n : ℕ) (w : W) → sent (net.recv client n 0 w).1 ≡ sent w
  pub accept : (sock : ℤ) (w : W) → sent (net.accept sock w).1 ≡ sent w
  pub inet_ntop : (addr : Addr) (n : ℕ) (w : W) → sent (net.inet_ntop addr n w).1 ≡ sent w
  pub close : (w : W) → sent (net.close client w) ≡ sent w
  pub printf_keeps : (bytes : List ℕ) (w : W) → Returns (printf bytes w) (λ u w'. sent w' ≡ sent w)

module _ {W : Type 0} (net : Net W) (wsa_startup : W → ℕ × W) (printf : List ℕ → M W (Unit {0}))
    (client : ℤ) where
  -- The world in which the client's bytes are received.
  abbrev pub greeted : ℤ → W → W
  greeted slisten w = let r = net.accept slisten w in (net.inet_ntop r.0.1 16 r.1).1

  show_data-Keeps :
      (sent : W → List ℕ) (x : List ℕ)
      → IsGreeted net printf client sent
      → (n : ℕ) (bytes : List ℕ) → n < rev_data_size
      → Ends (λ w. sent w ≡ x) (show_data net wsa_startup printf (pos n) bytes) (λ u w. sent w ≡ x)
  unfolding show_data
  show_data-Keeps sent x g zero bytes l = record { at = λ w e. e }
  show_data-Keeps sent x g (suc n) bytes l =
      let small : ltb (suc n) rev_data_size ≡ true = ground arith in
      subst
        (λ (b : Bool).
          Ends (λ w. sent w ≡ x) (if b then printf bytes else fault out_of_bounds)
            (λ u w. sent w ≡ x))
        (sym small)
        (record {
          at = λ w e.
              Returns-map (λ u w'. sent w' ≡ sent w) (λ u w'. sent w' ≡ x) _
                (g.printf_keeps bytes w) (λ u w' k. k ∙ e);
        })

  serve-sent :
      (sent : W → List ℕ)
      → IsGreeted net printf client sent
      → (n : ℕ) (w : W) → (net.recv client rev_data_size 0 w).0.0 ≡ pos n
      → n < rev_data_size
      → Returns (serve net wsa_startup printf client w) (λ u w'. sent w' ≡ sent w ++ send_data)
  unfolding serve
  serve-sent sent g n w e l =
      let r = net.recv client rev_data_size 0 w in
      let shown : Ends (λ v. sent v ≡ sent w) (show_data net wsa_startup printf r.0.0 r.0.1)
          (λ u v. sent v ≡ sent w) =
        subst
          (λ i.
            Ends (λ v. sent v ≡ sent w) (show_data net wsa_startup printf i r.0.1)
              (λ u v. sent v ≡ sent w))
          (sym e) (show_data-Keeps sent (sent w) g n r.0.1 l) in
      (Ends-bind (λ u v. sent v ≡ sent w) (show_data net wsa_startup printf r.0.0 r.0.1)
          (λ u. call (net.send client send_data 0) >>= λ k. run (net.close client)) shown
          (λ u.
            Ends-bind (λ k v. sent v ≡ sent w ++ send_data) (call (net.send client send_data 0))
              (λ k. run (net.close client))
              (Ends-call (net.send client send_data 0)
                (λ v h. g.send send_data v ∙ ap (λ l. l ++ send_data) h))
              (λ k. Ends-run (net.close client) (λ v h. g.close v ∙ h)))).at
        r.1 (g.recv rev_data_size w)

  serve-out_of_bounds :
      (n : ℕ) (w : W)
      → (net.recv client rev_data_size 0 w).0.0 ≡ pos n
      → rev_data_size ≤ n
      → serve net wsa_startup printf client w ≡ ub out_of_bounds
  unfolding serve show_data
  serve-out_of_bounds zero w e l = absurd (omega arith)
  serve-out_of_bounds (suc n) w e l = ground arith

  -- A client that is accepted, over a network on which a send takes all, and where `printf` returns on
  -- whatever was received: if it has sent less than 255 bytes, or closed, it gets exactly the greeting;
  -- if 255 bytes are received, the zero behind them is written outside of the buffer.
  pub serve_next-sent :
      (sent : W → List ℕ)
      → IsGreeted net printf client sent
      → (slisten : ℤ) (n : ℕ) (w : W) → (net.accept slisten w).0.0 ≡ client
      → (client ==ℤ invalid_socket) ≡ false
      → (net.recv client rev_data_size 0 (greeted slisten w)).0.0 ≡ pos n
      → ((n < rev_data_size)
          × Returns
              (serve_next net wsa_startup printf slisten w)
              (λ u w'. sent w' ≡ sent w ++ send_data))
        ⊎ ((rev_data_size ≤ n) × (serve_next net wsa_startup printf slisten w ≡ ub out_of_bounds))
  unfolding serve_next
  serve_next-sent sent g slisten n w e v r =
      let same : sent (greeted slisten w) ≡ sent w =
        g.inet_ntop _ 16 (net.accept slisten w).1 ∙ g.accept slisten w in
      rw (e, v)
        (elim (lt_or_ge n rev_data_size) [
          | inl l ↦ inl (
            l,
            subst
                (λ x.
                  Returns (serve net wsa_startup printf client (greeted slisten w))
                    (λ u w'. sent w' ≡ x ++ send_data))
                same (serve-sent sent g n (greeted slisten w) r l),
          )
          | inr l ↦ inr (l, serve-out_of_bounds n (greeted slisten w) r l)
        ])
