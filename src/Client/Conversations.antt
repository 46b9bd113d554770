-- ===== src/Client/Conversations.antt =====
-- client/test_client.cpp: the sockets that the loop of `loop_send_recv` leaves open.
use socket_server.Prelude.{
  ℕ, zero, suc, ◌≡◌, ◌⊎◌, inl, inr, refl, Bool, true, false, none, some, Option, List, ℤ, pos,
  ◌==ℤ◌, ◌∙◌, ap, M, pure, call, run, ◌>>=◌, ◌>>◌, Ends, Returns, Returns->>=, if◌then◌else◌,
}
use socket_server.Cp.{Net, Addr, socket_error, invalid_socket, sock_stream, ipproto_tcp, af_inet}
use socket_server.Client.{
  Input, hear, speak, connect_and_speak, conversation, once_more, loop_send_recv, failed, is_quit,
  srv_host, srv_port,
}

-- `opened` is the number of open sockets: `socket` adds one where it succeeds, `close` takes one away, and
-- no other call changes it.
pub record CountsOpen {W : Type 0} (net : Net W) (input : Input W) (opened : W → ℕ) : Type 0 where
  pub socket :
      (w : W)
      → opened (net.socket af_inet sock_stream ipproto_tcp w).1 ≡ (
          if (net.socket af_inet sock_stream ipproto_tcp w).0 ==ℤ invalid_socket
          then opened w
          else suc (opened w))
  pub close : (sock : ℤ) (n : ℕ) (w : W) → opened w ≡ suc n → opened (net.close sock w) ≡ n
  pub inet_pton : (host : List ℕ) (w : W) → opened (net.inet_pton host w).1 ≡ opened w
  pub connect : (sock : ℤ) (addr : Addr) (w : W) → opened (net.connect sock addr w).1 ≡ opened w
  pub send : (sock : ℤ) (bytes : List ℕ) (w : W) → opened (net.send sock bytes 0 w).1 ≡ opened w
  pub recv : (sock : ℤ) (n : ℕ) (w : W) → opened (net.recv sock n 0 w).1 ≡ opened w
  pub word : (w : W) → opened (input.word w).1 ≡ opened w

module _ {W : Type 0} (net : Net W) (input : Input W) (opened : W → ℕ)
    (c : CountsOpen net input opened) (n : ℕ) where
  -- After a conversation: none is left open where the loop goes on, at most one where it ends.
  abbrev Left : Bool → W → Type 0
  Left true w = opened w ≡ n
  Left false w = (opened w ≡ n) ⊎ (opened w ≡ suc n)

  -- After the loop, or when the fuel is used up.
  abbrev pub AtMostOne : Option ℤ → W → Type 0
  AtMostOne none w = opened w ≡ n
  AtMostOne (some r) w = (r ≡ pos 0) × ((opened w ≡ n) ⊎ (opened w ≡ suc n))

  test-Left :
      (k : ℕ) (b : Bool) (x y : M W Bool) (w : W)
      → opened w ≡ k
      → Ends (λ v. opened v ≡ k) x Left
      → Ends (λ v. opened v ≡ k) y Left
      → Returns ((if b then x else y) w) Left
  test-Left k true x y w e hx hy = hx.at w e
  test-Left k false x y w e hx hy = hy.at w e

  closes :
      (sock : ℤ) (b : Bool) → Ends (λ v. opened v ≡ suc n) (run (net.close sock) >> pure b) Left
  closes sock true = record { at = λ w e. c.close sock n w e }
  closes sock false = record { at = λ w e. inl (c.close sock n w e) }

  hear-Left : (sock : ℤ) → Ends (λ v. opened v ≡ suc n) (hear net input sock) Left
  unfolding hear
  hear-Left sock = record {
    at = λ w e.
        test-Left (suc n) (failed (net.recv sock 255 0 w).0.0) _ _ _ (c.recv sock 255 w ∙ e)
          (record { at = λ w' e'. inr e' }) (closes sock true);
  }

  speak-Left : (sock : ℤ) → Ends (λ v. opened v ≡ suc n) (speak net input sock) Left
  unfolding speak
  speak-Left sock = record {
    at = λ w e.
        test-Left (suc n) (is_quit (input.word w).0) _
          (call (net.send sock (input.word w).0 0) >>= λ k. hear net input sock) _ (c.word w ∙ e)
          (closes sock false)
          (record { at = λ w' e'. (hear-Left sock).at _ (c.send sock (input.word w).0 w' ∙ e') });
  }

  connected-Left : (sock : ℤ) → Ends (λ v. opened v ≡ suc n) (connect_and_speak net input sock) Left
  unfolding connect_and_speak
  connected-Left sock = record {
    at = λ w e.
        let parsed = net.inet_pton srv_host w in
        let addr : Addr = record { family = af_inet; port = srv_port; host = parsed.0.1 } in
        test-Left (suc n) ((net.connect sock addr parsed.1).0 ==ℤ socket_error) _ _ _
          (c.connect sock addr parsed.1 ∙ c.inet_pton srv_host w ∙ e) (closes sock false)
          (speak-Left sock);
  }

  with_socket :
      (sock : ℤ) (b : Bool) (w : W)
      → opened w ≡ (if b then n else suc n)
      → Returns ((if b then pure false else connect_and_speak net input sock) w) Left
  with_socket sock true w e = inl e
  with_socket sock false w e = (connected-Left sock).at w e

  conversation-Left : (w : W) → opened w ≡ n → Returns (conversation net input w) Left
  unfolding conversation
  conversation-Left w e =
      let s = net.socket af_inet sock_stream ipproto_tcp w in
      with_socket s.0 (s.0 ==ℤ invalid_socket) s.1
        (c.socket w ∙ ap (λ k. if s.0 ==ℤ invalid_socket then k else suc k) e)

  -- On a network of which only `socket` and `close` change how many sockets are open, and whatever its
  -- calls answer: as long as the client's loop goes on, each conversation has closed its socket. When
  -- the loop ends, with the result 0, at most one more socket is open than at the start.
  pub loop_send_recv-AtMostOne :
      (fuel : ℕ) (w : W) → opened w ≡ n → Returns (loop_send_recv net input fuel w) AtMostOne
  unfolding loop_send_recv once_more
  loop_send_recv-AtMostOne zero w e = e
  loop_send_recv-AtMostOne (suc fuel) w e =
      Returns->>= (conversation net input) (once_more net input (loop_send_recv net input fuel))
        Left AtMostOne w (conversation-Left w e)
        (λ b w' h.
          elim b
              as (λ b.
                Left b w'
                → Returns (once_more net input (loop_send_recv net input fuel) b w') AtMostOne) [
                  | true ↦ λ h. loop_send_recv-AtMostOne fuel w' h
                  | false ↦ λ h. (refl, h)
                ]
            h)
