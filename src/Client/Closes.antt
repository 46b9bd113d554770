-- ===== src/Client/Closes.antt =====
-- client/test_client.cpp: how often the file client closes its socket.
use socket_server.Prelude.{
  ℕ, suc, ◌*◌, ◌≡◌, refl, Bool, true, false, none, some, Option, List, ℤ, pos, ◌==ℤ◌, ◌∙◌, ap, M,
  run, Ends, Ends-bind, Ends-pure, Ends-run, Returns, Returns-map, if◌then◌else◌, ◌>>◌, take,
}
use socket_server.Cp.{Net, Addr, socket_error, af_inet}
use socket_server.Wire.{Header, header_size, ntohl, htonl, header_of_bytes, bytes_of_header}
use socket_server.Client.{
  Input, Shown, finish, recv_errcode, recv_header, send_value, send_header, send_content,
  connect_and_send, failed, srv_host, srv_port, request_id,
}

-- `closed` counts the calls of `close` on the socket; no other call changes it.
pub record CountsCloses {W : Type 0} (net : Net W) (input : Input W) (sock : ℤ) (closed : W → ℕ)
    : Type 0 where
  pub close : (w : W) → closed (net.close sock w) ≡ suc (closed w)
  pub connect : (addr : Addr) (w : W) → closed (net.connect sock addr w).1 ≡ closed w
  pub send : (bytes : List ℕ) (w : W) → closed (net.send sock bytes 0 w).1 ≡ closed w
  pub recv : (n : ℕ) (w : W) → closed (net.recv sock n 0 w).1 ≡ closed w
  pub inet_pton : (host : List ℕ) (w : W) → closed (net.inet_pton host w).1 ≡ closed w
  pub usleep : (n : ℕ) (w : W) → closed (net.usleep n w) ≡ closed w
  pub size : (w : W) → closed (input.size w).1 ≡ closed w
  pub read : (n : ℕ) (w : W) → closed (input.read n w).1 ≡ closed w
  pub close_file : (w : W) → closed (input.close_file w) ≡ closed w

module _ {W : Type 0} (net : Net W) (input : Input W) (sock : ℤ) (closed : W → ℕ)
    (c : CountsCloses net input sock closed) (n : ℕ) where
  abbrev At : ℕ → W → Type 0
  At k w = closed w ≡ k

  finish-Ends :
      (o : Option Shown) (k : ℕ)
      → Ends (At k) (finish net input sock o) (λ r w. (r ≡ (pos 0, o)) × At (suc k) w)
  unfolding finish
  finish-Ends o k =
      Ends-bind (λ _. At k) _ _ (Ends-run input.close_file (λ w h. c.close_file w ∙ h))
        (λ _.
          Ends-bind (λ _. At (suc k)) _ _ (Ends-run (net.close sock) (λ w h. c.close w ∙ ap suc h))
            (λ _. Ends-pure (pos 0, o) (λ w h. (refl, h))))

  -- The socket is closed once more than at the start.
  abbrev Once : ℤ × Option Shown → W → Type 0
  Once r w = closed w ≡ suc n

  finish-Once : (o : Option Shown) → Ends (At n) (finish net input sock o) Once
  finish-Once o = record {
    at = λ w h. Returns-map _ Once _ ((finish-Ends o n).at w h) (λ r q k. k.1);
  }

  -- A test after calls that have not closed the socket.
  test-Once :
      (b : Bool) (x y : M W (ℤ × Option Shown)) (w : W)
      → closed w ≡ n
      → Ends (At n) x Once
      → Ends (At n) y Once
      → Returns ((if b then x else y) w) Once
  test-Once true x y w e hx hy = hx.at w e
  test-Once false x y w e hx hy = hy.at w e

  recv_errcode-Once : (header : Header) → Ends (At n) (recv_errcode net input sock header) Once
  unfolding recv_errcode
  recv_errcode-Once header = record {
    at = λ w h. test-Once _ _ _ _ (c.recv 4 w ∙ h) (finish-Once none) (finish-Once (some _));
  }

  recv_header-Once : Ends (At n) (recv_header net input sock) Once
  unfolding recv_header
  recv_header-Once = record {
    at = λ w h.
        test-Once _ _ _ _ (c.recv header_size w ∙ h) (finish-Once none)
          (recv_errcode-Once (header_of_bytes _));
  }

  send_value-Once :
      (header : Header) (d : List ℕ) → Ends (At n) (send_value net input sock header d) Once
  unfolding send_value
  send_value-Once header d = record {
    at = λ w h.
        test-Once (failed (net.send sock (take (ntohl header.length) d) 0 w).0) _
          (run (net.usleep (500 * 1000)) >> recv_header net input sock) _
          (c.send (take (ntohl header.length) d) w ∙ h) (finish-Once none)
          (record { at = λ w' h'. recv_header-Once.at _ (c.usleep (500 * 1000) w' ∙ h') });
  }

  send_header-Once : (len : ℕ) (d : List ℕ) → Ends (At n) (send_header net input sock len d) Once
  unfolding send_header
  send_header-Once len d = record {
    at = λ w h.
        let header : Header = record { id = htonl request_id; length = htonl len } in
        test-Once (failed (net.send sock (bytes_of_header header) 0 w).0) _ _ _
          (c.send (bytes_of_header header) w ∙ h) (finish-Once none) (send_value-Once header d);
  }

  send_content-Once : Ends (At n) (send_content net input sock) Once
  unfolding send_content
  send_content-Once = record {
    at = λ w h.
        let len = input.size w in
        let content = input.read len.0 len.1 in
        test-Once content.0.1 _ _ content.1 (c.read len.0 len.1 ∙ c.size w ∙ h)
          (send_header-Once len.0 content.0.0) (finish-Once none);
  }

  -- The same after a failed `connect`, where there is a `close` before it.
  twice :
      Ends
        (At n)
        (run (net.close sock) >> finish net input sock none)
        (λ r w. closed w ≡ suc (suc n))
  twice =
      Ends-bind (λ _. At (suc n)) _ _ (Ends-run (net.close sock) (λ w h. c.close w ∙ ap suc h))
        (λ _. record {
          at = λ w h.
              Returns-map (λ r q. (r ≡ (pos 0, none)) × At (suc (suc n)) q)
                (λ r q. At (suc (suc n)) q) _ ((finish-Ends none (suc n)).at w h) (λ r q k. k.1);
        })

  either :
      (b : Bool) (w : W)
      → closed w ≡ n
      → Returns
          ((if b
              then run (net.close sock) >> finish net input sock none
              else send_content net input sock)
            w)
          (λ r w'. closed w' ≡ (if b then suc (suc n) else suc n))
  either true w h = twice.at w h
  either false w h = send_content-Once.at w h

-- The address of the server, and what `connect` to it returns.
abbrev pub server : {W : Type 0} → Net W → W → Addr
server net w = record { family = af_inet; port = srv_port; host = (net.inet_pton srv_host w).0.1 }

abbrev pub connected : {W : Type 0} → Net W → ℤ → W → ℤ
connected net sock w = (net.connect sock (server net w) (net.inet_pton srv_host w).1).0

-- On a network and a file of which only `close` changes how often the socket has been closed: the file
-- client, from the `connect` on, returns, whatever the calls answer. It has closed its socket exactly
-- once, unless `connect` fails: then it has closed it exactly twice.
pub connect_and_send-closed :
    {W : Type 0} (net : Net W) (input : Input W) (sock : ℤ) (closed : W → ℕ)
    → CountsCloses net input sock closed
    → (w : W)
    → Returns (connect_and_send net input sock w) (λ r w'.
      closed w'
      ≡ (if connected net sock w ==ℤ socket_error then suc (suc (closed w)) else suc (closed w)))
unfolding connect_and_send
connect_and_send-closed net input sock closed c w =
    either net input sock closed c (closed w) (connected net sock w ==ℤ socket_error) _
      (c.connect (server net w) (net.inet_pton srv_host w).1 ∙ c.inet_pton srv_host w)
