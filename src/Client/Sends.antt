-- ===== src/Client/Sends.antt =====
-- client/test_client.cpp: what the file client sends, and what it shows of the answer.
use socket_server.Prelude.{
  ℕ, ◌*◌, ◌<◌, ◌^◌, ◌≡◌, Bool, some, List, [], ◌++◌, ℤ, ◌==ℤ◌, ◌∙◌, ap, sym, subst, run, Ends,
  Returns, ◌>>◌, take, length, arith, take_all,
}
use socket_server.Cp.{Net, invalid_socket, sock_stream, ipproto_tcp, af_inet}
use socket_server.Wire.{Header, State, state_code, ntohl, htonl, bytes_of_header, bytes_of_word}
use socket_server.Wire.Bytes.{ntohl-htonl}
use socket_server.Hv.Head.{encode, wire, IsWord}
use socket_server.Client.{
  Input, recv_header, send_value, send_header, send_content, connect_and_send,
  fake_client_send_file, failed, srv_host, srv_port, request_id,
}
use socket_server.Client.Talk.{Peer, IsTalk, At, Done, goes_on, goes_in, send-Sent, not_failed}
use socket_server.Client.Shows.{shown, recv_header-Done}

module _ {W : Type 0} (net : Net W) (input : Input W) (sock : ℤ) (path file : List ℕ)
    (peer : W → Peer) (t : IsTalk net input sock path file peer) where
  -- The request of the client.
  abbrev request : Header
  request = record { id = request_id; length = length file }

  send_value-Done :
      (h : Header) (st : State) (out : List ℕ)
      → IsWord h
      → 0 < length file
      → length file < 2 ^ 31
      → Ends
          (At peer (record { sent = out; coming = encode h ++ bytes_of_word (state_code st) }))
          (send_value net input sock (wire request) file)
          (Done peer (some (shown h st)) (record { sent = out ++ file; coming = [] }))
  unfolding send_value wire
  send_value-Done h st out k some_bytes small = record {
    at = λ w e.
        let value = take (ntohl (htonl (length file))) file in
        let whole : value ≡ file =
          rw (ntohl-htonl (length file) (omega arith), take_all (length file) file (omega arith)) in
        let (count, after) =
          send-Sent net input sock path file peer t out value
            (encode h ++ bytes_of_word (state_code st)) w e in
        goes_on peer
          (record { sent = out ++ file; coming = encode h ++ bytes_of_word (state_code st) })
          (failed (net.send sock value 0 w).0) _
          (run (net.usleep (500 * 1000)) >> recv_header net input sock) _
          (ap failed count
            ∙ not_failed (length value) (subst (λ l. 0 < length l) (sym whole) some_bytes))
          (after
            ∙ ap
                (λ l. record {
                  sent = out ++ l;
                  coming = encode h ++ bytes_of_word (state_code st);
                })
                whole)
          (record {
            at = λ w' e'.
                (recv_header-Done net input sock path file peer t h st (out ++ file) k).at _
                  (t.usleep (500 * 1000) w' ∙ e');
          });
  }

  send_header-Done :
      (h : Header) (st : State) (out : List ℕ)
      → IsWord h
      → 0 < length file
      → length file < 2 ^ 31
      → Ends
          (At peer (record { sent = out; coming = encode h ++ bytes_of_word (state_code st) }))
          (send_header net input sock (length file) file)
          (Done peer
            (some (shown h st))
            (record { sent = (out ++ encode request) ++ file; coming = [] }))
  unfolding send_header wire bytes_of_header bytes_of_word
  send_header-Done h st out k some_bytes small = record {
    at = λ w e.
        let (count, after) =
          send-Sent net input sock path file peer t out (encode request)
            (encode h ++ bytes_of_word (state_code st)) w e in
        goes_on peer _ (failed (net.send sock (encode request) 0 w).0) _
          (send_value net input sock (wire request) file) _ (ap failed count) after
          (send_value-Done h st (out ++ encode request) k some_bytes small);
  }

  send_content-Done :
      (h : Header) (st : State) (out : List ℕ)
      → IsWord h
      → 0 < length file
      → length file < 2 ^ 31
      → Ends
          (At peer (record { sent = out; coming = encode h ++ bytes_of_word (state_code st) }))
          (send_content net input sock)
          (Done peer
            (some (shown h st))
            (record { sent = (out ++ encode request) ++ file; coming = [] }))
  unfolding send_content
  send_content-Done h st out k some_bytes small = record {
    at = λ w e.
        let len = input.size w in
        let content = input.read len.0 len.1 in
        let r = t.read len.0 len.1 (t.size w).0 in
        goes_in peer (record { sent = out; coming = encode h ++ bytes_of_word (state_code st) })
          content.0.1 (send_header net input sock len.0 content.0.0) _ content.1
          (ap (λ (x : List ℕ × Bool). x.1) r.0) (r.1 ∙ (t.size w).1 ∙ e)
          (subst
            (λ (x : ℕ × List ℕ).
              Ends
                (At peer
                  (record { sent = out; coming = encode h ++ bytes_of_word (state_code st) }))
                (send_header net input sock x.0 x.1)
                (Done peer (some (shown h st))
                  (record { sent = (out ++ encode request) ++ file; coming = [] })))
            (sym (
              ap (λ n. (n, content.0.0)) (t.size w).0
              ∙ ap (λ (x : List ℕ × Bool). (length file, x.0)) r.0))
            (send_header-Done h st out k some_bytes small));
  }

  connected-Done :
      (h : Header) (st : State) (out : List ℕ)
      → IsWord h
      → 0 < length file
      → length file < 2 ^ 31
      → Ends
          (At peer (record { sent = out; coming = encode h ++ bytes_of_word (state_code st) }))
          (connect_and_send net input sock)
          (Done peer
            (some (shown h st))
            (record { sent = (out ++ encode request) ++ file; coming = [] }))
  unfolding connect_and_send
  connected-Done h st out k some_bytes small = record {
    at = λ w e.
        let parsed = net.inet_pton srv_host w in
        let c =
          t.connect (record { family = af_inet; port = srv_port; host = parsed.0.1 }) parsed.1 in
        goes_on peer (record { sent = out; coming = encode h ++ bytes_of_word (state_code st) }) _ _
          _ _ c.0 (c.1 ∙ t.inet_pton srv_host w ∙ e)
          (send_content-Done h st out k some_bytes small);
  }

  -- Where the socket's calls succeed and take or give all that they are asked for, and the file opens
  -- and is not empty, and has less than 2 ^ 31 bytes: the client returns 0, it has sent exactly a header
  -- in network order, with the id 123456 and the length of the file, and the file, and of an answer that
  -- the server's `to_wire` has made it shows the id and the length that the server meant, and
  -- as the state the bytes of the server's state turned round.
  pub fake_client_send_file-Done :
      (h : Header) (st : State) (out : List ℕ) (w : W)
      → IsWord h
      → 0 < length file
      → length file < 2 ^ 31
      → peer w ≡ record { sent = out; coming = encode h ++ bytes_of_word (state_code st) }
      → Returns (fake_client_send_file net input path w) (
          Done peer
            (some (shown h st))
            (record { sent = (out ++ encode request) ++ file; coming = [] }))
  unfolding fake_client_send_file
  fake_client_send_file-Done h st out w k some_bytes small e =
      let opened = input.open_file path w in
      let o = t.open_file w in
      let q : Peer = record { sent = out; coming = encode h ++ bytes_of_word (state_code st) } in
      goes_in peer q opened.0 _ _ opened.1 o.0 (o.1 ∙ e) (record {
        at = λ w' e'.
            let s' = t.socket w' in
            goes_on peer q ((net.socket af_inet sock_stream ipproto_tcp w').0 ==ℤ invalid_socket) _
              (connect_and_send net input (net.socket af_inet sock_stream ipproto_tcp w').0) _
              (ap (λ i. i ==ℤ invalid_socket) s'.0 ∙ t.is_valid) (s'.1 ∙ e')
              (subst
                (λ i. Ends (At peer q) (connect_and_send net input i) (
                  Done peer (some (shown h st))
                    (record { sent = (out ++ encode request) ++ file; coming = [] })))
                (sym s'.0) (connected-Done h st out k some_bytes small));
      })
