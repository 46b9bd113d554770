-- ===== src/Client/Shows.antt =====
-- client/test_client.cpp: what the file client shows of an answer.
use socket_server.Prelude.{
  ℕ, ◌≡◌, refl, some, List, [], ◌++◌, ℤ, pos, ◌==ℤ◌, ◌∙◌, ap, sym, subst, not, ◌||◌, Ends,
}
use socket_server.Cp.{Net}
use socket_server.Wire.{
  Header, State, state_ok, data_error, connection_error, internal_error, state_code, ntohl, htonl,
  header_of_bytes, bytes_of_header, bytes_of_word, word_of_bytes, word_of_bytes_list,
}
use socket_server.Wire.Bytes.{ntohl-htonl}
use socket_server.Hv.Head.{encode, wire, IsWord, header_of_bytes-encode}
use socket_server.Client.{Input, Shown, finish, recv_errcode, recv_header, failed}
use socket_server.Client.Talk.{Peer, IsTalk, At, Done, goes_on, finish-Done, recv-Got}

-- What the client shows of an answer.
abbrev pub shown : Header → State → Shown
shown h st = record { id = h.id; length = h.length; errcode = ntohl (state_code st) }

module _ {W : Type 0} (net : Net W) (input : Input W) (sock : ℤ) (path file : List ℕ)
    (peer : W → Peer) (t : IsTalk net input sock path file peer) where
  word-bytes : (st : State) → word_of_bytes_list (bytes_of_word (state_code st)) ≡ state_code st
  unfolding bytes_of_word word_of_bytes_list word_of_bytes state_code
  word-bytes state_ok = refl
  word-bytes data_error = refl
  word-bytes connection_error = refl
  word-bytes internal_error = refl

  shown-wire :
      (h : Header) (st : State) (bs : List ℕ)
      → IsWord h
      → bs ≡ bytes_of_word (state_code st)
      → record {
        id = ntohl (wire h).id;
        length = ntohl (wire h).length;
        errcode = ntohl (word_of_bytes_list bs);
      }
        ≡ shown h st
  unfolding wire
  shown-wire h st bs k e =
      ap
        (λ n. record {
          id = ntohl (htonl h.id);
          length = ntohl (htonl h.length);
          errcode = ntohl n;
        })
        (ap word_of_bytes_list e ∙ word-bytes st)
      ∙ ap
          (λ n. record { id = n; length = ntohl (htonl h.length); errcode = ntohl (state_code st) })
          (ntohl-htonl h.id k.0)
      ∙ ap (λ n. record { id = h.id; length = n; errcode = ntohl (state_code st) })
          (ntohl-htonl h.length k.1)

  recv_errcode-Done :
      (h : Header) (st : State) (out : List ℕ)
      → IsWord h
      → Ends
          (At peer (record { sent = out; coming = bytes_of_word (state_code st) }))
          (recv_errcode net input sock (wire h))
          (Done peer (some (shown h st)) (record { sent = out; coming = [] }))
  unfolding recv_errcode bytes_of_word
  recv_errcode-Done h st out k = record {
    at = λ w e.
        let got = net.recv sock 4 0 w in
        let (count, bytes, after) =
          recv-Got net input sock path file peer t out (bytes_of_word (state_code st)) [] w e in
        goes_on peer (record { sent = out; coming = [] })
          (failed got.0.0 || not (got.0.0 ==ℤ pos 4)) _ _ _
          (ap (λ n. failed n || not (n ==ℤ pos 4)) count) after
          (subst
            (λ (x : Shown).
              Ends (At peer (record { sent = out; coming = [] }))
                (finish net input sock (
                  some (record {
                    id = ntohl (wire h).id;
                    length = ntohl (wire h).length;
                    errcode = ntohl (word_of_bytes_list got.0.1);
                  })))
                (Done peer (some x) (record { sent = out; coming = [] })))
            (shown-wire h st got.0.1 k bytes) (finish-Done net input sock path file peer t _ _));
  }

  pub recv_header-Done :
      (h : Header) (st : State) (out : List ℕ)
      → IsWord h
      → Ends
          (At peer (record { sent = out; coming = encode h ++ bytes_of_word (state_code st) }))
          (recv_header net input sock)
          (Done peer (some (shown h st)) (record { sent = out; coming = [] }))
  unfolding recv_header bytes_of_header bytes_of_word
  recv_header-Done h st out k = record {
    at = λ w e.
        let got = net.recv sock 8 0 w in
        let (count, bytes, after) =
          recv-Got net input sock path file peer t out (encode h) (bytes_of_word (state_code st)) w
            e in
        let read : header_of_bytes got.0.1 ≡ wire h =
          ap header_of_bytes bytes ∙ header_of_bytes-encode h in
        goes_on peer _ (failed got.0.0 || not (got.0.0 ==ℤ pos 8)) _
          (recv_errcode net input sock (header_of_bytes got.0.1)) _
          (ap (λ n. failed n || not (n ==ℤ pos 8)) count) after
          (subst
            (λ (x : Header).
              Ends (At peer (record { sent = out; coming = bytes_of_word (state_code st) }))
                (recv_errcode net input sock x)
                (Done peer (some (shown h st)) (record { sent = out; coming = [] })))
            (sym read) (recv_errcode-Done h st out k));
  }
