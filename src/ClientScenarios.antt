-- ===== src/ClientScenarios.antt =====
-- The theorems on the clients at concrete inputs: a client whose world is its connection, and clients
-- whose connections are refused or silent and whose world counts sockets.
use socket_server.Prelude.{
  ◌-◌, suc, ℕ, ◌≡◌, refl, true, false, some, List, [], ◌∷◌, ◌++◌, length, take, drop, arith, pos,
  minus_one, Returns, ◌∙◌, ap,
}
use socket_server.Cp.{Net, other_error}
use socket_server.Wire.{Header, state_ok, state_code, bytes_of_word, ntohl}
use socket_server.Hv.Head.{encode}
use socket_server.Client.{Input, fake_client_send_file, connect_and_send}
use socket_server.Client.Talk.{Peer, IsTalk}
use socket_server.Client.Sends.{fake_client_send_file-Done}
use socket_server.Client.{loop_send_recv}
use socket_server.Client.Conversations.{CountsOpen, AtMostOne, loop_send_recv-AtMostOne}
use socket_server.Client.Closes.{CountsCloses, connect_and_send-closed}

-- The client's world is its connection, and its file has three bytes.
abbrev file : List ℕ
file = 9 ∷ 8 ∷ 7 ∷ []

abbrev pub one_connection : Net Peer
one_connection = record {
  errno = λ w. other_error;
  socket = λ af type protocol w. (pos 3, w);
  bind = λ sock addr w. (pos 0, w);
  listen = λ sock n w. (pos 0, w);
  connect = λ sock addr w. (pos 0, w);
  accept = λ sock w. ((minus_one, record { family = 2; port = 0; host = 0 }), w);
  send = λ sock bytes flags w. (pos (length bytes), record w { sent = w.sent ++ bytes });
  recv = λ sock n flags w. ((pos n, take n w.coming), record w { coming = drop n w.coming });
  get_flags = λ sock w. (record { nonblock = false; fixed = 2; rest = 0 }, w);
  set_flags = λ sock mode w. (pos 0, w);
  close = λ sock w. w;
  getpeername = λ sock w. ((minus_one, record { family = 2; port = 0; host = 0 }), w);
  getsockopt = λ sock w. (pos 0, w);
  inet_pton = λ host w. ((pos 1, 2130706433), w);
  inet_ntop = λ addr n w. (some [], w);
  select = λ r w e timeout world. ((pos 0, [], [], []), world);
  usleep = λ n w. w;
}

abbrev pub one_file : List ℕ → Input Peer
one_file content = record {
  open_file = λ path w. (true, w);
  size = λ w. (length content, w);
  read = λ n w. ((content, true), w);
  close_file = λ w. w;
  word = λ w. ([], w);
}

take-length : (a b : List ℕ) → take (length a) (a ++ b) ≡ a
take-length [] b = refl
take-length (x ∷ a) b = ap (λ l. x ∷ l) (take-length a b)

drop-length : (a b : List ℕ) → drop (length a) (a ++ b) ≡ b
drop-length [] b = refl
drop-length (x ∷ a) b = drop-length a b

pub one_connection-IsTalk :
    (content : List ℕ) → IsTalk one_connection (one_file content) (pos 3) [] content (λ w. w)
one_connection-IsTalk content = record {
  open_file = λ w. (refl, refl);
  socket = λ w. (refl, refl);
  is_valid = refl;
  inet_pton = λ host w. refl;
  connect = λ addr w. (refl, refl);
  size = λ w. (refl, refl);
  read = λ n w e. (refl, refl);
  send = λ bytes w. (refl, refl);
  recv = λ now later w e. (
    ap (λ l. (pos (length now), take (length now) l)) e
        ∙ ap (λ l. (pos (length now), l)) (take-length now later),
    ap (λ l. record w { coming = drop (length now) l }) e
        ∙ ap (λ l. record w { coming = l }) (drop-length now later),
  );
  usleep = λ n w. refl;
  close_file = λ w. refl;
  close = λ w. refl;
}

-- The answer to the client's request.
abbrev answer : Header
answer = record { id = 123456; length = 4 }

abbrev before_answer : Peer
before_answer = record { sent = []; coming = encode answer ++ bytes_of_word (state_code state_ok) }

fake_client_send_file-Done_example :
    Returns (fake_client_send_file one_connection (one_file file) [] before_answer) (λ r w.
      (r
        ≡ (pos 0, some (record { id = 123456; length = 4; errcode = ntohl (state_code state_ok) })))
      × (w ≡ record {
        sent = ([] ++ encode (record { id = 123456; length = 3 })) ++ file;
        coming = [];
      }))
fake_client_send_file-Done_example =
    fake_client_send_file-Done one_connection (one_file file) (pos 3) [] file (λ w. w)
      (one_connection-IsTalk file) answer state_ok [] before_answer (omega arith) (omega arith)
      (omega arith) refl

-- A network that refuses every connection and counts the sockets that are closed.
abbrev refusing : Net ℕ
refusing = record {
  errno = λ w. other_error;
  socket = λ af type protocol w. (pos 3, w);
  bind = λ sock addr w. (pos 0, w);
  listen = λ sock n w. (pos 0, w);
  connect = λ sock addr w. (minus_one, w);
  accept = λ sock w. ((minus_one, record { family = 2; port = 0; host = 0 }), w);
  send = λ sock bytes flags w. (pos (length bytes), w);
  recv = λ sock n flags w. ((pos 0, []), w);
  get_flags = λ sock w. (record { nonblock = false; fixed = 2; rest = 0 }, w);
  set_flags = λ sock mode w. (pos 0, w);
  close = λ sock w. suc w;
  getpeername = λ sock w. ((minus_one, record { family = 2; port = 0; host = 0 }), w);
  getsockopt = λ sock w. (pos 0, w);
  inet_pton = λ host w. ((pos 1, 2130706433), w);
  inet_ntop = λ addr n w. (some [], w);
  select = λ r w e timeout world. ((pos 0, [], [], []), world);
  usleep = λ n w. w;
}

abbrev no_file : Input ℕ
no_file = record {
  open_file = λ path w. (true, w);
  size = λ w. (0, w);
  read = λ n w. (([], true), w);
  close_file = λ w. w;
  word = λ w. ([], w);
}

refusing-CountsCloses : CountsCloses refusing no_file (pos 3) (λ w. w)
refusing-CountsCloses = record {
  close = λ w. refl;
  connect = λ addr w. refl;
  send = λ bytes w. refl;
  recv = λ n w. refl;
  inet_pton = λ host w. refl;
  usleep = λ n w. refl;
  size = λ w. refl;
  read = λ n w. refl;
  close_file = λ w. refl;
}

connect_and_send-closed_example :
    Returns (connect_and_send refusing no_file (pos 3) 0) (λ r w. w ≡ 2)
connect_and_send-closed_example =
    connect_and_send-closed refusing no_file (pos 3) (λ w. w) refusing-CountsCloses 0

-- A network that counts the sockets that are open, and whose peers say nothing.
abbrev silent : Net ℕ
silent = record refusing {
  socket = λ af type protocol w. (pos 3, suc w);
  connect = λ sock addr w. (pos 0, w);
  close = λ sock w. w - 1;
}

silent-CountsOpen : CountsOpen silent no_file (λ w. w)
silent-CountsOpen = record {
  socket = λ w. refl;
  close = λ sock n w e. omega arith;
  inet_pton = λ host w. refl;
  connect = λ sock addr w. refl;
  send = λ sock bytes w. refl;
  recv = λ sock n w. refl;
  word = λ w. refl;
}

loop_send_recv-AtMostOne_example :
    Returns
      (loop_send_recv silent no_file 3 0)
      (AtMostOne silent no_file (λ w. w) silent-CountsOpen 0)
loop_send_recv-AtMostOne_example =
    loop_send_recv-AtMostOne silent no_file (λ w. w) silent-CountsOpen 0 3 0 refl
