-- ===== src/LoopScenarios.antt =====
-- The theorems on rounds of the loop and on the read event of a server, at concrete inputs: a server
-- with the socket 3, and a client with the socket 4 that sends a kilobyte.
use socket_server.Prelude.{
  ◌<◌, ◌≤◌, ℕ, zero, suc, ◌≡◌, refl, true, false, some, List, [], ◌∷◌, ◌++◌, length, replicate,
  length-replicate, arith, ℤ, pos, Returns, IfOk, map, ◌⊎◌, inl, inr,
}
use socket_server.Cache.{Stdio}
use socket_server.Cache.Frame.{HostKeeps}
use socket_server.Cache.Storage.{IsReliable}
use socket_server.Cp.{Net, Addr, other_error, cp_socket_valid}
use socket_server.Wire.{bytes_of_header}
use socket_server.Virus.Read.{stream}
use socket_server.BaseSocket.{Handler, Process, tcp_server, find}
use socket_server.BaseSocket.Map.{IsMap}
use socket_server.BaseSocket.Owned.{IsOwned}
use socket_server.Setup.Join.{IsPeer}
use socket_server.Setup.World.{JoinKeeps}
use socket_server.Events.{handle_read_event, handle_write_event, handle_expt_event}
use socket_server.Events.Leave.{IsServing}
use socket_server.Events.Deliver.{TakesAll}
use socket_server.Events.Exchange.{ok_reply}
use socket_server.Events.Isolation.{IsSpared, events-IsSpared}
use socket_server.Events.Join.{HasJoined, handle_read_event-HasJoined}
use socket_server.Select.{rounds}
use socket_server.Select.Exchange.{IsDuplex, rounds-HasWritten}
use socket_server.Select.Welcome.{IsGreeting, rounds-HasWelcomed}
use socket_server.ServiceScenarios.{kilobyte, kilobyte-IsLarge, idle, idle-IsStart, handler}

-- What the next `select` reports.
data Turn : Type 0 where
  listening asking taking : Turn

abbrev next_turn : Turn → Turn
next_turn listening = asking
next_turn asking = taking
next_turn taking = taking

abbrev report : Turn → ℤ × List ℤ × List ℤ × List ℤ
report listening = (pos 1, pos 3 ∷ [], [], [])
report asking = (pos 1, pos 4 ∷ [], [], [])
report taking = (pos 1, [], pos 4 ∷ [], [])

-- The turn, and what was sent.
abbrev Air : Type 0
Air = Turn × List ℕ

abbrev visitor : Addr
visitor = record { family = 2; port = 9; host = 7 }

-- Every send takes all, every receive gives the same bytes, and every client is the visitor.
abbrev air_with : List ℕ → Net Air
air_with buf = record {
  errno = λ w. other_error;
  socket = λ af type protocol w. (pos 3, w);
  bind = λ sock addr w. (pos 0, w);
  listen = λ sock n w. (pos 0, w);
  connect = λ sock addr w. (pos 0, w);
  accept = λ sock w. ((pos 4, visitor), w);
  send = λ sock bytes flags w. (pos (length bytes), (w.0, w.1 ++ bytes));
  recv = λ sock n flags w. ((pos (length buf), buf), w);
  get_flags = λ sock w. (record { nonblock = false; fixed = 2; rest = 0 }, w);
  set_flags = λ sock mode w. (pos 0, w);
  close = λ sock w. w;
  getpeername = λ sock w. ((pos 0, visitor), w);
  getsockopt = λ sock w. (pos 0, w);
  inet_pton = λ host w. ((pos 1, 7), w);
  inet_ntop = λ addr n w. (some (b'7' ∷ []), w);
  select = λ r w e timeout v. (report v.0, (next_turn v.0, v.1));
  usleep = λ n w. w;
}

abbrev air : Net Air
air = air_with (stream (kilobyte ∷ []))

abbrev shelf : Stdio Air
shelf = record {
  calloc = λ w. (true, w);
  malloc = λ n w. (some (replicate n 0), w);
  gettimeofday = λ w. ((7, 9), w);
  fopen = λ path w. (some 3, w);
  fseek = λ f at w. w;
  fwrite = λ f bytes w. (length bytes, w);
  fread = λ f n w. ([], w);
  fclose = λ f w. w;
  unlink = λ path w. w;
}

shelf-IsReliable : IsReliable shelf
shelf-IsReliable = record {
  calloc_ok = λ w. refl;
  malloc_ok = λ n w. length-replicate n 0;
  fopen_ok = λ path w. refl;
  fwrite_all = λ f bytes w. refl;
}

shelf-HostKeeps : (P : Air → Type 0) → HostKeeps shelf P
shelf-HostKeeps P = record {
  calloc = λ w h. h;
  malloc = λ n w h. h;
  gettimeofday = λ w h. h;
  fopen = λ path w h. h;
  fseek = λ f at w h. h;
  fwrite = λ f bytes w h. h;
  fread = λ f n w h. h;
  fclose = λ f w h. h;
  unlink = λ path w h. h;
}

abbrev sent_on : ℤ → Air → List ℕ
sent_on sock w = w.1

air-TakesAll : (buf : List ℕ) → TakesAll (air_with buf) shelf sent_on
air-TakesAll buf = record {
  count = λ sock bytes flags w. refl;
  appended = λ sock bytes flags w. refl;
  library_keeps = λ sock x. shelf-HostKeeps (λ w. w.1 ≡ x);
}

abbrev WritesDue : Air → Type 0
WritesDue w = w.0 ≡ taking

air-IsDuplex : (buf : List ℕ) → IsDuplex (air_with buf) shelf (pos 4) sent_on WritesDue
air-IsDuplex buf = record {
  reports = λ r w e timeout v h. rw h refl;
  select_sends = λ r w e timeout v. refl;
  recv_sends = λ s' s n flags v. refl;
  recv_keeps = λ s n flags v h. h;
  library_keeps = shelf-HostKeeps WritesDue;
}

visitor-IsPeer : (buf : List ℕ) → IsPeer (air_with buf) (pos 4) visitor (b'7' ∷ [])
unfolding cp_socket_valid
visitor-IsPeer buf = record { valid = refl; peer = λ w. refl; text = λ w. refl }

air-JoinKeeps : (buf : List ℕ) (P : Air → Type 0) → JoinKeeps (air_with buf) P
air-JoinKeeps buf P = record {
  accept = λ s w h. h;
  getpeername = λ s w h. h;
  inet_ntop = λ addr n w h. h;
  get_flags = λ s w h. h;
  set_flags = λ s mode w h. h;
}

-- The client's first bytes are on their way.
abbrev IsAsked : Air → Type 0
IsAsked w = w.0 ≡ asking

air-IsGreeting :
    (buf : List ℕ)
    → 0 < length buf
    → length buf ≤ 65535
    → IsGreeting (air_with buf) (pos 4) sent_on WritesDue buf IsAsked
air-IsGreeting buf some_bytes at_most = record {
  keeps = λ x. air-JoinKeeps buf (λ w. (w.0 ≡ asking) × (w.1 ≡ x));
  reports = λ r w e timeout v h. rw h refl;
  begins = λ r w e timeout v h. rw h refl;
  arrives = λ r w e timeout v h. refl;
  some_bytes = some_bytes;
  at_most = at_most;
}

-- The server's handler, and those of clients.
abbrev pub object : ℕ → Handler
object zero = record handler {
  class = tcp_server;
  sock = pos 3;
  connected = false;
  accepting = true;
}
object (suc o) = record handler { sock = pos 4 }

pub object_live : (o : ℕ) → (object o).live ≡ true
object_live zero = refl
object_live (suc o) = refl

abbrev alone : Process Air
alone = record {
  objects = object;
  next = 1;
  handlers = (pos 3, 0) ∷ [];
  world = (listening, []);
  stale = false;
}

pub in_alone : (s : ℤ) (o : ℕ) → find s ((pos 3, 0) ∷ []) ≡ some o → (s ≡ pos 3) × (o ≡ 0)
unfolding find
in_alone s o h = ground arith

alone-IsOwned : IsOwned alone
unfolding find IsMap
alone-IsOwned = record {
  one_entry = (refl, tt);
  alive = λ s o h. object_live o;
  same_sock = λ s o h. let e = in_alone s o h in rw (e.0, e.1) refl;
  allocated = λ s o h. omega (arith, (in_alone s o h).1);
}

abbrev pair : Process Air
pair = record alone { next = 2; handlers = (pos 3, 0) ∷ (pos 4, 1) ∷ []; world = (asking, []) }

in_pair :
    (s : ℤ) (o : ℕ)
    → find s ((pos 3, 0) ∷ (pos 4, 1) ∷ []) ≡ some o
    → ((s ≡ pos 3) × (o ≡ 0)) ⊎ ((s ≡ pos 4) × (o ≡ 1))
unfolding find
in_pair s o h = ground arith

pair-IsOwned : IsOwned pair
unfolding find IsMap
pair-IsOwned = record {
  one_entry = (refl, (refl, tt));
  alive = λ s o h. object_live o;
  same_sock =
      λ s o h. elim (in_pair s o h) [ inl e ↦ rw (e.0, e.1) refl | inr e ↦ rw (e.0, e.1) refl ];
  allocated =
      λ s o h. elim (in_pair s o h) [ inl e ↦ omega (arith, e.1) | inr e ↦ omega (arith, e.1) ];
}

client-IsServing : IsServing pair 1
client-IsServing = record { class = refl; connected = refl; accepting = refl }

events-IsSpared_example :
    IfOk (λ d. IsSpared (pos 3) 0 pair) (handle_read_event air shelf 5 idle 1 pair)
    × IfOk (λ d. IsSpared (pos 3) 0 pair) (handle_write_event air shelf 5 1 pair)
    × IfOk (λ u. IsSpared (pos 3) 0 pair) (handle_expt_event air shelf 5 1 pair)
unfolding find
events-IsSpared_example =
    events-IsSpared air shelf 5 idle pair 1 (pos 3) 0 pair-IsOwned client-IsServing refl refl

handle_read_event-HasJoined_example : Returns (handle_read_event air shelf 5 idle 0 alone) (λ d q.
    ((d ≡ some tt)
      × HasJoined air shelf 5
          (pos 4)
          visitor
          (b'7' ∷ [])
          (visitor-IsPeer (stream (kilobyte ∷ [])))
          idle
          alone
          q)
    × IsOwned q)
handle_read_event-HasJoined_example =
    handle_read_event-HasJoined air shelf 5 (pos 4) visitor (b'7' ∷ [])
      (visitor-IsPeer (stream (kilobyte ∷ []))) idle alone 0 alone-IsOwned
      (record { class = refl; accepting = refl; next_client = refl })

rounds-HasWritten_example : Returns (rounds air shelf 5 idle 2 60000 pair) (λ d q.
    (d ≡ some tt)
    × (q.world.1 ≡ [] ++ stream (map ok_reply (kilobyte ∷ [])))
    × ((q.objects 1).session.resp ≡ []))
unfolding find bytes_of_header
rounds-HasWritten_example =
    rounds-HasWritten air shelf shelf-IsReliable sent_on (air-TakesAll (stream (kilobyte ∷ []))) 3
      WritesDue (air-IsDuplex (stream (kilobyte ∷ []))) 5 idle 60000 pair 1 kilobyte [] pair-IsOwned
      refl client-IsServing refl refl
      (record { count = refl; bytes = refl; some_bytes = omega arith; at_most = omega arith })
      idle-IsStart refl (kilobyte-IsLarge, tt) (omega arith) (omega arith)

rounds-HasWelcomed_example : Returns (rounds air shelf 5 idle 3 60000 alone) (λ d q.
    (d ≡ some tt)
    × (q.world.1 ≡ [] ++ stream (map ok_reply (kilobyte ∷ [])))
    × ((q.objects 1).session.resp ≡ []))
unfolding find bytes_of_header
rounds-HasWelcomed_example =
    rounds-HasWelcomed air shelf shelf-IsReliable sent_on (air-TakesAll (stream (kilobyte ∷ []))) 3
      WritesDue (air-IsDuplex (stream (kilobyte ∷ []))) 5 idle visitor (b'7' ∷ [])
      (visitor-IsPeer (stream (kilobyte ∷ []))) kilobyte [] IsAsked
      (air-IsGreeting (stream (kilobyte ∷ [])) (omega arith) (omega arith)) 60000 2 alone 0
      alone-IsOwned refl refl (record { class = refl; accepting = refl; next_client = refl }) refl
      idle-IsStart refl (kilobyte-IsLarge, tt) (omega arith) (omega arith)
