-- ===== src/Scenarios.antt =====
-- The theorems on messages and caches at concrete inputs, on a host whose world is what was sent: one
-- that never runs out of anything, and one whose disk is full.
use socket_server.Prelude.{
  ℕ, ◌≡◌, refl, true, false, none, some, List, [], ◌∷◌, ◌++◌, length, replicate, length-replicate,
  is_some, arith, ℤ, pos, ok, ub, out_of_bounds, Returns, M,
}
use socket_server.Cache.{Stdio, Cache, to_auto, create_cache, cache_push, cache_pop}
use socket_server.Cache.Bounds.{
  IsStdio, IsValid, in_memory, Pushed, Popped, push-IsValid, pop-IsValid, create_cache-IsValid,
}
use socket_server.Cache.Fifo.{Op, push, pop, serve, spec, view, serve-refines}
use socket_server.Cache.Storage.{IsReliable}
use socket_server.Wire.{Header, ntohl, htonl, bytes_of_header}
use socket_server.Wire.Bytes.{ntohl-htonl}
use socket_server.Hv.{Hv, write, write_message, is_complete}
use socket_server.Hv.Head.{encode, headed, wire, write-split}
use socket_server.Hv.Value.{IsPart, Received, write-Received}
use socket_server.Hv.Message.{IsStart, Taken, write-head_only, write-Taken}
use socket_server.Hv.Small.{IsStale, write-IsStale}
use socket_server.Hv.Store.{IsReady, write_message-IsReady}
use socket_server.Hv.Full.{IsFull, IsWaiting}
use socket_server.Virus.{Session, read_loop, send_loop}
use socket_server.Virus.Read.{Message, IsLarge, stream, AllServed, read_loop-Served}
use socket_server.Virus.Stuck.{
  AnsweredTo, LeftStale, read_loop-IsFull, read_loop-IsStale, read_loop-LeftStale,
}
use socket_server.Virus.Send.{IsOutlet, Sent, send_loop-Sent}

abbrev World : Type 0
World = List ℕ

abbrev roomy : Stdio World
roomy = record {
  calloc = λ w. (true, w);
  malloc = λ n w. (some (replicate n 0), w);
  gettimeofday = λ w. ((7, 9), w);
  fopen = λ path w. (some 3, w);
  fseek = λ f at w. w;
  fwrite = λ f bytes w. (length bytes, w);
  fread = λ f n w. ([], w);
  fclose = λ f w. w;
  unlink = λ path w. w;
}

abbrev full_disk : Stdio World
full_disk = record roomy { fwrite = λ f bytes w. (0, w) }

roomy-IsStdio : IsStdio roomy
roomy-IsStdio = record {
  malloc_size = λ n w. length-replicate n 0;
  fwrite_le = λ f bytes w. omega arith;
  fread_le = λ f n w. omega arith;
}

roomy-IsReliable : IsReliable roomy
roomy-IsReliable = record {
  calloc_ok = λ w. refl;
  malloc_ok = λ n w. length-replicate n 0;
  fopen_ok = λ path w. refl;
  fwrite_all = λ f bytes w. refl;
}

full_disk-IsFull : IsFull full_disk
full_disk-IsFull = record { fwrite_none = λ f bytes w. refl }

-- A cache in memory with room for four bytes, of which two were written and one read.
abbrev used : Cache
used = record {
  path = none;
  buf = some (5 ∷ 6 ∷ 0 ∷ 0 ∷ []);
  capacity = 4;
  widx = 2;
  ridx = 1;
  wfp = none;
  dir = b'.' ∷ [];
}

used-IsValid : IsValid used
used-IsValid = omega arith

push-IsValid_example :
    Returns (cache_push roomy used (8 ∷ 9 ∷ []) []) (λ r _. Pushed used (8 ∷ 9 ∷ []) r)
push-IsValid_example = push-IsValid roomy roomy-IsStdio used (8 ∷ 9 ∷ []) [] used-IsValid

pop-IsValid_example : Returns (cache_pop roomy used 4 []) (λ r _. Popped used 4 r)
pop-IsValid_example = pop-IsValid roomy roomy-IsStdio used 4 [] used-IsValid

create_cache-IsValid_example :
    IsValid
      (record used { buf = some (0 ∷ 0 ∷ 0 ∷ 0 ∷ []); widx = 0; ridx = 0; dir = b'.' ∷ b'/' ∷ [] })
    × (◌≡◌ {A = ℕ} 4 4)
    × (◌≡◌ {A = ℕ} 0 0)
    × (◌≡◌ {A = ℕ} 0 0)
    × (true ≡ in_memory to_auto 4)
unfolding create_cache
create_cache-IsValid_example =
    create_cache-IsValid roomy roomy-IsStdio (some (b'.' ∷ b'/' ∷ [])) 4 to_auto [] []
      (record used { buf = some (0 ∷ 0 ∷ 0 ∷ 0 ∷ []); widx = 0; ridx = 0; dir = b'.' ∷ b'/' ∷ [] })
      (omega arith) refl

abbrev calls : List Op
calls = push (8 ∷ 9 ∷ 10 ∷ []) ∷ pop 2 ∷ pop 9 ∷ []

serve-refines_example : serve roomy calls used [] ≡ ok (spec calls (view used), [])
serve-refines_example = serve-refines roomy calls used (5 ∷ 6 ∷ 0 ∷ 0 ∷ []) [] refl used-IsValid

ntohl-htonl_example : ntohl (htonl 123456) ≡ 123456
ntohl-htonl_example = ntohl-htonl 123456 (omega arith)

abbrev idle : Hv
idle = record {
  to = none;
  header = record { id = 99; length = 99 };
  value = none;
  hlen = 0;
  head_complete = false;
  vlen = 0;
  value_complete = false;
}

idle-IsStart : IsStart idle
idle-IsStart = record { no_head = refl; head_open = refl; value_open = refl; no_value = refl }

abbrev request : ℕ → ℕ → Header
request id length = record { id = id; length = length }

write-split_example : write roomy (record idle { hlen = 3 }) (1 ∷ 2 ∷ []) [] ≡ ub out_of_bounds
write-split_example =
    write-split roomy (record idle { hlen = 3 }) 1 (2 ∷ []) [] (omega arith) (omega arith)

waiting-IsPart : IsPart (headed idle (request 5 6)) 0
waiting-IsPart = record {
  head_whole = refl;
  head_done = refl;
  value_open = refl;
  value_part = refl;
  part_le = omega arith;
  length_lt = omega arith;
}

write-Received_example :
    Returns
      (write roomy (headed idle (request 5 6)) (1 ∷ 2 ∷ []) [])
      (λ r _. Received (headed idle (request 5 6)) 0 2 r)
write-Received_example =
    write-Received roomy roomy-IsReliable (headed idle (request 5 6)) 0 1 (2 ∷ []) [] waiting-IsPart
      (omega arith)

write-head_only_example :
    write roomy idle (encode (request 5 0)) [] ≡ ok ((headed idle (request 5 0), pos 8), [])
write-head_only_example = write-head_only roomy idle (request 5 0) [] (omega arith) idle-IsStart

write-Taken_example :
    Returns
      (write roomy idle (encode (request 5 2) ++ 1 ∷ 2 ∷ 3 ∷ []) [])
      (λ r _. Taken (request 5 2) 3 r)
write-Taken_example =
    write-Taken roomy roomy-IsReliable idle (request 5 2) (1 ∷ 2 ∷ 3 ∷ []) [] (omega arith)
      idle-IsStart (omega arith) (omega arith)

-- The full file of a message of two bytes.
abbrev old_file : Cache
old_file = record {
  path = none;
  buf = none;
  capacity = 2;
  widx = 2;
  ridx = 0;
  wfp = some 3;
  dir = b'.' ∷ [];
}

held_file-IsStale : IsStale (record idle { value = some old_file }) old_file
held_file-IsStale = record {
  no_head = refl;
  head_open = refl;
  value_open = refl;
  held = refl;
  full = record { no_buffer = refl; opened = refl; of_capacity = refl; at = refl };
  small = omega arith;
}

write-IsStale_example :
    Returns
      (write roomy
        (record idle { value = some old_file })
        (encode (request 8 100) ++ 1 ∷ 2 ∷ [])
        [])
      (λ r _.
        (r.1 ≡ pos 8)
        × (is_complete r.0 ≡ true)
        × (r.0.header ≡ request 8 100)
        × (is_some r.0.to ≡ true))
write-IsStale_example =
    write-IsStale roomy roomy-IsReliable (record idle { value = some old_file }) old_file
      (request 8 100) 1 (2 ∷ []) [] (omega arith) held_file-IsStale (omega arith)

abbrev waiting_file : Hv
waiting_file = record (headed idle (request 5 6)) {
  value = some (record old_file { capacity = 6 });
}

partial-IsWaiting : IsWaiting waiting_file (record old_file { capacity = 6 }) 2
partial-IsWaiting = record {
  head_whole = refl;
  head_done = refl;
  value_open = refl;
  held = refl;
  file = record { no_buffer = refl; opened = refl; of_capacity = refl; at = refl };
  part_lt = omega arith;
}

abbrev session : Hv → Session
session m = record { req = m; resp = []; state = none }

read_loop-IsFull_example :
    Returns (read_loop full_disk 1000 (session waiting_file) (1 ∷ []) []) (λ o _. o ≡ none)
read_loop-IsFull_example =
    read_loop-IsFull full_disk full_disk-IsFull 1000 (session waiting_file)
      (record old_file { capacity = 6 }) 2 1 [] [] partial-IsWaiting

read_loop-IsStale_example :
    (t : Session) × (w : World) × (read_loop roomy 3
        (session (record idle { value = some old_file }))
        (encode (request 8 2) ++ 1 ∷ 2 ∷ [])
        []
      ≡ read_loop roomy 2 t (1 ∷ 2 ∷ []) w)
    × AnsweredTo (session (record idle { value = some old_file })) 8 t
read_loop-IsStale_example =
    read_loop-IsStale roomy roomy-IsReliable 2 (session (record idle { value = some old_file }))
      old_file (request 8 2) 1 (2 ∷ []) [] (omega arith) held_file-IsStale (omega arith)

read_loop-LeftStale_example :
    Returns
      (read_loop roomy 1 (session idle) (encode (request 8 2) ++ 1 ∷ 2 ∷ []) [])
      (λ o _. LeftStale (session idle) 8 o)
read_loop-LeftStale_example =
    read_loop-LeftStale roomy roomy-IsReliable 0 (session idle) (request 8 2) (1 ∷ 2 ∷ []) []
      (omega arith) idle-IsStart (omega arith) (omega arith) refl

abbrev kilobyte : Message
kilobyte = record { header = request 5 1024; value = replicate 1024 7 }

kilobyte-IsLarge : IsLarge kilobyte
kilobyte-IsLarge = record { words = omega arith; announced = refl; large = omega arith }

read_loop-Served_example :
    Returns
      (read_loop roomy 2 (session idle) (stream (kilobyte ∷ kilobyte ∷ [])) [])
      (λ o _. AllServed (session idle) (kilobyte ∷ kilobyte ∷ []) o)
unfolding bytes_of_header
read_loop-Served_example =
    read_loop-Served roomy roomy-IsReliable 2 (session idle) kilobyte (kilobyte ∷ []) []
      idle-IsStart (kilobyte-IsLarge, (kilobyte-IsLarge, tt)) (omega arith) (omega arith)

abbrev outlet : List ℕ → M World ℤ
outlet bytes w = ok (pos (length bytes), w ++ bytes)

abbrev seen : World → List ℕ
seen w = w

outlet-IsOutlet : IsOutlet roomy outlet seen
outlet-IsOutlet = record {
  send_all = λ bytes w. refl;
  fclose_keeps = λ f w. refl;
  unlink_keeps = λ path w. refl;
}

abbrev four_zeros : Message
four_zeros = record { header = request 5 4; value = 0 ∷ 0 ∷ 0 ∷ 0 ∷ [] }

abbrev reply_cache : Cache
reply_cache = record {
  path = none;
  buf = some (0 ∷ 0 ∷ 0 ∷ 0 ∷ []);
  capacity = 4;
  widx = 4;
  ridx = 0;
  wfp = none;
  dir = b'.' ∷ [];
}

abbrev ready : Hv
ready = record idle { header = wire (request 5 4); value = some reply_cache }

ready-IsReady : IsReady (request 5 4) (0 ∷ 0 ∷ 0 ∷ 0 ∷ []) (ready, pos 0)
ready-IsReady = record {
  succeeds = refl;
  header_of = refl;
  value_of = record { valid = omega arith; in_memory = refl; stands_for = refl };
}

send_loop-Sent_example :
    Returns
      (send_loop roomy outlet 5 (ready ∷ ready ∷ []) [])
      (λ o w. Sent seen (stream (four_zeros ∷ four_zeros ∷ [])) [] o w)
send_loop-Sent_example =
    send_loop-Sent roomy outlet seen outlet-IsOutlet 5 (four_zeros ∷ four_zeros ∷ [])
      (ready ∷ ready ∷ []) [] (ready-IsReady, (ready-IsReady, tt)) (omega arith)

write_message-IsReady_example :
    Returns
      (write_message roomy idle (request 5 2) (1 ∷ 2 ∷ []) [])
      (λ r _. IsReady (request 5 2) (1 ∷ 2 ∷ []) r)
write_message-IsReady_example =
    write_message-IsReady roomy roomy-IsReliable idle (request 5 2) (1 ∷ 2 ∷ []) [] refl refl
      (omega arith)
