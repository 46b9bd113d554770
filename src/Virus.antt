-- ===== src/Virus.antt =====
-- doc_ferry_server/src/virus_handler.cpp and inc/virus_handler.h: what `VirusHandler` does between its
-- socket and its messages. The bytes of a read are cut into requests, each complete request is
-- cleared and answered, and the answers wait in a queue until the socket is writable.
-- The loops take fuel; `none` means that it ran out.
pub mod Reply
pub mod Read
pub mod Stuck
pub mod Pieces
pub mod Send
pub mod Frame
use socket_server.Prelude.{
  ℕ, zero, suc, Bool, true, false, Option, none, some, List, [], ◌∷◌, ◌++◌, drop, ◌==ℤ◌, ◌==◌, ltb,
  if◌then◌else◌, ℤ, minus_one, to_ℕ, M, pure, fault, out_of_bounds, ◌>>=◌, ◌>>◌,
}
use socket_server.Cache.{Stdio, Cache, cache_pop, delete_cache, leave_cache}
use socket_server.Wire.{
  Header, State, state_ok, internal_error, state_code, bytes_of_word, bytes_of_header,
}
use socket_server.Hv.{Hv, new, clear, write, write_message, is_complete}

-- The handler's own fields. `state` is not set by the constructor.
pub record Session : Type 0 where
  pub req : Hv
  -- std::queue<vc::HV>, the oldest first
  pub resp : List Hv
  pub state : Option State

-- sizeof(iface::State), the length of every answer's value
abbrev pub state_size : ℕ
state_size = 4

-- The answer's `HV` stands on the stack; `write` sets the header before it is read.
pub blank_reply : Hv
blank_reply = new (record { id = 0; length = 0 })

module _ {W : Type 0} (host : Stdio W) where
  pub request : Hv → M W Hv
  request req = clear host req

  -- The result of `write` is not looked at.
  pub response : Session → Hv → State → M W Session
  response s req state = do
    written ←
        write_message host blank_reply (record { id = req.header.id; length = state_size })
          (bytes_of_word (state_code state))
    pure (record s { resp = s.resp ++ written.0 ∷ [] })

  -- A complete request.
  pub answer : Session → M W Session
  unfolding request response
  answer s = do
    req ← request s.req
    response (record s { req = req; state = some state_ok }) req state_ok

  -- A request that could not be stored.
  pub fail : Session → M W Session
  unfolding response
  fail s = do
    req ← clear host s.req
    response (record s { req = req; state = some internal_error }) req internal_error

  -- After a write that did not fail.
  pub written : Session → M W Session
  unfolding answer
  written s = if is_complete s.req then answer s else pure s

  -- The end of a turn: the loop goes on if bytes are left.
  pub go_on : (Session → List ℕ → M W (Option Session)) → List ℕ → Session → M W (Option Session)
  go_on loop [] s = pure (some s)
  go_on loop (b ∷ bs) s = loop s (b ∷ bs)

  -- A turn of the loop, with what `write` has returned for the bytes from `p_buf` on.
  pub read_turn :
      (Session → List ℕ → M W (Option Session)) → Session → List ℕ → Hv × ℤ → M W (Option Session)
  unfolding fail written go_on
  read_turn loop s buf r =
      if r.1 ==ℤ minus_one
      then fail (record s { req = r.0 }) >>= go_on loop []
      else written (record s { req = r.0 }) >>= go_on loop (drop (to_ℕ r.1) buf)

  -- The loop of `handle_read`, with the bytes from `p_buf` on.
  pub read_loop : ℕ → Session → List ℕ → M W (Option Session)
  unfolding read_turn
  read_loop zero s buf = pure none
  read_loop (suc fuel) s buf = write host s.req buf >>= read_turn (read_loop fuel) s buf

-- `send` stands for `BaseSocket::send`, whose result the code does not look at.
module _ {W : Type 0} (host : Stdio W) (send : List ℕ → M W ℤ) where
  -- The body of the inner loop of `handle_write`, for a pop that returned `n` and `bytes`. A pop that
  -- fails returns (size_t)-1, and then the send reads past the end of the buffer.
  pub send_more : (Cache → M W (Option Cache)) → Cache → ℕ → List ℕ → M W (Option Cache)
  send_more loop c zero bytes = pure (some c)
  send_more loop c (suc n) bytes =
      if ltb 4096 (suc n) then fault out_of_bounds else (send bytes >>= λ sent. loop c)

  -- The inner loop, over a buffer of 4096 bytes.
  pub send_value : ℕ → Cache → M W (Option Cache)
  unfolding send_more
  send_value zero c = pure none
  send_value (suc fuel) c = do r ← cache_pop host c 4096; send_more (send_value fuel) r.0 r.1 r.2

  -- The end of a turn of the outer loop: the answer's cache goes.
  pub release : Option Cache → M W (Option (Unit {0}))
  release none = pure none
  release (some c) = do
    deleted ← delete_cache host (some c)
    leave_cache host deleted
    pure (some tt)

  -- An answer with its cache.
  pub send_held : ℕ → Header → Cache → M W (Option (Unit {0}))
  unfolding send_value release
  send_held fuel header c = send (bytes_of_header header) >>= λ sent. send_value fuel c >>= release

  -- One turn of the outer loop.
  pub send_reply : ℕ → Hv → M W (Option (Unit {0}))
  unfolding send_held
  send_reply fuel resp = elim resp.value [
    | none ↦ pure (some tt)
    | some c ↦ send_held fuel resp.header c
  ]

  -- What the outer loop does after a turn.
  pub proceed : M W (Option (Unit {0})) → Option (Unit {0}) → M W (Option (Unit {0}))
  proceed loop none = pure none
  proceed loop (some u) = loop

  -- The outer loop, on the queue.
  pub send_loop : ℕ → List Hv → M W (Option (Unit {0}))
  unfolding send_reply proceed
  send_loop fuel [] = pure (some tt)
  send_loop fuel (resp ∷ rest) = send_reply fuel resp >>= proceed (send_loop fuel rest)
