-- ===== src/Select.antt =====
-- `do_select` and `loop` of doc_ferry_server/src/base_socket.cpp, and `main` of main.cpp: which sockets
-- are watched, and which handler each event goes to. A set of descriptors is the list of its members.
pub mod Watch
pub mod Leave
pub mod Frame
pub mod Round
pub mod Due
pub mod Exchange
pub mod Meet
pub mod Welcome
pub mod Piece
pub mod Feed
use socket_server.Prelude.{
  ℕ, zero, suc, ◌-◌, ◌*◌, Bool, true, false, ◌&&◌, ◌||◌, not, Option, none, some, List, [], ◌∷◌,
  ◌==ℤ◌, ltb_ℤ, ◌==◌, if◌then◌else◌, ℤ, pos, to_ℕ, M, pure, call, run, ◌>>=◌, ◌>>◌,
}
use socket_server.Cache.{Stdio}
use socket_server.Cp.{Net, is_set}
use socket_server.Virus.{Session}
use socket_server.BaseSocket.{Handler, Process, lift_net, load, find, readable, writable}
use socket_server.Events.{handle_read_event, handle_write_event, handle_expt_event}
use socket_server.Setup.{new_tcp_server, delete_tcp_server}

-- What the first loop of `do_select` fills.
pub record Sets : Type 0 where
  pub r : List ℤ
  pub w : List ℤ
  pub e : List ℤ
  pub select_socks : List ℤ
  pub max_fd : ℤ

abbrev max_ℤ : ℤ → ℤ → ℤ
max_ℤ a b = if ltb_ℤ a b then b else a

abbrev add_if : Bool → ℤ → List ℤ → List ℤ
add_if true sock rest = sock ∷ rest
add_if false sock rest = rest

-- One handler of the loop, in front of the ones behind it. The sets have no bound: that FD_SET of a
-- descriptor from FD_SETSIZE on writes outside of its set is not modelled.
unfoldable pub watch : ℤ → Handler → Sets → Sets
unfolding readable writable
watch sock h rest =
    let isr = readable h in
    let isw = writable h in
    record {
      r = add_if isr sock rest.r;
      w = add_if (isw && not h.accepting) sock rest.w;
      e = add_if (isr || isw) sock rest.e;
      select_socks = add_if (isr || isw) sock rest.select_socks;
      max_fd = if isr || isw then max_ℤ rest.max_fd sock else rest.max_fd;
    }

unfoldable pub watch_all : (ℕ → Handler) → List (ℤ × ℕ) → Sets
unfolding watch
watch_all objects [] = record { r = []; w = []; e = []; select_socks = []; max_fd = pos 0 }
watch_all objects ((sock, o) ∷ rest) = watch sock (objects o) (watch_all objects rest)

-- What one of the three parts of the dispatch does: `continue`, or on with the events that are left,
-- or a loop inside of the handler ran out of fuel.
pub data Turn : Type 0 where
  next_sock : ℕ → Turn
  same_sock : ℕ → Turn
  out_of_fuel : Turn

-- After an event, with `n` left.
abbrev handed : ℕ → Option (Unit {0}) → Turn
handed n none = out_of_fuel
handed n (some u) = same_sock n

module _ {W : Type 0} (net : Net W) (stdio : Stdio W) (fuel : ℕ) (session : Session) where
  abbrev P : Type 0 → Type 0
  P = M (Process W)

  -- A handler for which an event was due.
  unfoldable pub hand_out :
      List ℤ → (Handler → Bool) → (ℕ → P (Option (Unit {0}))) → ℤ → ℕ → Option ℕ → P Turn
  unfolding load
  hand_out set able event sock n none = pure (next_sock (suc n))
  hand_out set able event sock n (some o) = do
    h ← load o
    if is_set sock set && able h
        then (event o >>= λ done. pure (handed n done))
        else pure (same_sock (suc n))

  -- One part of the dispatch, for the events in `set`, with `retv` events left.
  unfoldable pub part : List ℤ → (Handler → Bool) → (ℕ → P (Option (Unit {0}))) → ℤ → ℕ → P Turn
  unfolding find hand_out
  part set able event sock zero = pure (same_sock zero)
  part set able event sock (suc n) = do
    itr ← call (λ p. (find sock p.handlers, p))
    hand_out set able event sock n itr

  -- On with the next part, if this one did not leave the socket.
  unfoldable pub then_part : (ℕ → P Turn) → Turn → P Turn
  then_part go (next_sock n) = pure (next_sock n)
  then_part go (same_sock n) = go n
  then_part go out_of_fuel = pure out_of_fuel

  -- The body of the dispatch loop.
  unfoldable pub dispatch : List ℤ → List ℤ → List ℤ → ℤ → ℕ → P Turn
  unfolding part then_part
  dispatch r w e sock retv = do
    read ← part r readable (handle_read_event net stdio fuel session) sock retv
    wrote ← then_part (part w writable (handle_write_event net stdio fuel) sock) read
    then_part
        (part e (λ h. readable h || writable h)
          (λ o. handle_expt_event net stdio fuel o >> pure (some tt)) sock)
        wrote

  -- On with the next socket.
  unfoldable pub then_next : (ℕ → P (Option (Unit {0}))) → Turn → P (Option (Unit {0}))
  then_next go (next_sock n) = go n
  then_next go (same_sock n) = go n
  then_next go out_of_fuel = pure none

  -- `none` means that a handler's loop ran out of fuel.
  unfoldable pub dispatch_all : List ℤ → List ℤ → List ℤ → List ℤ → ℕ → P (Option (Unit {0}))
  unfolding dispatch then_next
  dispatch_all r w e [] retv = pure (some tt)
  dispatch_all r w e (sock ∷ socks) retv =
      dispatch r w e sock retv >>= then_next (dispatch_all r w e socks)

  -- After the first loop, on a map that is not empty. Errors of `select` end the round as a timeout
  -- does.
  unfoldable pub select_on : Sets → ℕ → P (Option (Unit {0}))
  unfolding dispatch_all
  select_on sets timeout_ms =
      if sets.max_fd ==ℤ pos 0
      then run ((lift_net net).usleep (timeout_ms * 1000)) >> pure (some tt)
      else (do
        ready ← call ((lift_net net).select sets.r sets.w sets.e timeout_ms)
        dispatch_all ready.1 ready.2 ready.3 sets.select_socks (to_ℕ ready.0))

  -- A map with no handlers, and one with some.
  unfoldable pub unless_empty : List (ℤ × ℕ) → P (Option (Unit {0})) → P (Option (Unit {0}))
  unless_empty [] go = pure (some tt)
  unless_empty (h ∷ hs) go = go

  unfoldable pub do_select : ℕ → P (Option (Unit {0}))
  unfolding watch_all select_on unless_empty
  do_select timeout_ms = do
    handlers ← call (λ p. (p.handlers, p))
    sets ← call (λ p. (watch_all p.objects p.handlers, p))
    unless_empty handlers (select_on sets timeout_ms)

  unfoldable pub and_then : P (Option (Unit {0})) → Option (Unit {0}) → P (Option (Unit {0}))
  and_then go none = pure none
  and_then go (some u) = go

  -- The rounds of `loop`, until the map is empty or `rounds` are over. With `count` 0 the code goes on
  -- without end, which any number of rounds stands for.
  unfoldable pub rounds : ℕ → ℕ → P (Option (Unit {0}))
  unfolding do_select unless_empty and_then
  rounds zero timeout_ms = pure (some tt)
  rounds (suc n) timeout_ms = do
    handlers ← call (λ p. (p.handlers, p))
    unless_empty handlers (do_select timeout_ms >>= and_then (rounds n timeout_ms))

  -- `main`: a server on port 7890, and `loop` with a minute's timeout. When that returns, the server
  -- is destroyed.
  unfoldable pub main : ℕ → P (Option (Unit {0}))
  unfolding rounds
  main n = do
    srv ← new_tcp_server net session none 7890
    done ← rounds n 60000
    delete_tcp_server net srv
    pure done
