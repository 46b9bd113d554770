-- ===== src/Select/Frame.antt =====
-- Every state that `main` reaches has a map that owns its handlers.
use socket_server.Prelude.{
  ℕ, zero, suc, ◌≡◌, Bool, Option, none, some, List, [], ◌∷◌, ℤ, M, Keeps, Keeps-bind, Keeps-pure,
  IfOk, arith, ◌||◌, keeps_rules, pure, call, ◌>>=◌, ◌>>◌,
}
use socket_server.Cache.{Stdio}
use socket_server.Cp.{Net}
use socket_server.Cp.Frame.{NetKeeps}
use socket_server.Virus.{Session}
use socket_server.BaseSocket.{Handler, Process, lift_net, readable, writable}
use socket_server.BaseSocket.Owned.{IsOwned, IsOwned-IsFrame, lift_net-Keeps}
use socket_server.BaseSocket.Frame.{load-Keeps}
use socket_server.BaseSocket.{find}
use socket_server.BaseSocket.Map.{IsMap}
use socket_server.Setup.{new_tcp_server, delete_tcp_server}
use socket_server.Setup.Frame.{new_tcp_server-Keeps, delete_tcp_server-Keeps}
use socket_server.Events.{handle_read_event, handle_write_event, handle_expt_event}
use socket_server.Events.Frame.{
  handle_read_event-Keeps, handle_write_event-Keeps, handle_expt_event-Keeps,
}
use socket_server.Select.{
  Sets, Turn, next_sock, same_sock, out_of_fuel, hand_out, part, then_part, dispatch, then_next,
  dispatch_all, select_on, unless_empty, do_select, and_then, rounds, main,
}

module _ {W : Type 0} (net : Net W) (stdio : Stdio W) (fuel : ℕ) (session : Session) where
  abbrev P : Type 0 → Type 0
  P = M (Process W)

  keeps : NetKeeps (lift_net net) (IsOwned {W = W})
  keeps = lift_net-Keeps (IsOwned-IsFrame W) net

  same_world : (p : Process W) → IsOwned p → IsOwned p
  same_world p h = h

  module _ (set : List ℤ) (able : Handler → Bool) (event : ℕ → P (Option (Unit {0})))
      (kept : (o : ℕ) → Keeps (IsOwned {W = W}) (event o)) where
    hand_out-Keeps :
        (sock : ℤ) (n : ℕ) (o : Option ℕ)
        → Keeps (IsOwned {W = W}) (hand_out net stdio fuel session set able event sock n o)
    unfolding hand_out
    hand_out-Keeps sock n none = search keeps_rules
    hand_out-Keeps sock n (some o) = search (keeps_rules, load-Keeps, kept) depth 9

    part-Keeps :
        (sock : ℤ) (n : ℕ)
        → Keeps (IsOwned {W = W}) (part net stdio fuel session set able event sock n)
    unfolding part
    part-Keeps sock zero = search keeps_rules
    part-Keeps sock (suc n) = search (keeps_rules, same_world, hand_out-Keeps)

  then_part-Keeps :
      (go : ℕ → P Turn) (t : Turn)
      → ((n : ℕ) → Keeps (IsOwned {W = W}) (go n))
      → Keeps (IsOwned {W = W}) (then_part net stdio fuel session go t)
  unfolding then_part
  then_part-Keeps go (next_sock n) h = search keeps_rules
  then_part-Keeps go (same_sock n) h = h n
  then_part-Keeps go out_of_fuel h = search keeps_rules

  expt-Keeps :
      (o : ℕ)
      → Keeps
          (IsOwned {W = W})
          (handle_expt_event net stdio fuel o >> pure {A = Option (Unit {0})} (some tt))
  expt-Keeps o = search (keeps_rules, handle_expt_event-Keeps net stdio fuel)

  dispatch-Keeps :
      (r w e : List ℤ) (sock : ℤ) (n : ℕ)
      → Keeps (IsOwned {W = W}) (dispatch net stdio fuel session r w e sock n)
  unfolding dispatch
  dispatch-Keeps r w e sock n =
      Keeps-bind _ _
        (part-Keeps r readable (handle_read_event net stdio fuel session)
          (handle_read_event-Keeps net stdio fuel session) sock n)
        (λ t.
          Keeps-bind _ _
            (then_part-Keeps _ t (
              part-Keeps w writable (handle_write_event net stdio fuel)
                (handle_write_event-Keeps net stdio fuel) sock))
            (λ t'. then_part-Keeps _ t' (
              part-Keeps e (λ h. readable h || writable h)
                (λ o. handle_expt_event net stdio fuel o >> pure (some tt)) expt-Keeps sock)))

  then_next-Keeps :
      (go : ℕ → P (Option (Unit {0}))) (t : Turn)
      → ((n : ℕ) → Keeps (IsOwned {W = W}) (go n))
      → Keeps (IsOwned {W = W}) (then_next net stdio fuel session go t)
  unfolding then_next
  then_next-Keeps go (next_sock n) h = h n
  then_next-Keeps go (same_sock n) h = h n
  then_next-Keeps go out_of_fuel h = search keeps_rules

  dispatch_all-Keeps :
      (r w e socks : List ℤ) (n : ℕ)
      → Keeps (IsOwned {W = W}) (dispatch_all net stdio fuel session r w e socks n)
  unfolding dispatch_all
  dispatch_all-Keeps r w e [] n = search keeps_rules
  dispatch_all-Keeps r w e (sock ∷ socks) n =
      Keeps-bind (dispatch net stdio fuel session r w e sock n) _ (dispatch-Keeps r w e sock n)
        (λ t.
          then_next-Keeps (dispatch_all net stdio fuel session r w e socks) t
            (dispatch_all-Keeps r w e socks))

  select_on-Keeps :
      (sets : Sets) (timeout : ℕ)
      → Keeps (IsOwned {W = W}) (select_on net stdio fuel session sets timeout)
  unfolding select_on
  select_on-Keeps sets timeout =
      search (keeps_rules, keeps.usleep, keeps.select, dispatch_all-Keeps) depth 9

  unless_empty-Keeps :
      (hs : List (ℤ × ℕ)) (go : P (Option (Unit {0})))
      → Keeps (IsOwned {W = W}) go
      → Keeps (IsOwned {W = W}) (unless_empty net stdio fuel session hs go)
  unfolding unless_empty
  unless_empty-Keeps [] go h = search keeps_rules
  unless_empty-Keeps (x ∷ xs) go h = h

  pub do_select-Keeps :
      (timeout : ℕ) → Keeps (IsOwned {W = W}) (do_select net stdio fuel session timeout)
  unfolding do_select
  do_select-Keeps timeout =
      search (keeps_rules, same_world, unless_empty-Keeps, select_on-Keeps) depth 9

  and_then-Keeps :
      (go : P (Option (Unit {0}))) (o : Option (Unit {0}))
      → Keeps (IsOwned {W = W}) go
      → Keeps (IsOwned {W = W}) (and_then net stdio fuel session go o)
  unfolding and_then
  and_then-Keeps go none h = search keeps_rules
  and_then-Keeps go (some u) h = h

  rounds-Keeps : (n timeout : ℕ) → Keeps (IsOwned {W = W}) (rounds net stdio fuel session n timeout)
  unfolding rounds
  rounds-Keeps zero timeout = search keeps_rules
  rounds-Keeps (suc n) timeout =
      Keeps-bind (call (λ p. (p.handlers, p))) _ (search (keeps_rules, same_world)) (λ hs.
        unless_empty-Keeps hs _ (
          Keeps-bind (do_select net stdio fuel session timeout) _ (do_select-Keeps timeout) (λ o.
            and_then-Keeps (rounds net stdio fuel session n timeout) o (rounds-Keeps n timeout))))

  start-IsOwned : (p : Process W) → p.handlers ≡ [] → IsOwned p
  unfolding IsMap find
  start-IsOwned p e = record {
    one_entry = rw e tt;
    alive = λ s o f. ground (arith, e);
    same_sock = λ s o f. ground (arith, e);
    allocated = λ s o f. ground (arith, e);
  }

  -- From a process with no handlers, whatever the network, the library and the number of rounds: when
  -- the rounds of `main` are over, and when `main` has destroyed its server, if no undefined behaviour
  -- ended the run, each socket has at most one entry in the map, and the handler of an entry is an
  -- object that is allocated and not destroyed, and has the socket that it is filed under.
  pub main-IsOwned :
      (n : ℕ) (p : Process W)
      → p.handlers ≡ []
      → IfOk
          (λ o q. IsOwned q)
          ((new_tcp_server net session none 7890 >>= λ srv. rounds net stdio fuel session n 60000)
            p)
        × IfOk (λ o q. IsOwned q) (main net stdio fuel session n p)
  unfolding main
  main-IsOwned n p e =
      let begun : Keeps IsOwned (new_tcp_server net session none 7890) =
        new_tcp_server-Keeps net session none 7890 in
      let looped : Keeps IsOwned
          (new_tcp_server net session none 7890 >>= λ srv. rounds net stdio fuel session n 60000) =
        search (keeps_rules, begun, rounds-Keeps) in
      let whole : Keeps IsOwned (main net stdio fuel session n) =
        Keeps-bind (new_tcp_server net session none 7890) _ begun (λ srv.
          Keeps-bind (rounds net stdio fuel session n 60000) _ (rounds-Keeps n 60000) (λ done.
            Keeps-bind (delete_tcp_server net srv) (λ u. pure done)
              (delete_tcp_server-Keeps net srv) (λ u. Keeps-pure done))) in
      (looped.at p (start-IsOwned p e), whole.at p (start-IsOwned p e))
