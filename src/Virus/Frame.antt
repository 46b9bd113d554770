-- ===== src/Virus/Frame.antt =====
-- What the loops of virus_handler.cpp keep: whatever the host and the socket keep.
use socket_server.Prelude.{
  ℕ, zero, suc, ℤ, List, [], ◌∷◌, Option, none, some, M, Keeps, Keeps-option, Keeps-bind,
  keeps_rules,
}
use socket_server.Cache.{Stdio, Cache}
use socket_server.Cache.Frame.{HostKeeps, leave_cache-Keeps, cache_pop-Keeps, delete_cache-Keeps}
use socket_server.Wire.{Header, State}
use socket_server.Hv.{Hv}
use socket_server.Hv.Frame.{clear-Keeps, write-Keeps, write_message-Keeps}
use socket_server.Virus.{
  Session, request, response, answer, fail, written, go_on, read_turn, read_loop, send_more,
  send_value, release, send_held, send_reply, proceed, send_loop,
}

module _ {W : Type 0} (host : Stdio W) {P : W → Type 0} (k : HostKeeps host P) where
  response-Keeps : (s : Session) (req : Hv) (state : State) → Keeps P (response host s req state)
  unfolding response
  response-Keeps s req state = search (keeps_rules, write_message-Keeps host k)

  written-Keeps : (s : Session) → Keeps P (written host s)
  unfolding written answer request
  written-Keeps s = search (keeps_rules, clear-Keeps host k, response-Keeps)

  fail-Keeps : (s : Session) → Keeps P (fail host s)
  unfolding fail
  fail-Keeps s = search (keeps_rules, clear-Keeps host k, response-Keeps)

  go_on-Keeps :
      (loop : Session → List ℕ → M W (Option Session)) (buf : List ℕ) (s : Session)
      → ((t : Session) (l : List ℕ) → Keeps P (loop t l))
      → Keeps P (go_on host loop buf s)
  unfolding go_on
  go_on-Keeps loop [] s next = search keeps_rules
  go_on-Keeps loop (b ∷ bs) s next = next s (b ∷ bs)

  read_turn-Keeps :
      (loop : Session → List ℕ → M W (Option Session)) (s : Session) (buf : List ℕ) (r : Hv × ℤ)
      → ((t : Session) (l : List ℕ) → Keeps P (loop t l))
      → Keeps P (read_turn host loop s buf r)
  unfolding read_turn
  read_turn-Keeps loop s buf r next =
      search (keeps_rules, fail-Keeps, written-Keeps, go_on-Keeps, next)

  pub read_loop-Keeps :
      (fuel : ℕ) (s : Session) (buf : List ℕ) → Keeps P (read_loop host fuel s buf)
  unfolding read_loop
  read_loop-Keeps zero s buf = search keeps_rules
  read_loop-Keeps (suc fuel) s buf =
      search (keeps_rules, write-Keeps host k, read_turn-Keeps, read_loop-Keeps fuel)

  module _ (send : List ℕ → M W ℤ) (keeps : (bytes : List ℕ) → Keeps P (send bytes)) where
    send_more-Keeps :
        (loop : Cache → M W (Option Cache)) (c : Cache) (n : ℕ) (bytes : List ℕ)
        → ((c' : Cache) → Keeps P (loop c'))
        → Keeps P (send_more host send loop c n bytes)
    unfolding send_more
    send_more-Keeps loop c zero bytes next = search keeps_rules
    send_more-Keeps loop c (suc n) bytes next = search (keeps_rules, keeps, next)

    send_value-Keeps : (fuel : ℕ) (c : Cache) → Keeps P (send_value host send fuel c)
    unfolding send_value
    send_value-Keeps zero c = search keeps_rules
    send_value-Keeps (suc fuel) c =
        search (keeps_rules, cache_pop-Keeps host k, send_more-Keeps, send_value-Keeps fuel)

    release-Keeps : (o : Option Cache) → Keeps P (release host send o)
    unfolding release
    release-Keeps none = search keeps_rules
    release-Keeps (some c) =
        search (keeps_rules, delete_cache-Keeps host k, leave_cache-Keeps host k)

    send_held-Keeps :
        (fuel : ℕ) (header : Header) (c : Cache) → Keeps P (send_held host send fuel header c)
    unfolding send_held
    send_held-Keeps fuel header c = search (keeps_rules, keeps, send_value-Keeps, release-Keeps)

    send_reply-Keeps : (fuel : ℕ) (resp : Hv) → Keeps P (send_reply host send fuel resp)
    unfolding send_reply
    send_reply-Keeps fuel resp =
        Keeps-option resp.value _ _ (search keeps_rules) (send_held-Keeps fuel resp.header)

    proceed-Keeps :
        (loop : M W (Option (Unit {0}))) (o : Option (Unit {0}))
        → Keeps P loop
        → Keeps P (proceed host send loop o)
    unfolding proceed
    proceed-Keeps loop none h = search keeps_rules
    proceed-Keeps loop (some u) h = h

    pub send_loop-Keeps : (fuel : ℕ) (resp : List Hv) → Keeps P (send_loop host send fuel resp)
    unfolding send_loop
    send_loop-Keeps fuel [] = search keeps_rules
    send_loop-Keeps fuel (r ∷ rest) =
        Keeps-bind (send_reply host send fuel r) (proceed host send (send_loop host send fuel rest))
          (send_reply-Keeps fuel r)
          (λ o. proceed-Keeps (send_loop host send fuel rest) o (send_loop-Keeps fuel rest))
