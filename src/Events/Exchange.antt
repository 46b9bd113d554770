-- ===== src/Events/Exchange.antt =====
-- The write event behind a read event: the answers that a client gets for its requests.
use socket_server.Prelude.{
  ℕ, ◌<◌, ◌≡◌, true, false, Option, List, [], ◌∷◌, ◌++◌, map, ℤ, Returns, ap, ◌∙◌, sym, subst,
  Returns-map, is_some,
}
use socket_server.Cache.{Stdio}
use socket_server.Cp.{Net}
use socket_server.Wire.{state_ok, state_code, bytes_of_word}
use socket_server.Hv.{Hv}
use socket_server.Virus.{state_size}
use socket_server.Virus.Read.{Message, Replies, stream}
use socket_server.Virus.Send.{AllReady, Below}
use socket_server.BaseSocket.{Handler, Process, virus_handler}
use socket_server.Events.{handle_write_event}
use socket_server.Events.Leave.{IsServing}
use socket_server.Events.Serve.{HasServed}
use socket_server.Events.Deliver.{TakesAll, HasSent, handle_write_event-HasSent}

-- The answer to a request, as it goes over the wire: its id, and state OK in the host's order.
abbrev pub ok_reply : Message → Message
ok_reply m = record {
  header = record { id = m.header.id; length = state_size };
  value = bytes_of_word (state_code state_ok);
}

Replies-AllReady :
    (ms : List Message) (rs : List Hv) → Replies ms rs → AllReady (map ok_reply ms) rs
Replies-AllReady [] [] h = tt
Replies-AllReady [] (r ∷ rs) h = absurd h
Replies-AllReady (m ∷ ms) [] h = absurd h
Replies-AllReady (m ∷ ms) (r ∷ rs) h = (h.0, Replies-AllReady ms rs h.1)

Below-ok_reply : (fuel : ℕ) (ms : List Message) → 4 < fuel → Below fuel (map ok_reply ms)
unfolding bytes_of_word
Below-ok_reply fuel [] h = tt
Below-ok_reply fuel (m ∷ ms) h = (h, Below-ok_reply fuel ms h)

module _ {W : Type 0} (net : Net W) (stdio : Stdio W) (sent : ℤ → W → List ℕ)
    (all : TakesAll net stdio sent) (fuel : ℕ) where
  -- The write event, after the read event has left a handler like `h` with the answers.
  pub answered :
      (h : Handler) (x : List ℕ) (this : ℕ) (ms : List Message) (d : Option (Unit {0}))
      (q : Process W)
      → 4 < fuel
      → (h.class ≡ virus_handler) × (h.connected ≡ true) × (h.accepting ≡ false)
      → h.session.resp ≡ []
      → HasServed h this ms d q
      → sent h.sock q.world ≡ x
      → Returns (handle_write_event net stdio fuel this q) (λ e q'.
        (is_some e ≡ true)
        × (sent h.sock q'.world ≡ x ++ stream (map ok_reply ms))
        × ((q'.objects this).session.resp ≡ []))
  answered h x this ms d q f c none_yet (done, (t, (rs, (start, queued), replies), same)) e =
      let serving : IsServing q this = record {
        class = ap (λ (o : Handler). o.class) same ∙ c.0;
        connected = ap (λ (o : Handler). o.connected) same ∙ c.1;
        accepting = ap (λ (o : Handler). o.accepting) same ∙ c.2;
      } in
      let sock : (q.objects this).sock ≡ h.sock = ap (λ (o : Handler). o.sock) same in
      let waiting : (q.objects this).session.resp ≡ rs =
        ap (λ (o : Handler). o.session.resp) same ∙ queued ∙ ap (λ l. l ++ rs) none_yet in
      let bytes = stream (map ok_reply ms) in
      Returns-map (HasSent net stdio sent all this bytes q) _ _
        (handle_write_event-HasSent net stdio sent all fuel this (map ok_reply ms) q serving
          (subst (AllReady (map ok_reply ms)) (sym waiting) (Replies-AllReady ms rs replies))
          (Below-ok_reply fuel ms f))
        (λ o q' (ended, out, empty, k). (
          ended,
          subst (λ s. sent s q'.world ≡ sent s q.world ++ bytes) sock out ∙ ap (λ l. l ++ bytes) e,
          empty,
        ))
