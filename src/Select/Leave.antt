-- ===== src/Select/Leave.antt =====
-- The dispatch of `do_select` in base_socket.cpp for a client that leaves.
use socket_server.Prelude.{
  ℕ, zero, suc, ◌≡◌, refl, ◌⊎◌, inl, inr, true, Bool, none, some, Option, List, ◌||◌, ℤ, Returns,
  ap, ◌∙◌, Returns->>=, Returns-map, M, pure, ◌>>=◌, ◌>>◌, sym, subst,
}
use socket_server.Cache.{Stdio}
use socket_server.Cp.{is_set, Net}
use socket_server.Virus.{Session}
use socket_server.BaseSocket.{Handler, Process, load, find, readable, writable}
use socket_server.BaseSocket.Map.{IsMap, find-removed}
use socket_server.BaseSocket.Leave.{IsLeaving, HasLeft, after_load, load-IsLeaving, HasLeft-load}
use socket_server.Events.{handle_read_event, handle_write_event, handle_expt_event}
use socket_server.Events.Leave.{IsServing, handle_read_event-HasLeft}
use socket_server.Select.{Turn, same_sock, next_sock, part, then_part, dispatch}

module _ {W : Type 0} (net : Net W) (stdio : Stdio W) (fuel : ℕ) (session : Session) where
  abbrev P : Type 0 → Type 0
  P = M (Process W)

  -- No event of a socket that the map does not have.
  part-gone :
      (set : List ℤ) (able : Handler → Bool) (event : ℕ → P (Option (Unit {0}))) (sock : ℤ) (n : ℕ)
      (q : Process W)
      → find sock q.handlers ≡ none
      → Returns
          (then_part net stdio fuel session
            (part net stdio fuel session set able event sock)
            (same_sock n)
            q)
          (λ t q'. ((t ≡ same_sock n) ⊎ (t ≡ next_sock n)) × (q' ≡ q))
  unfolding part then_part
  part-gone set able event sock zero q g = (inl refl, refl)
  part-gone set able event sock (suc n) q g = rw (g, Returns) (inr refl, refl)

  part-HasLeft :
      (set : List ℤ) (n : ℕ) (p : Process W) (this : ℕ)
      → is_set (p.objects this).sock set ≡ true
      → readable (p.objects this) ≡ true
      → IsServing p this
      → IsLeaving net 65535 p this
      → Returns
          (part net stdio fuel session set readable
            (handle_read_event net stdio fuel session)
            (p.objects this).sock
            (suc n)
            p)
          (λ t q. (t ≡ same_sock n) × HasLeft net 65535 p this q)
  unfolding part load
  part-HasLeft set n p this i a s v =
      rw (v.registered.held, i, a, Returns)
        (Returns->>= (handle_read_event net stdio fuel session this) _
          (λ d q. (d ≡ some tt) × HasLeft net 65535 (after_load p this) this q) _
          (after_load p this)
          (handle_read_event-HasLeft net stdio fuel session (after_load p this) this
            (record { class = s.class; connected = s.connected; accepting = s.accepting })
            (load-IsLeaving net 65535 p this v))
          (λ d q (e, h). rw e (refl, HasLeft-load net 65535 p this q h)))

  -- The part after one that found the socket gone, or left it before.
  part-left :
      (set : List ℤ) (able : Handler → Bool) (event : ℕ → P (Option (Unit {0}))) (sock : ℤ) (n : ℕ)
      (q : Process W) (t : Turn)
      → find sock q.handlers ≡ none
      → (t ≡ same_sock n) ⊎ (t ≡ next_sock n)
      → Returns
          (then_part net stdio fuel session (part net stdio fuel session set able event sock) t q)
          (λ t q'. ((t ≡ same_sock n) ⊎ (t ≡ next_sock n)) × (q' ≡ q))
  unfolding then_part
  part-left set able event sock n q t g (inl e) = rw e (part-gone set able event sock n q g)
  part-left set able event sock n q t g (inr e) = rw e (inr refl, refl)

  -- Two of them.
  parts-left :
      (set set' : List ℤ) (able able' : Handler → Bool) (event event' : ℕ → P (Option (Unit {0})))
      (sock : ℤ) (n : ℕ) (q : Process W) (t : Turn)
      → find sock q.handlers ≡ none
      → (t ≡ same_sock n) ⊎ (t ≡ next_sock n)
      → Returns
          ((then_part net stdio fuel session (part net stdio fuel session set able event sock) t
              >>= λ t'.
                  then_part net stdio fuel session
                    (part net stdio fuel session set' able' event' sock)
                    t')
            q)
          (λ t q'. ((t ≡ same_sock n) ⊎ (t ≡ next_sock n)) × (q' ≡ q))
  parts-left set set' able able' event event' sock n q t g c =
      Returns->>=
        (then_part net stdio fuel session (part net stdio fuel session set able event sock) t) _
        (λ t q'. ((t ≡ same_sock n) ⊎ (t ≡ next_sock n)) × (q' ≡ q)) _ q
        (part-left set able event sock n q t g c)
        (λ t' q' (c', e). rw e (part-left set' able' event' sock n q t' g c'))

  -- A turn of the dispatch for a connected VirusHandler whose peer has closed, on a map with one entry
  -- for a socket, with its socket in the set for reading and an event left: it uses up one event and
  -- hands out no other, whatever the other sets hold. The handler leaves the map and is destroyed, and
  -- then the turn uses the destroyed object, which is marked: it reads the socket's number from it.
  -- What the turn does to the world is to receive, and to close the descriptor of that number, the
  -- handler's own as far as the freed memory still holds it.
  pub dispatch-HasLeft :
      (r w e : List ℤ) (n : ℕ) (p : Process W) (this : ℕ)
      → IsMap p.handlers
      → is_set (p.objects this).sock r ≡ true
      → readable (p.objects this) ≡ true
      → IsServing p this
      → IsLeaving net 65535 p this
      → Returns
          (dispatch net stdio fuel session r w e (p.objects this).sock (suc n) p)
          (λ t q. ((t ≡ same_sock n) ⊎ (t ≡ next_sock n)) × HasLeft net 65535 p this q)
  unfolding dispatch
  dispatch-HasLeft r w e n p this m i a s v =
      Returns->>=
        (part net stdio fuel session r readable (handle_read_event net stdio fuel session)
          (p.objects this).sock (suc n))
        _ (λ t q. (t ≡ same_sock n) × HasLeft net 65535 p this q) _ p
        (part-HasLeft r n p this i a s v)
        (λ t q (c, h).
          Returns-map (λ t q'. ((t ≡ same_sock n) ⊎ (t ≡ next_sock n)) × (q' ≡ q))
            (λ t q'. ((t ≡ same_sock n) ⊎ (t ≡ next_sock n)) × HasLeft net 65535 p this q') _
            (parts-left w e writable (λ h. readable h || writable h)
              (handle_write_event net stdio fuel)
              (λ o. handle_expt_event net stdio fuel o >> pure (some tt)) (p.objects this).sock n q
              t
              (ap (find (p.objects this).sock) h.handlers
                ∙ find-removed (p.objects this).sock p.handlers m)
              (inl c))
            (λ t' q' (c', k). (c', subst (HasLeft net 65535 p this) (sym k) h)))
