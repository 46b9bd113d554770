-- ===== src/Select/Round.antt =====
-- A round of `do_select` in base_socket.cpp in which one event is due.
use socket_server.Prelude.{
  ℕ, zero, suc, ◌≡◌, refl, sym, ◌⊎◌, inl, inr, Bool, true, false, ◌||◌, Option, some, List, [], ◌∷◌,
  ◌==ℤ◌, ℤ, pos, M, pure, ◌>>◌, ok, arith, ◌∙◌, subst, Returns, Returns->>=, Returns-map,
  Bool-cases, Option-cases,
}
use socket_server.Cache.{Stdio}
use socket_server.Cp.{Net, is_set}
use socket_server.Virus.{Session}
use socket_server.BaseSocket.{Handler, Process, load, find, readable, writable}
use socket_server.BaseSocket.Map.{==ℤ-sound}
use socket_server.BaseSocket.Leave.{after_load}
use socket_server.Events.{handle_read_event, handle_write_event, handle_expt_event}
use socket_server.Select.{
  Turn, same_sock, next_sock, handed, hand_out, part, then_part, dispatch, then_next, dispatch_all,
  select_on, unless_empty, do_select, watch_all,
}

-- The same process, but for the mark.
pub record IsSame {W : Type 0} (p q : Process W) : Type 0 where
  pub objects : q.objects ≡ p.objects
  pub next : q.next ≡ p.next
  pub handlers : q.handlers ≡ p.handlers
  pub world : q.world ≡ p.world

pub IsSame-refl : {W : Type 0} (p : Process W) → IsSame p p
IsSame-refl p = record { objects = refl; next = refl; handlers = refl; world = refl }

IsSame-trans : {W : Type 0} (p q r : Process W) → IsSame p q → IsSame q r → IsSame p r
IsSame-trans p q r a b = record {
  objects = b.objects ∙ a.objects;
  next = b.next ∙ a.next;
  handlers = b.handlers ∙ a.handlers;
  world = b.world ∙ a.world;
}

module _ {W : Type 0} (net : Net W) (stdio : Stdio W) (fuel : ℕ) (session : Session) where
  abbrev P : Type 0 → Type 0
  P = M (Process W)

  -- The turn went on, or left the socket, with `n` events left.
  abbrev Left : ℕ → Turn → Type 0
  Left n t = (t ≡ same_sock n) ⊎ (t ≡ next_sock n)

  module _ (set : List ℤ) (able : Handler → Bool) (event : ℕ → P (Option (Unit {0}))) (s : ℤ) where
    -- No event is due for the socket in this set.
    pub part-skips :
        (n : ℕ) (q : Process W)
        → is_set s set ≡ false
        → Returns
            (part net stdio fuel session set able event s n q)
            (λ t q'. Left n t × IsSame q q')
    unfolding part hand_out load
    part-skips zero q h = (inl refl, IsSame-refl q)
    part-skips (suc n) q h = elim (Option-cases (find s q.handlers)) [
      | inl e ↦ rw (e, Returns) (inr refl, IsSame-refl q)
      | inr (o, e) ↦
          rw (e, h, Returns)
            (inl refl, record { objects = refl; next = refl; handlers = refl; world = refl })
    ]

    -- The same for a socket that the map has.
    pub part-passes :
        (n o : ℕ) (q : Process W)
        → is_set s set ≡ false
        → find s q.handlers ≡ some o
        → Returns
            (part net stdio fuel session set able event s (suc n) q)
            (λ t q'. (t ≡ same_sock (suc n)) × IsSame q q')
    unfolding part hand_out load
    part-passes n o q h e =
        rw (e, h, Returns)
          (refl, record { objects = refl; next = refl; handlers = refl; world = refl })

    then-skips :
        (n : ℕ) (t : Turn) (q : Process W)
        → is_set s set ≡ false
        → Left n t
        → Returns
            (then_part net stdio fuel session (part net stdio fuel session set able event s) t q)
            (λ t q'. Left n t × IsSame q q')
    unfolding then_part
    then-skips n t q h (inl e) = rw e (part-skips n q h)
    then-skips n t q h (inr e) = rw e (inr refl, IsSame-refl q)

    -- The event is due.
    pub part-hands :
        (n o : ℕ) (Q : Process W → Type 0) (q : Process W)
        → is_set s set ≡ true
        → find s q.handlers ≡ some o
        → able (q.objects o) ≡ true
        → Returns (event o (after_load q o)) (λ d q'. (d ≡ some tt) × Q q')
        → Returns
            (part net stdio fuel session set able event s (suc n) q)
            (λ t q'. (t ≡ same_sock n) × Q q')
    unfolding part hand_out load
    part-hands n o Q q h f a k =
        rw (f, h, a, Returns)
          (Returns->>= (event o) (λ d. pure (handed n d)) (λ d q'. (d ≡ some tt) × Q q')
            (λ t q'. (t ≡ same_sock n) × Q q') (after_load q o) k (λ d q' (e, h). (rw e refl, h)))

  module _ (r w e : List ℤ) (sock : ℤ) where
    abbrev Passed : ℕ → Process W → Turn → Process W → Type 0
    Passed n q t q' = Left n t × IsSame q q'

    -- A socket that is in no set.
    pub dispatch-skips :
        (s : ℤ) (n : ℕ) (q : Process W)
        → is_set s r ≡ false
        → is_set s w ≡ false
        → is_set s e ≡ false
        → Returns (dispatch net stdio fuel session r w e s n q) (Passed n q)
    unfolding dispatch
    dispatch-skips s n q hr hw he =
        Returns->>=
          (part net stdio fuel session r readable (handle_read_event net stdio fuel session) s n) _
          (Passed n q) (Passed n q) q (part-skips r readable _ s n q hr)
          (λ t q1 (l, a).
            Returns->>=
              (then_part net stdio fuel session
                (part net stdio fuel session w writable (handle_write_event net stdio fuel) s) t)
              _ (Passed n q) (Passed n q) q1
              (Returns-map (Passed n q1) (Passed n q) _ (then-skips w writable _ s n t q1 hw l)
                (λ t q2 (l', b). (l', IsSame-trans q q1 q2 a b)))
              (λ t q2 (l', b).
                Returns-map (Passed n q2) (Passed n q) _
                  (then-skips e (λ h. readable h || writable h)
                    (λ o. handle_expt_event net stdio fuel o >> pure (some tt)) s n t q2 he l')
                  (λ t q3 (l'', c). (l'', IsSame-trans q q2 q3 b c))))

    -- After the last event nothing is handed out.
    dispatch_all-idle :
        (socks : List ℤ) (q : Process W)
        → dispatch_all net stdio fuel session r w e socks 0 q ≡ ok (some tt, q)
    unfolding dispatch_all dispatch part then_part then_next
    dispatch_all-idle [] q = refl
    dispatch_all-idle (s ∷ socks) q = dispatch_all-idle socks q

    -- One event, for `sock`, is due.
    dispatch_all-one :
        (Q : Process W → Type 0) (q0 : Process W)
        → ((s : ℤ)
            → (s ==ℤ sock) ≡ false
            → (is_set s r ≡ false) × (is_set s w ≡ false) × (is_set s e ≡ false))
        → ((q : Process W)
            → IsSame q0 q
            → Returns
                (dispatch net stdio fuel session r w e sock 1 q)
                (λ t q'. (t ≡ same_sock 0) × Q q'))
        → (socks : List ℤ) (q : Process W) → is_set sock socks ≡ true
        → IsSame q0 q
        → Returns
            (dispatch_all net stdio fuel session r w e socks 1 q)
            (λ d q'. (d ≡ some tt) × Q q')
    unfolding dispatch_all is_set then_next
    dispatch_all-one Q q0 others one [] q h a = absurd (cc)
    dispatch_all-one Q q0 others one (s ∷ socks) q h a = elim (Bool-cases (s ==ℤ sock)) [
      | inl same ↦
          Returns->>= (dispatch net stdio fuel session r w e s 1)
            (then_next net stdio fuel session (dispatch_all net stdio fuel session r w e socks))
            (λ t q'. (t ≡ same_sock 0) × Q q') (λ d q'. (d ≡ some tt) × Q q') q
            (subst
              (λ x.
                Returns (dispatch net stdio fuel session r w e x 1 q)
                  (λ t q'. (t ≡ same_sock 0) × Q q'))
              (sym (==ℤ-sound s sock same)) (one q a))
            (λ t q' (e', k). rw (e', dispatch_all-idle socks q') (refl, k))
      | inr differs ↦
          let (hr, hw, he) = others s differs in
          let rest : is_set sock socks ≡ true = ground (arith, differs, h) in
          Returns->>= (dispatch net stdio fuel session r w e s 1)
            (then_next net stdio fuel session (dispatch_all net stdio fuel session r w e socks))
            (Passed 1 q) (λ d q'. (d ≡ some tt) × Q q') q (dispatch-skips s 1 q hr hw he)
            (λ t q' (l, b). elim l [
              | inl e' ↦
                  rw e' (dispatch_all-one Q q0 others one socks q' rest (IsSame-trans q0 q q' a b))
              | inr e' ↦
                  rw e' (dispatch_all-one Q q0 others one socks q' rest (IsSame-trans q0 q q' a b))
            ])
    ]

    -- `select` reports these sets, and one event.
    abbrev pub Reports : ℕ → Process W → Type 0
    Reports timeout p =
        let sets = watch_all p.objects p.handlers in
        (net.select sets.r sets.w sets.e timeout p.world).0 ≡ (pos 1, r, w, e)

    -- The process when `select` has returned.
    abbrev pub selected : ℕ → Process W → Process W
    selected timeout p =
        let sets = watch_all p.objects p.handlers in
        record p { world = (net.select sets.r sets.w sets.e timeout p.world).1 }

    pub unless_empty-some :
        (hs : List (ℤ × ℕ)) (go : P (Option (Unit {0}))) (o : ℕ)
        → find sock hs ≡ some o
        → unless_empty net stdio fuel session hs go ≡ go
    unfolding unless_empty find
    unless_empty-some [] go o h = absurd (cc)
    unless_empty-some (x ∷ hs) go o h = refl

    pub do_select-one :
        (timeout o : ℕ) (Q : Process W → Type 0) (p : Process W)
        → ((s : ℤ)
            → (s ==ℤ sock) ≡ false
            → (is_set s r ≡ false) × (is_set s w ≡ false) × (is_set s e ≡ false))
        → find sock p.handlers ≡ some o
        → is_set sock (watch_all p.objects p.handlers).select_socks ≡ true
        → ((watch_all p.objects p.handlers).max_fd ==ℤ pos 0) ≡ false
        → Reports timeout p
        → ((q : Process W)
            → IsSame (selected timeout p) q
            → Returns
                (dispatch net stdio fuel session r w e sock 1 q)
                (λ t q'. (t ≡ same_sock 0) × Q q'))
        → Returns (do_select net stdio fuel session timeout p) (λ d q. (d ≡ some tt) × Q q)
    unfolding do_select select_on
    do_select-one timeout o Q p others f member fd reported one =
        rw (unless_empty-some p.handlers _ o f, fd, reported)
          (dispatch_all-one Q (selected timeout p) others one
            (watch_all p.objects p.handlers).select_socks (selected timeout p) member
            (IsSame-refl (selected timeout p)))
