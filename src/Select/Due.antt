-- ===== src/Select/Due.antt =====
-- The dispatch of one event in base_socket.cpp to the handler of a valid socket.
use socket_server.Prelude.{
  ℕ, suc, ◌≤◌, ◌≡◌, refl, sym, ◌⊎◌, inl, inr, true, false, Option, some, List, [], ◌∷◌, ◌==ℤ◌, ℤ,
  pos, negsuc, arith, ap, ◌∙◌, subst, Returns, Returns->>=, Bool-cases,
}
use socket_server.Cache.{Stdio}
use socket_server.Cp.{Net, is_set, cp_socket_valid}
use socket_server.Virus.{Session}
use socket_server.BaseSocket.{Handler, Process, find, readable, writable}
use socket_server.BaseSocket.Map.{==ℤ-sound}
use socket_server.BaseSocket.Owned.{IsOwned}
use socket_server.BaseSocket.Leave.{after_load}
use socket_server.Events.{handle_read_event, handle_write_event}
use socket_server.Select.{
  rounds, and_then, same_sock, part, then_part, dispatch, do_select, watch_all, max_ℤ,
}
use socket_server.Select.Watch.{Entry, for_expt, watch_all-Exactly}
use socket_server.Select.Round.{
  unless_empty-some, IsSame, part-passes, part-hands, Reports, selected, do_select-one,
}

find-Entry : (s : ℤ) (o : ℕ) (hs : List (ℤ × ℕ)) → find s hs ≡ some o → Entry s o hs
unfolding find
find-Entry s o [] e = absurd (cc)
find-Entry s o ((s', o') ∷ rest) e = elim (Bool-cases (s' ==ℤ s)) [
  | inl same ↦ inl (sym (==ℤ-sound s' s same), ground (arith, same, e))
  | inr differs ↦ inr (find-Entry s o rest (ground (arith, differs, e)))
]

-- At least the number `k`.
abbrev AtLeast : ℕ → ℤ → Type 0
AtLeast k (pos n) = k ≤ n
AtLeast k (negsuc n) = ⊥

AtLeast-max : (k : ℕ) (a b : ℤ) → AtLeast k a ⊎ AtLeast k b → AtLeast k (max_ℤ a b)
AtLeast-max k (pos a) (pos b) h = ground (arith, h)
AtLeast-max k (pos a) (negsuc b) (inl h) = h
AtLeast-max k (pos a) (negsuc b) (inr h) = absurd h
AtLeast-max k (negsuc a) (pos b) (inl h) = absurd h
AtLeast-max k (negsuc a) (pos b) (inr h) = h
AtLeast-max k (negsuc a) (negsuc b) (inl h) = absurd h
AtLeast-max k (negsuc a) (negsuc b) (inr h) = absurd h

-- The highest descriptor is at least that of an entry that is watched.
max_fd-AtLeast :
    (objects : ℕ → Handler) (hs : List (ℤ × ℕ)) (k o : ℕ)
    → Entry (pos k) o hs
    → for_expt (objects o) ≡ true
    → AtLeast k (watch_all objects hs).max_fd
unfolding watch_all
max_fd-AtLeast objects [] k o e h = absurd e
max_fd-AtLeast objects ((s, o') ∷ rest) k o (inl (p, q)) h =
    let t : for_expt (objects o') ≡ true = ap (λ i. for_expt (objects i)) (sym q) ∙ h in
    rw t (AtLeast-max k (watch_all objects rest).max_fd s (inr (subst (AtLeast k) p (omega arith))))
max_fd-AtLeast objects ((s, o') ∷ rest) k o (inr e) h =
    let ih = max_fd-AtLeast objects rest k o e h in
    elim (Bool-cases (for_expt (objects o'))) [
      | inl t ↦ rw t (AtLeast-max k (watch_all objects rest).max_fd s (inl ih))
      | inr t ↦ rw t ih
    ]

not_zero : (k : ℕ) (a : ℤ) → AtLeast (suc k) a → (a ==ℤ pos 0) ≡ false
not_zero k (pos n) h = ground (arith, h)
not_zero k (negsuc n) h = absurd h

-- The handler of a socket above 0 is readable and watched.
pub record IsWatched {W : Type 0} (p : Process W) (k o : ℕ) : Type 0 where
  pub readable : readable (p.objects o) ≡ true
  pub member : is_set (pos (suc k)) (watch_all p.objects p.handlers).select_socks ≡ true
  pub some_fd : ((watch_all p.objects p.handlers).max_fd ==ℤ pos 0) ≡ false

pub owned-IsWatched :
    {W : Type 0} (p : Process W) (k o : ℕ)
    → IsOwned p
    → find (pos (suc k)) p.handlers ≡ some o
    → IsWatched p k o
unfolding readable cp_socket_valid
owned-IsWatched p k o w f =
    let able : readable (p.objects o) ≡ true = rw (w.same_sock (pos (suc k)) o f) (ground arith) in
    let test : for_expt (p.objects o) ≡ true = rw able refl in
    let entry : Entry (pos (suc k)) o p.handlers = find-Entry (pos (suc k)) o p.handlers f in
    record {
      readable = able;
      member = ((watch_all-Exactly p.objects p.handlers).3 (pos (suc k))).1 (o, entry, test);
      some_fd =
          not_zero k (watch_all p.objects p.handlers).max_fd
            (max_fd-AtLeast p.objects p.handlers (suc k) o entry test);
    }

is_set-single : (s sock : ℤ) → (s ==ℤ sock) ≡ false → is_set s (sock ∷ []) ≡ false
unfolding is_set
is_set-single s sock d = ground (arith, ==ℤ-sound sock s)

is_set_self : (sock : ℤ) → is_set sock (sock ∷ []) ≡ true
unfolding is_set
is_set_self sock = ground arith

module _ {W : Type 0} (net : Net W) (stdio : Stdio W) (fuel : ℕ) (session : Session) (k o : ℕ) where
  abbrev sock : ℤ
  sock = pos (suc k)

  pub stale-eq : (p q : Process W) → IsSame p q → q ≡ record p { stale = q.stale }
  stale-eq p q a = ground (arith, a.objects, a.next, a.handlers, a.world)

  -- One reading event is due, and it is that of `o`.
  dispatch_reads :
      (Q : Process W → Type 0) (q : Process W)
      → find sock q.handlers ≡ some o
      → readable (q.objects o) ≡ true
      → Returns
          (handle_read_event net stdio fuel session o (after_load q o))
          (λ d q'. (d ≡ some tt) × Q q')
      → Returns
          (dispatch net stdio fuel session (sock ∷ []) [] [] sock 1 q)
          (λ t q'. (t ≡ same_sock 0) × Q q')
  unfolding dispatch then_part part
  dispatch_reads Q q f a h =
      Returns->>=
        (part net stdio fuel session (sock ∷ []) readable (handle_read_event net stdio fuel session)
          sock 1)
        _ (λ t q'. (t ≡ same_sock 0) × Q q') (λ t q'. (t ≡ same_sock 0) × Q q') q
        (part-hands net stdio fuel session (sock ∷ []) readable
          (handle_read_event net stdio fuel session) sock 0 o Q q (is_set_self sock) f a h)
        (λ t q' (e, h'). rw e (refl, h'))

  -- One writing event is due.
  dispatch_writes :
      (Q : Process W → Type 0) (q : Process W)
      → find sock q.handlers ≡ some o
      → writable (q.objects o) ≡ true
      → ((q' : Process W)
          → IsSame q q'
          → Returns
              (handle_write_event net stdio fuel o (after_load q' o))
              (λ d q''. (d ≡ some tt) × Q q''))
      → Returns
          (dispatch net stdio fuel session [] (sock ∷ []) [] sock 1 q)
          (λ t q'. (t ≡ same_sock 0) × Q q')
  unfolding dispatch then_part is_set
  dispatch_writes Q q f a h =
      Returns->>=
        (part net stdio fuel session [] readable (handle_read_event net stdio fuel session) sock 1)
        _ (λ t q1. (t ≡ same_sock 1) × IsSame q q1) (λ t q'. (t ≡ same_sock 0) × Q q') q
        (part-passes net stdio fuel session [] readable (handle_read_event net stdio fuel session)
          sock 0 o q refl f)
        (λ t q1 (e, b). rw e (
          Returns->>=
            (part net stdio fuel session (sock ∷ []) writable (handle_write_event net stdio fuel)
              sock 1)
            _ (λ t q'. (t ≡ same_sock 0) × Q q') (λ t q'. (t ≡ same_sock 0) × Q q') q1
            (part-hands net stdio fuel session (sock ∷ []) writable
              (handle_write_event net stdio fuel) sock 0 o Q q1 (is_set_self sock)
              (ap (find sock) b.handlers ∙ f)
              (ap (λ (objects : ℕ → Handler). writable (objects o)) b.objects ∙ a) (h q1 b))
            (λ t q2 (e', h'). rw e' (refl, h'))))

  pub alone :
      (s : ℤ) → (s ==ℤ sock) ≡ false → (is_set s (sock ∷ []) ≡ false) × (is_set s [] ≡ false)
  unfolding is_set
  alone s d = (is_set-single s sock d, refl)

  -- A round in which `select` reports that the socket of `o` can be read, and nothing else.
  pub do_select_reads :
      (timeout : ℕ) (Q : Process W → Type 0) (p : Process W)
      → IsOwned p
      → find sock p.handlers ≡ some o
      → Reports net stdio fuel session (sock ∷ []) [] [] sock timeout p
      → ((q : Process W)
          → IsSame (selected net stdio fuel session (sock ∷ []) [] [] sock timeout p) q
          → Returns (handle_read_event net stdio fuel session o q) (λ d q'. (d ≡ some tt) × Q q'))
      → Returns (do_select net stdio fuel session timeout p) (λ d q. (d ≡ some tt) × Q q)
  do_select_reads timeout Q p w f reported h =
      let v = owned-IsWatched p k o w f in
      do_select-one net stdio fuel session (sock ∷ []) [] [] sock timeout o Q p
        (λ s d. ((alone s d).0, (alone s d).1, (alone s d).1)) f v.member v.some_fd reported
        (λ q a.
          dispatch_reads Q q (ap (find sock) a.handlers ∙ f)
            (ap (λ (objects : ℕ → Handler). readable (objects o)) a.objects ∙ v.readable)
            (h (after_load q o) (record {
              objects = a.objects;
              next = a.next;
              handlers = a.handlers;
              world = a.world;
            })))

  -- A round in which `select` reports that it can be written, and nothing else.
  pub do_select_writes :
      (timeout : ℕ) (Q : Process W → Type 0) (p : Process W)
      → IsOwned p
      → find sock p.handlers ≡ some o
      → writable (p.objects o) ≡ true
      → Reports net stdio fuel session [] (sock ∷ []) [] sock timeout p
      → ((q : Process W)
          → IsSame (selected net stdio fuel session [] (sock ∷ []) [] sock timeout p) q
          → Returns (handle_write_event net stdio fuel o q) (λ d q'. (d ≡ some tt) × Q q'))
      → Returns (do_select net stdio fuel session timeout p) (λ d q. (d ≡ some tt) × Q q)
  do_select_writes timeout Q p w f able reported h =
      let v = owned-IsWatched p k o w f in
      do_select-one net stdio fuel session [] (sock ∷ []) [] sock timeout o Q p
        (λ s d. ((alone s d).1, (alone s d).0, (alone s d).1)) f v.member v.some_fd reported
        (λ q a.
          dispatch_writes Q q (ap (find sock) a.handlers ∙ f)
            (ap (λ (objects : ℕ → Handler). writable (objects o)) a.objects ∙ able)
            (λ q' b. h (after_load q' o) (record {
              objects = b.objects ∙ a.objects;
              next = b.next ∙ a.next;
              handlers = b.handlers ∙ a.handlers;
              world = b.world ∙ a.world;
            })))

  -- One round, on a map that has the socket, and those behind it.
  pub rounds-do_select :
      (n timeout : ℕ) (Q : Process W → Type 0) (R : Option (Unit {0}) → Process W → Type 0)
      (q : Process W)
      → find sock q.handlers ≡ some o
      → Returns (do_select net stdio fuel session timeout q) (λ d q'. (d ≡ some tt) × Q q')
      → ((q' : Process W) → Q q' → Returns (rounds net stdio fuel session n timeout q') R)
      → Returns (rounds net stdio fuel session (suc n) timeout q) R
  unfolding rounds and_then
  rounds-do_select n timeout Q R q f now later =
      rw (unless_empty-some net stdio fuel session [] [] [] sock q.handlers _ o f) (
        Returns->>= (do_select net stdio fuel session timeout)
          (and_then net stdio fuel session (rounds net stdio fuel session n timeout))
          (λ d q'. (d ≡ some tt) × Q q') R q now (λ d q' (e, h). rw e (later q' h)))
