-- ===== src/Select/Watch.antt =====
-- The sets of `do_select` in base_socket.cpp: which sockets are in them.
use socket_server.Prelude.{
  ℕ, ◌≡◌, refl, ◌⊎◌, inl, inr, ◌↔◌, Bool, true, ◌&&◌, ◌||◌, not, List, [], ◌∷◌, ◌==ℤ◌,
  if◌then◌else◌, ℤ, arith, ap, sym, Bool-cases,
}
use socket_server.BaseSocket.{Handler, readable, writable}
use socket_server.Cp.{is_set}
use socket_server.Select.{watch_all}

-- An entry of the handler map.
abbrev pub Entry : ℤ → ℕ → List (ℤ × ℕ) → Type 0
Entry s o [] = ⊥
Entry s o ((s', o') ∷ rest) = ((s ≡ s') × (o ≡ o')) ⊎ Entry s o rest

==ℤ-sound : (a b : ℤ) → (a ==ℤ b) ≡ true → a ≡ b
==ℤ-sound a b h = ground arith

==ℤ-refl : (a : ℤ) → (a ==ℤ a) ≡ true
==ℤ-refl a = ground arith

-- The sockets of the entries whose handler passes the test.
selected : (Handler → Bool) → (ℕ → Handler) → List (ℤ × ℕ) → List ℤ
selected test objects [] = []
selected test objects ((s, o) ∷ rest) =
    if test (objects o) then s ∷ selected test objects rest else selected test objects rest

is_set-selected :
    (test : Handler → Bool) (objects : ℕ → Handler) (hs : List (ℤ × ℕ)) (sock : ℤ)
    → is_set sock (selected test objects hs) ≡ true
    → (o : ℕ) × Entry sock o hs × (test (objects o) ≡ true)
unfolding is_set selected
is_set-selected test objects [] sock h = absurd (cc)
is_set-selected test objects ((s, o) ∷ rest) sock h = elim (Bool-cases (test (objects o))) [
  | inl passes ↦ elim (Bool-cases (s ==ℤ sock)) [
    | inl same ↦ (o, inl (sym (==ℤ-sound s sock same), refl), passes)
    | inr differs ↦
        let (o', e, t) = is_set-selected test objects rest sock (ground arith) in (o', inr e, t)
  ]
  | inr fails ↦
      let (o', e, t) = is_set-selected test objects rest sock (ground arith) in (o', inr e, t)
]

selected-is_set :
    (test : Handler → Bool) (objects : ℕ → Handler) (hs : List (ℤ × ℕ)) (sock : ℤ) (o : ℕ)
    → Entry sock o hs
    → test (objects o) ≡ true
    → is_set sock (selected test objects hs) ≡ true
unfolding is_set selected
selected-is_set test objects [] sock o e h = absurd e
selected-is_set test objects ((s, o') ∷ rest) sock o (inl (p, q)) h =
    ground (arith, ==ℤ-refl sock, ap objects q)
selected-is_set test objects ((s, o') ∷ rest) sock o (inr e) h =
    ground (arith, selected-is_set test objects rest sock o e h)

-- The three tests of the code.
abbrev pub for_write : Handler → Bool
for_write h = writable h && not h.accepting

abbrev pub for_expt : Handler → Bool
for_expt h = readable h || writable h

sets-selected :
    (objects : ℕ → Handler) (hs : List (ℤ × ℕ))
    → ((watch_all objects hs).r ≡ selected readable objects hs)
      × ((watch_all objects hs).w ≡ selected for_write objects hs)
      × ((watch_all objects hs).e ≡ selected for_expt objects hs)
      × ((watch_all objects hs).select_socks ≡ selected for_expt objects hs)
unfolding watch_all selected
sets-selected objects [] = (refl, refl, refl, refl)
sets-selected objects ((s, o) ∷ rest) = ground (arith, sets-selected objects rest)

-- The set holds a socket exactly if some entry of the map has it, with a handler that passes the test.
abbrev pub Exactly : (Handler → Bool) → (ℕ → Handler) → List (ℤ × ℕ) → List ℤ → Type 0
Exactly test objects hs set =
    (sock : ℤ) → (is_set sock set ≡ true) ↔ ((o : ℕ) × Entry sock o hs × (test (objects o) ≡ true))

selected-Exactly :
    (test : Handler → Bool) (objects : ℕ → Handler) (hs : List (ℤ × ℕ)) (set : List ℤ)
    → set ≡ selected test objects hs
    → Exactly test objects hs set
selected-Exactly test objects hs set e sock = (
  λ h. is_set-selected test objects hs sock (rw e at h),
  λ (o, i, t). rw e (selected-is_set test objects hs sock o i t),
)

-- Of the sets that `do_select` watches, the one for reading holds exactly the sockets of the map whose
-- handlers are readable; the one for writing those whose handlers are writable and do not accept; the
-- one for exceptions, and the sockets that are dispatched afterwards, those whose handlers are readable
-- or writable.
pub watch_all-Exactly :
    (objects : ℕ → Handler) (hs : List (ℤ × ℕ))
    → Exactly readable objects hs (watch_all objects hs).r
      × Exactly for_write objects hs (watch_all objects hs).w
      × Exactly for_expt objects hs (watch_all objects hs).e
      × Exactly for_expt objects hs (watch_all objects hs).select_socks
watch_all-Exactly objects hs =
    let (r, w, e, socks) = sets-selected objects hs in
    (
      selected-Exactly readable objects hs _ r,
      selected-Exactly for_write objects hs _ w,
      selected-Exactly for_expt objects hs _ e,
      selected-Exactly for_expt objects hs _ socks,
    )
