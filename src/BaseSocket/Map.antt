-- ===== src/BaseSocket/Map.antt =====
-- The handler map of base_socket.h, `ss_map_t`, as `std::map` keeps it: one entry for a socket.
use socket_server.Prelude.{
  ℕ, ◌≡◌, refl, true, false, if◌then◌else◌, none, some, List, [], ◌∷◌, ◌==ℤ◌, ltb_ℤ, ℤ, arith,
  Bool-cases, inl, inr,
}
use socket_server.BaseSocket.{find, remove, put}

-- Every socket has one entry.
unfoldable pub IsMap : List (ℤ × ℕ) → Type 0
IsMap [] = Unit
IsMap ((s, o) ∷ rest) = (find s rest ≡ none) × IsMap rest

find-remove : (sock s : ℤ) (hs : List (ℤ × ℕ)) → find s hs ≡ none → find s (remove sock hs) ≡ none
unfolding find remove
find-remove sock s [] h = refl
find-remove sock s ((s', o) ∷ rest) h = ground (arith, find-remove sock s rest)

-- What is removed is not found.
pub find-removed : (sock : ℤ) (hs : List (ℤ × ℕ)) → IsMap hs → find sock (remove sock hs) ≡ none
unfolding find remove IsMap
find-removed sock [] m = refl
find-removed sock ((s, o) ∷ rest) (n, m) = ground (arith, find-removed sock rest m)

pub remove-IsMap : (sock : ℤ) (hs : List (ℤ × ℕ)) → IsMap hs → IsMap (remove sock hs)
unfolding remove IsMap
remove-IsMap sock [] m = m
remove-IsMap sock ((s, o) ∷ rest) (n, m) = elim (Bool-cases (s ==ℤ sock)) [
  | inl e ↦ rw e m
  | inr e ↦ rw e (find-remove sock s rest n, remove-IsMap sock rest m)
]

pub find-put :
    (sock : ℤ) (this : ℕ) (hs : List (ℤ × ℕ))
    → find sock hs ≡ none
    → find sock (put sock this hs) ≡ some this
unfolding find put
find-put sock this [] h = ground arith
find-put sock this ((s, o) ∷ rest) h = ground (arith, find-put sock this rest)

pub find-put_other :
    (sock s : ℤ) (this : ℕ) (hs : List (ℤ × ℕ))
    → (sock ==ℤ s) ≡ false
    → find s (put sock this hs) ≡ find s hs
unfolding find put
find-put_other sock s this [] h = ground arith
find-put_other sock s this ((s', o) ∷ rest) h = ground (arith, find-put_other sock s this rest h)

pub find-remove_other :
    (sock s : ℤ) (hs : List (ℤ × ℕ)) → (sock ==ℤ s) ≡ false → find s (remove sock hs) ≡ find s hs
unfolding find remove
find-remove_other sock s [] h = refl
find-remove_other sock s ((s', o) ∷ rest) h = ground (arith, find-remove_other sock s rest h)

pub put-IsMap :
    (sock : ℤ) (this : ℕ) (hs : List (ℤ × ℕ))
    → find sock hs ≡ none
    → IsMap hs
    → IsMap (put sock this hs)
unfolding find put IsMap
put-IsMap sock this [] h m = (refl, m)
put-IsMap sock this ((s, o) ∷ rest) h (n, m) = elim (Bool-cases (s ==ℤ sock)) [
  | inl e ↦ rw e (n, m)
  | inr e ↦ elim (Bool-cases (ltb_ℤ sock s)) [
    | inl l ↦ rw (e, l) (ground arith, (n, m))
    | inr l ↦
        rw (e, l)
          (
            ground (arith, find-put_other sock s this rest),
            put-IsMap sock this rest (ground arith) m,
          )
  ]
]

pub ==ℤ-sound : (a b : ℤ) → (a ==ℤ b) ≡ true → a ≡ b
==ℤ-sound a b h = ground arith

pub find-remove_if :
    (sock s : ℤ) (hs : List (ℤ × ℕ))
    → IsMap hs
    → find s (remove sock hs) ≡ (if sock ==ℤ s then none else find s hs)
find-remove_if sock s hs m = elim (Bool-cases (sock ==ℤ s)) [
  | inl e ↦ rw (e, ← ==ℤ-sound sock s e) (find-removed sock hs m)
  | inr e ↦ rw e (find-remove_other sock s hs e)
]

pub find-put_if :
    (sock s : ℤ) (this : ℕ) (hs : List (ℤ × ℕ))
    → find sock hs ≡ none
    → find s (put sock this hs) ≡ (if sock ==ℤ s then some this else find s hs)
find-put_if sock s this hs n = elim (Bool-cases (sock ==ℤ s)) [
  | inl e ↦ rw (e, ← ==ℤ-sound sock s e) (find-put sock this hs n)
  | inr e ↦ rw e (find-put_other sock s this hs e)
]
