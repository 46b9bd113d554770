-- ===== src/BaseSocket/Channel.antt =====
-- `add_channel` and `del_channel` of base_socket.cpp: what they make of the handler map.
use socket_server.Prelude.{
  ℕ, ◌≡◌, refl, false, none, some, List, ◌==ℤ◌, ℤ, arith, Returns, Option-cases, inl, inr, ◌∙◌,
  ◌||◌, not,
}
use socket_server.Cp.{Net}
use socket_server.BaseSocket.{
  Process, find, remove, put, load, erase, insert, add_channel, del_channel,
}
use socket_server.BaseSocket.Map.{
  IsMap, find-removed, find-remove_other, remove-IsMap, find-put, find-put_other, put-IsMap,
}

-- `hs'` is a map, and has what `hs` has for every socket but `sock`.
abbrev pub IsBut : ℤ → List (ℤ × ℕ) → List (ℤ × ℕ) → Type 0
IsBut sock hs hs' = IsMap hs' × ((s : ℤ) → (sock ==ℤ s) ≡ false → find s hs' ≡ find s hs)

erase-absent :
    {W : Type 0} (sock : ℤ) (p : Process W)
    → find sock p.handlers ≡ none
    → (erase sock p).handlers ≡ p.handlers
unfolding erase
erase-absent sock p e = ground (arith, e)

erase-present :
    {W : Type 0} (sock : ℤ) (p : Process W) (o : ℕ)
    → find sock p.handlers ≡ some o
    → (erase sock p).handlers ≡ remove sock p.handlers
unfolding erase
erase-present sock p o e = ground (arith, e)

pub erase-IsBut :
    {W : Type 0} (sock : ℤ) (p : Process W)
    → IsMap p.handlers
    → (find sock (erase sock p).handlers ≡ none) × IsBut sock p.handlers (erase sock p).handlers
erase-IsBut sock p m = elim (Option-cases (find sock p.handlers)) [
  | inl e ↦ rw (erase-absent sock p e) (e, (m, λ s d. refl))
  | inr (o, e) ↦ rw (erase-present sock p o e) (
    find-removed sock p.handlers m,
    (remove-IsMap sock p.handlers m, λ s d. find-remove_other sock s p.handlers d),
  )
]

put-IsBut :
    (sock : ℤ) (this : ℕ) (hs hs' : List (ℤ × ℕ))
    → (find sock hs' ≡ none) × IsBut sock hs hs'
    → (find sock (put sock this hs') ≡ some this) × IsBut sock hs (put sock this hs')
put-IsBut sock this hs hs' (n, (m, k)) = (
  find-put sock this hs' n,
  (put-IsMap sock this hs' n m, λ s d. find-put_other sock s this hs' d ∙ k s d),
)

module _ {W : Type 0} (net : Net W) where
  -- On a map with one entry for a socket, `add_channel` puts the object under its socket, also if that
  -- had an entry, `del_channel` leaves no entry for it, and both leave every other socket's entry as it
  -- was, and one entry for each socket.
  pub add_channel-IsBut :
      (p : Process W) (this : ℕ)
      → IsMap p.handlers
      → Returns (add_channel net this p) (λ _ q.
        (find (p.objects this).sock q.handlers ≡ some this)
        × IsBut (p.objects this).sock p.handlers q.handlers)
        × Returns (del_channel net this p) (λ _ q.
          (find (p.objects this).sock q.handlers ≡ none)
          × IsBut (p.objects this).sock p.handlers q.handlers)
  unfolding add_channel del_channel load insert
  add_channel-IsBut p this m =
      let loaded : Process W = record p { stale = p.stale || not (p.objects this).live } in
      let erased = erase-IsBut (p.objects this).sock loaded m in
      (put-IsBut (p.objects this).sock this p.handlers _ erased, erased)
