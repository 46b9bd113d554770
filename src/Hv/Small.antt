-- ===== src/Hv/Small.antt =====
-- What `HV::clear` of hv.cpp leaves of a complete message, and what the next one finds. The value's
-- cache is always a file, and `clear` lets go of it only if the storage mode says so.
use socket_server.Prelude.{
  ℕ, ◌^◌, ◌<◌, ◌≡◌, refl, true, false, Option, none, some, List, ◌∷◌, length, arith, ◌++◌, pos,
  Returns, Returns-map, is_some,
}
use socket_server.Cache.{Stdio, Cache, to_mem, to_file, leave_cache, cache_full}
use socket_server.Cache.Storage.{IsReliable, IsFile, push-IsFile}
use socket_server.Wire.{Header}
use socket_server.Hv.{
  Hv, clear, write, write_rest, write_value, value_cache, push_into, is_complete,
}
use socket_server.Hv.Head.{encode, IsWord}
use socket_server.Hv.Value.{IsDone}
use socket_server.Hv.Message.{IsStart, write-headed}

-- At the start of a message, with the full cache of the one before.
pub record IsStale (m : Hv) (c : Cache) : Type 0 where
  pub no_head : m.hlen ≡ 0
  pub head_open : m.head_complete ≡ false
  pub value_open : m.value_complete ≡ false
  pub held : m.value ≡ some c
  pub full : IsFile c c.capacity c.capacity
  pub small : c.capacity < 2 ^ 32

module _ {W : Type 0} (host : Stdio W) where
  -- Cleared after a message whose storage is a file, it is at the start again, with the header kept.
  pub clear-IsStart :
      (m : Hv) (w : W)
      → m.to ≡ some to_file
      → Returns (clear host m w) (λ r _. IsStart r × (r.header ≡ m.header))
  unfolding clear leave_cache
  clear-IsStart m w e = ground arith

  -- Cleared after a message whose storage is called memory, it still holds the cache.
  pub clear-IsStale :
      (m : Hv) (c : Cache) (w : W)
      → m.to ≡ some to_mem
      → m.value ≡ some c
      → IsFile c c.capacity c.capacity
      → c.capacity < 2 ^ 32
      → Returns (clear host m w) (λ r _. IsStale r c × (r.header ≡ m.header))
  unfolding clear
  clear-IsStale m c w e f g h = ground arith

  clear_done :
      (m : Hv) (w : W) (value : Option Cache)
      → m.value ≡ value
      → m.to ≡ some to_mem
      → IsDone m
      → 0 < m.header.length
      → m.header.length < 2 ^ 32
      → Returns (clear host m w) (λ r _. ((c : Cache) × IsStale r c) × (r.header ≡ m.header))
  clear_done m w none e f d p q =
      let zero_length : m.header.length ≡ 0 = rw e at d.value_whole in absurd (omega arith)
  clear_done m w (some c) e f d p q =
      let whole : IsFile c m.header.length m.header.length = rw e at d.value_whole in
      Returns-map (λ r _. IsStale r c × (r.header ≡ m.header)) _ _
        (clear-IsStale m c w f e (ground arith) (ground arith)) (λ r w' h. ((c, h.0), h.1))

  -- The same of a message that is known to be complete.
  pub clear-IsDone :
      (m : Hv) (w : W)
      → m.to ≡ some to_mem
      → IsDone m
      → 0 < m.header.length
      → m.header.length < 2 ^ 32
      → Returns (clear host m w) (λ r _. ((c : Cache) × IsStale r c) × (r.header ≡ m.header))
  clear-IsDone m w = clear_done m w m.value refl

  -- Cleared, a message stands before the next header, whatever it has kept.
  pub clear_resets :
      (m : Hv) (w : W)
      → is_some m.to ≡ true
      → Returns
          (clear host m w)
          (λ r _. (r.hlen ≡ 0) × (r.head_complete ≡ false) × (r.header ≡ m.header))
  unfolding clear leave_cache
  clear_resets m w e = ground arith

  -- A message behind one that left its cache: none of its value is taken, and it is called complete
  -- after its header, whatever its length.
  pub write-IsStale :
      IsReliable host
      → (m : Hv) (c : Cache) (h : Header) (b : ℕ) (bs : List ℕ) (w : W) → IsWord h
      → IsStale m c
      → length (b ∷ bs) < 2 ^ 31
      → Returns (write host m (encode h ++ b ∷ bs) w) (λ r _.
        (r.1 ≡ pos 8) × (is_complete r.0 ≡ true) × (r.0.header ≡ h) × (is_some r.0.to ≡ true))
  unfolding write_rest write_value value_cache push_into cache_full is_complete
  write-IsStale rel m c h b bs w p s l = ground (
    arith,
    write-headed host m h (b ∷ bs) w p s.no_head s.head_open,
    push-IsFile host rel c c.capacity c.capacity (b ∷ bs) w s.full,
  )
