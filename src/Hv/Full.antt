-- ===== src/Hv/Full.antt =====
-- `HV::write` of hv.cpp where the disk is full: `fwrite` takes nothing, and `cache_push` says so.
use socket_server.Prelude.{
  ℕ, ◌<◌, ◌≡◌, refl, true, false, Option, none, some, List, ◌∷◌, arith, pos, Returns, take,
}
use socket_server.Cache.{Stdio, Cache, push_len, cache_push, cache_full}
use socket_server.Cache.Storage.{IsFile}
use socket_server.Hv.{Hv, write, write_head, write_value, value_cache, push_into, is_complete}

-- No file takes a byte.
pub record IsFull {W : Type 0} (host : Stdio W) : Type 0 where
  pub fwrite_none : (f : ℕ) (bytes : List ℕ) (w : W) → (host.fwrite f bytes w).0 ≡ 0

-- The header is there, and the value's cache is made and not filled.
pub record IsWaiting (m : Hv) (c : Cache) (n : ℕ) : Type 0 where
  pub head_whole : m.hlen ≡ 8
  pub head_done : m.head_complete ≡ true
  pub value_open : m.value_complete ≡ false
  pub held : m.value ≡ some c
  pub file : IsFile c c.capacity n
  pub part_lt : n < c.capacity

module _ {W : Type 0} (host : Stdio W) (full : IsFull host) where
  push_full :
      (c : Cache) (n : ℕ) (p_data : List ℕ) (w : W) (wfp : Option ℕ)
      → c.wfp ≡ wfp
      → IsFile c c.capacity n
      → Returns
          (cache_push host c p_data w)
          (λ r _. (r.1 ≡ pos 0) × IsFile r.0 r.0.capacity n × (r.0.capacity ≡ c.capacity))
  unfolding cache_push
  push_full c n p_data w none e f = ground arith
  push_full c n p_data w (some fp) e f =
      ground (arith, full.fwrite_none fp (take (push_len c p_data) p_data) w)

  -- The write takes nothing, does not fail, and the message waits as before.
  pub write-IsWaiting :
      (m : Hv) (c : Cache) (n b : ℕ) (bs : List ℕ) (w : W)
      → IsWaiting m c n
      → Returns
          (write host m (b ∷ bs) w)
          (λ r _. (r.1 ≡ pos 0) × (is_complete r.0 ≡ false) × ((c' : Cache) × IsWaiting r.0 c' n))
  unfolding write write_head write_value value_cache push_into cache_full is_complete
  write-IsWaiting m c n b bs w v = grind (arith, push_full c n (b ∷ bs) w c.wfp refl v.file)
