-- ===== src/Cache/Storage.antt =====
-- The caches in files of cache_part.cpp, on a host that runs out of nothing.
use socket_server.Prelude.{
  ℕ, ◌+◌, ◌-◌, ◌^◌, ◌≤◌, ◌<◌, ◌≡◌, refl, true, Option, none, some, List, [], ◌∷◌, take, length,
  length-take, arith, pos, is_some, Returns, min,
}
use socket_server.Cache.{
  Stdio, CachePath, Cache, to_file, to_mem, cache_directory, create_cache_file, create_storage,
  checked, blank, create_cache, push_len, cache_push,
}

-- There is a buffer, of `n` bytes.
abbrev pub IsBuffer : ℕ → Option (List ℕ) → Type 0
IsBuffer n none = ⊥
IsBuffer n (some b) = length b ≡ n

-- Memory can be had, files can be opened, and a write takes all that it is given.
pub record IsReliable {W : Type 0} (host : Stdio W) : Type 0 where
  pub calloc_ok : (w : W) → (host.calloc w).0 ≡ true
  pub malloc_ok : (n : ℕ) (w : W) → IsBuffer n (host.malloc n w).0
  pub fopen_ok : (path : CachePath) (w : W) → is_some (host.fopen path w).0 ≡ true
  pub fwrite_all : (f : ℕ) (bytes : List ℕ) (w : W) → (host.fwrite f bytes w).0 ≡ length bytes

-- A cache in an open file, with its capacity and how much of it is written.
pub record IsFile (c : Cache) (capacity n : ℕ) : Type 0 where
  pub no_buffer : c.buf ≡ none
  pub opened : is_some c.wfp ≡ true
  pub of_capacity : c.capacity ≡ capacity
  pub at : c.widx ≡ n

-- There is a cache in memory, of capacity `n`, and nothing is in it.
abbrev pub IsEmptyMemory : ℕ → Option Cache → Type 0
IsEmptyMemory n none = ⊥
IsEmptyMemory n (some c) = IsBuffer n c.buf × (c.capacity ≡ n) × (c.widx ≡ 0) × (c.ridx ≡ 0)

-- There is a cache, with `n` bytes.
abbrev pub IsThere : Option Cache → ℕ → ℕ → Type 0
IsThere none capacity n = ⊥
IsThere (some c) capacity n = IsFile c capacity n

push_len_file :
    (c : Cache) (capacity n : ℕ) (p_data : List ℕ)
    → IsFile c capacity n
    → n ≤ capacity
    → capacity < 2 ^ 32
    → push_len c p_data ≡ min (length p_data) (capacity - n)
unfolding push_len
push_len_file c capacity n p_data v h k = ground arith

module _ {W : Type 0} (host : Stdio W) (rel : IsReliable host) where
  create_cache_file-ok :
      (dir : List ℕ) (capacity : ℕ) (w : W)
      → Returns
          (create_cache_file host (blank dir capacity) w)
          (λ r _. (r.1 ≡ pos 0) × IsFile r.0 capacity 0)
  unfolding create_cache_file blank
  create_cache_file-ok dir capacity w =
      let w1 = (host.gettimeofday w).1 in
      let path : CachePath = record {
        dir = dir;
        sec = (host.gettimeofday w).0.0;
        usec = (host.gettimeofday w).0.1;
      } in
      grind (arith, rel.fopen_ok path w1, rel.fwrite_all)

  -- `create_cache` into a file gives an empty cache.
  pub create_cache-IsThere :
      (capacity : ℕ) (w : W)
      → Returns (create_cache host none capacity to_file w) (λ r _. IsThere r capacity 0)
  unfolding create_cache create_storage checked cache_directory
  create_cache-IsThere capacity w =
      let w1 = (host.calloc w).1 in
      ground (
        arith,
        rel.calloc_ok w,
        rel.calloc_ok w1,
        create_cache_file-ok (b'.' ∷ []) capacity (host.calloc w1).1,
      )

  create_storage-ok :
      (dir : List ℕ) (capacity : ℕ) (w : W)
      → Returns
          (create_storage host to_mem (blank dir capacity) w)
          (λ r _. (r.1 ≡ pos 0) × IsEmptyMemory capacity (some r.0))
  unfolding create_storage blank
  create_storage-ok dir capacity w = ground (arith, rel.malloc_ok capacity w)

  -- `create_cache` in memory gives an empty cache.
  pub create_cache-IsEmptyMemory :
      (capacity : ℕ) (w : W)
      → Returns (create_cache host none capacity to_mem w) (λ r _. IsEmptyMemory capacity r)
  unfolding create_cache checked cache_directory
  create_cache-IsEmptyMemory capacity w =
      let w1 = (host.calloc w).1 in
      ground (
        arith,
        rel.calloc_ok w,
        rel.calloc_ok w1,
        create_storage-ok (b'.' ∷ []) capacity (host.calloc w1).1,
      )

  -- What a push into a file returns.
  push-IsFile' :
      (c : Cache) (capacity n : ℕ) (p_data : List ℕ) (w : W) (wfp : Option ℕ)
      → c.wfp ≡ wfp
      → IsFile c capacity n
      → n ≤ capacity
      → capacity < 2 ^ 32
      → length p_data < 2 ^ 31
      → Returns (cache_push host c p_data w) (λ r _.
        (r.1 ≡ pos (min (length p_data) (capacity - n)))
        × IsFile r.0 capacity (n + min (length p_data) (capacity - n)))
  unfolding cache_push
  push-IsFile' c capacity n p_data w none e v h k l = ground arith
  push-IsFile' c capacity n p_data w (some fp) e v h k l = ground (
    arith,
    push_len_file c capacity n p_data v h k,
    length-take (push_len c p_data) p_data,
    rel.fwrite_all fp (take (push_len c p_data) p_data) w,
  )

  -- A push into a file takes what fits, and says how much that is.
  pub push-IsFile :
      (c : Cache) (capacity n : ℕ) (p_data : List ℕ) (w : W)
      → IsFile c capacity n
      → n ≤ capacity
      → capacity < 2 ^ 32
      → length p_data < 2 ^ 31
      → Returns (cache_push host c p_data w) (λ r _.
        (r.1 ≡ pos (min (length p_data) (capacity - n)))
        × IsFile r.0 capacity (n + min (length p_data) (capacity - n)))
  push-IsFile c capacity n p_data w v h k l = push-IsFile' c capacity n p_data w c.wfp refl v h k l
