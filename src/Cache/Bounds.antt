-- ===== src/Cache/Bounds.antt =====
-- The invariant of a cache of cache_part.cpp, and that `create_cache` sets it up and `cache_push` and
-- `cache_pop` keep it: indices in order, no access outside of the buffer, no wrap of a `size_t`.
use socket_server.Prelude.{
  ℕ, ◌+◌, ◌-◌, ◌^◌, ◌≤◌, ◌<◌, ◌≡◌, refl, true, Option, none, some, List, take, drop, [], ◌∷◌,
  length, length-append, length-take, length-drop, arith, ℤ, minus_one, ◌==ℤ◌, int32, Bool, false,
  leb, ok, is_some, Returns, min, ◌++◌, ◌>>=◌, ◌⊎◌, inl, inr, ub, out_of_bounds,
}
use socket_server.Cache.{
  Stdio, Cache, StorageTo, to_auto, to_mem, to_file, to_shm, cache_directory, create_cache_buffer,
  create_cache_file, create_storage, checked, blank, create_cache, push_len, cache_push, pop_len,
  cache_pop,
}

-- A buffer that there is has `n` bytes.
abbrev pub IsSized : ℕ → Option (List ℕ) → Type 0
IsSized n none = Unit {0}
IsSized n (some b) = length b ≡ n

-- What the C library documents of the calls.
pub record IsStdio {W : Type 0} (host : Stdio W) : Type 0 where
  pub malloc_size : (n : ℕ) (w : W) → IsSized n (host.malloc n w).0
  pub fwrite_le : (f : ℕ) (bytes : List ℕ) (w : W) → (host.fwrite f bytes w).0 ≤ length bytes
  pub fread_le : (f n : ℕ) (w : W) → length (host.fread f n w).0 ≤ n

-- There is a buffer of the cache's size, or an open file.
abbrev pub IsStored : ℕ → Option (List ℕ) → Option ℕ → Type 0
IsStored capacity (some b) wfp = length b ≡ capacity
IsStored capacity none wfp = is_some wfp ≡ true

pub record IsValid (c : Cache) : Type 0 where
  pub stored : IsStored c.capacity c.buf c.wfp
  pub written_le : c.widx ≤ c.capacity
  pub read_le : c.ridx ≤ c.widx
  pub small : c.capacity < 2 ^ 32

-- `cache_push` takes what fits, in exact numbers.
pub push_len_lem :
    (c : Cache) (p_data : List ℕ)
    → IsValid c
    → push_len c p_data ≡ min (length p_data) (c.capacity - c.widx)
unfolding push_len
push_len_lem c p_data v = ground arith

pub pop_len_lem : (c : Cache) (n : ℕ) → IsValid c → pop_len c n ≡ min n (c.widx - c.ridx)
unfolding pop_len
pop_len_lem c n v = ground arith

pub length-splice :
    (dst : List ℕ) (at : ℕ) (bytes : List ℕ)
    → at + length bytes ≤ length dst
    → length (take at dst ++ (bytes ++ drop (at + length bytes) dst)) ≡ length dst
length-splice dst at bytes h = omega (
  arith,
  length-append (take at dst) (bytes ++ drop (at + length bytes) dst),
  length-append bytes (drop (at + length bytes) dst),
  length-take at dst,
  length-drop (at + length bytes) dst,
)

-- Whether the bytes are kept in memory; if not, they are in a file.
abbrev pub in_memory : StorageTo → ℕ → Bool
in_memory to_mem capacity = true
in_memory to_auto capacity = leb capacity 1048576
in_memory to_file capacity = false
in_memory to_shm capacity = false

-- What a push returns: the cache, and how far its index moved.
abbrev pub Pushed : Cache → List ℕ → Cache × ℤ → Type 0
Pushed c p_data r =
    IsValid r.0
    × (r.1 ≡ int32 (r.0.widx - c.widx))
    × (r.0.widx ≤ c.widx + length p_data)
    × (c.widx ≤ r.0.widx)
    × (r.0.capacity ≡ c.capacity)

-- What a pop returns: at most `n` bytes, and as many as it says.
abbrev pub Popped : Cache → ℕ → Cache × ℕ × List ℕ → Type 0
Popped c n r =
    IsValid r.0 × (r.1 ≤ n) × (length r.2 ≡ r.1) × (r.0.ridx ≡ c.ridx + r.1) × (r.0.widx ≡ c.widx)

module _ {W : Type 0} (host : Stdio W) (laws : IsStdio host) where
  create_storage-IsValid :
      (to : StorageTo) (dir : List ℕ) (capacity : ℕ) (w : W)
      → capacity < 2 ^ 32
      → Returns (create_storage host to (blank dir capacity) w) (λ r _.
        (r.1 ==ℤ minus_one) ≡ false
        → IsValid r.0
          × (r.0.capacity ≡ capacity)
          × (r.0.widx ≡ 0)
          × (r.0.ridx ≡ 0)
          × (is_some r.0.buf ≡ in_memory to capacity))
  unfolding create_storage create_cache_buffer create_cache_file blank
  create_storage-IsValid to_auto dir capacity w h = ground (arith, laws.malloc_size capacity w)
  create_storage-IsValid to_mem dir capacity w h = ground (arith, laws.malloc_size capacity w)
  create_storage-IsValid to_file dir capacity w h = ground arith
  create_storage-IsValid to_shm dir capacity w h = ground arith

  push_cases :
      (c : Cache) (p_data : List ℕ) (w : W) (buf : Option (List ℕ)) (wfp : Option ℕ)
      → c.buf ≡ buf
      → c.wfp ≡ wfp
      → IsValid c
      → Returns (cache_push host c p_data w) (λ r _. Pushed c p_data r)
  unfolding cache_push
  push_cases c p_data w (some b) wfp e f v = ground (
    arith,
    push_len_lem c p_data v,
    length-take (push_len c p_data) p_data,
    length-splice b c.widx (take (push_len c p_data) p_data),
  )
  push_cases c p_data w none none e f v = ground arith
  push_cases c p_data w none (some fp) e f v = ground (
    arith,
    push_len_lem c p_data v,
    length-take (push_len c p_data) p_data,
    laws.fwrite_le fp (take (push_len c p_data) p_data) w,
  )

  pop_cases :
      (c : Cache) (n : ℕ) (w : W) (buf : Option (List ℕ)) (wfp : Option ℕ)
      → c.buf ≡ buf
      → c.wfp ≡ wfp
      → IsValid c
      → Returns (cache_pop host c n w) (λ r _. Popped c n r)
  unfolding cache_pop
  pop_cases c n w (some b) wfp e f v =
      ground
        (arith, pop_len_lem c n v, length-take (pop_len c n) (drop c.ridx b), length-drop c.ridx b)
  pop_cases c n w none none e f v = ground arith
  pop_cases c n w none (some fp) e f v =
      ground (arith, pop_len_lem c n v, laws.fread_le fp (pop_len c n) w)

  -- A push meets no undefined behaviour, keeps the invariant and the capacity, writes no more than it
  -- is given, and returns the number of bytes that it wrote, as the `int` that this is cast to.
  pub push-IsValid :
      (c : Cache) (p_data : List ℕ) (w : W)
      → IsValid c
      → Returns (cache_push host c p_data w) (λ r _. Pushed c p_data r)
  push-IsValid c p_data w v = push_cases c p_data w c.buf c.wfp refl refl v

  -- A pop meets no undefined behaviour, keeps the invariant, and returns at most `n` bytes, as many
  -- as its read index moved.
  pub pop-IsValid :
      (c : Cache) (n : ℕ) (w : W) → IsValid c → Returns (cache_pop host c n w) (λ r _. Popped c n r)
  pop-IsValid c n w v = pop_cases c n w c.buf c.wfp refl refl v

  directory_cases :
      (dir : List ℕ) (w : W)
      → (cache_directory (some dir) w ≡ ok (dir, w))
        ⊎ (cache_directory (some dir) w ≡ ok ([], w))
        ⊎ (cache_directory (some dir) w ≡ ub out_of_bounds)
  unfolding cache_directory
  directory_cases [] w = inr (inr refl)
  directory_cases (d ∷ ds) w = ground arith

  checked-IsValid :
      (dir : List ℕ) (capacity : ℕ) (to : StorageTo) (w w' : W) (c : Cache)
      → capacity < 2 ^ 32
      → (create_storage host to (blank dir capacity) >>= (λ made. checked host made.0 made.1)) w
        ≡ ok (some c, w')
      → IsValid c
        × (c.capacity ≡ capacity)
        × (c.widx ≡ 0)
        × (c.ridx ≡ 0)
        × (is_some c.buf ≡ in_memory to capacity)
  unfolding checked
  checked-IsValid dir capacity to w w' c h e =
      ground (arith, create_storage-IsValid to dir capacity w h)

  -- A cache that `create_cache` returns, for any directory argument and a capacity below 2 ^ 32, is
  -- valid, empty and of the capacity asked for. It is in memory for TO_MEM, and for TO_AUTO up to
  -- 1048576 bytes, and in a file otherwise.
  pub create_cache-IsValid :
      (cache_dir : Option (List ℕ)) (capacity : ℕ) (to : StorageTo) (w w' : W) (c : Cache)
      → capacity < 2 ^ 32
      → create_cache host cache_dir capacity to w ≡ ok (some c, w')
      → IsValid c
        × (c.capacity ≡ capacity)
        × (c.widx ≡ 0)
        × (c.ridx ≡ 0)
        × (is_some c.buf ≡ in_memory to capacity)
  unfolding create_cache checked cache_directory
  create_cache-IsValid none capacity to w w' c h e =
      ground
        (arith, checked-IsValid (b'.' ∷ []) capacity to (host.calloc (host.calloc w).1).1 w' c h)
  create_cache-IsValid (some dir) capacity to w w' c h e =
      let v = (host.calloc (host.calloc w).1).1 in
      elim (directory_cases dir v) [
        | inl k ↦ ground (arith, k, checked-IsValid dir capacity to v w' c h)
        | inr (inl k) ↦ ground (arith, k, checked-IsValid [] capacity to v w' c h)
        | inr (inr k) ↦ absurd (ground (arith, k))
      ]
