-- ===== src/Cache/Frame.antt =====
-- What every function of cache_part.cpp keeps: whatever the host keeps.
use socket_server.Prelude.{
  ℕ, ℤ, List, [], ◌∷◌, Option, none, some, Keeps, Keeps-option, ◌>>=◌, keeps_rules, arith,
}
use socket_server.Cache.{
  Stdio, CachePath, Cache, StorageTo, to_auto, to_mem, to_shm, to_file, cache_directory,
  create_cache_buffer, create_cache_file, leave_cache, create_storage, checked, create_cache,
  cache_push, cache_pop, delete_cache, blank,
}

-- No call of the library changes what `P` says.
pub record HostKeeps {W : Type 0} (host : Stdio W) (P : W → Type 0) : Type 0 where
  pub calloc : (w : W) → P w → P (host.calloc w).1
  pub malloc : (n : ℕ) (w : W) → P w → P (host.malloc n w).1
  pub gettimeofday : (w : W) → P w → P (host.gettimeofday w).1
  pub fopen : (path : CachePath) (w : W) → P w → P (host.fopen path w).1
  pub fseek : (f : ℕ) (at : ℤ) (w : W) → P w → P (host.fseek f at w)
  pub fwrite : (f : ℕ) (bytes : List ℕ) (w : W) → P w → P (host.fwrite f bytes w).1
  pub fread : (f n : ℕ) (w : W) → P w → P (host.fread f n w).1
  pub fclose : (f : ℕ) (w : W) → P w → P (host.fclose f w)
  pub unlink : (path : CachePath) (w : W) → P w → P (host.unlink path w)

pub HostKeeps-both :
    {W : Type 0} (host : Stdio W) {P Q : W → Type 0}
    → HostKeeps host P
    → HostKeeps host Q
    → HostKeeps host (λ w. P w × Q w)
HostKeeps-both host a b = record {
  calloc = λ w h. (a.calloc w h.0, b.calloc w h.1);
  malloc = λ n w h. (a.malloc n w h.0, b.malloc n w h.1);
  gettimeofday = λ w h. (a.gettimeofday w h.0, b.gettimeofday w h.1);
  fopen = λ path w h. (a.fopen path w h.0, b.fopen path w h.1);
  fseek = λ f at w h. (a.fseek f at w h.0, b.fseek f at w h.1);
  fwrite = λ f bytes w h. (a.fwrite f bytes w h.0, b.fwrite f bytes w h.1);
  fread = λ f n w h. (a.fread f n w h.0, b.fread f n w h.1);
  fclose = λ f w h. (a.fclose f w h.0, b.fclose f w h.1);
  unlink = λ path w h. (a.unlink path w h.0, b.unlink path w h.1);
}

module _ {W : Type 0} (host : Stdio W) {P : W → Type 0} (k : HostKeeps host P) where
  cache_directory-Keeps : (dir : Option (List ℕ)) → Keeps P (cache_directory dir)
  unfolding cache_directory
  cache_directory-Keeps none = search keeps_rules
  cache_directory-Keeps (some []) = search keeps_rules
  cache_directory-Keeps (some (c ∷ cs)) = search keeps_rules

  create_cache_buffer-Keeps : (c : Cache) → Keeps P (create_cache_buffer host c)
  unfolding create_cache_buffer
  create_cache_buffer-Keeps c = search (keeps_rules, k.malloc)

  create_cache_file-Keeps : (c : Cache) → Keeps P (create_cache_file host c)
  unfolding create_cache_file
  create_cache_file-Keeps c = record {
    at = λ w h. grind (arith, k.gettimeofday, k.fopen, k.fseek, k.fwrite);
  }

  pub leave_cache-Keeps : (o : Option Cache) → Keeps P (leave_cache host o)
  unfolding leave_cache
  leave_cache-Keeps none = search keeps_rules
  leave_cache-Keeps (some c) =
      Keeps-option c.wfp _ _ (search keeps_rules) (λ fp. search (keeps_rules, k.fclose))

  create_storage-Keeps : (to : StorageTo) (c : Cache) → Keeps P (create_storage host to c)
  unfolding create_storage
  create_storage-Keeps to_auto c =
      search (keeps_rules, create_cache_buffer-Keeps, create_cache_file-Keeps)
  create_storage-Keeps to_mem c = create_cache_buffer-Keeps c
  create_storage-Keeps to_shm c = create_cache_file-Keeps c
  create_storage-Keeps to_file c = create_cache_file-Keeps c

  checked-Keeps : (c : Cache) (ret : ℤ) → Keeps P (checked host c ret)
  unfolding checked
  checked-Keeps c ret = search (keeps_rules, leave_cache-Keeps)

  -- `create_cache` with both structs at hand.
  fill-Keeps :
      (dir : Option (List ℕ)) (capacity : ℕ) (to : StorageTo)
      → Keeps P (
          cache_directory dir >>= λ d.
          create_storage host to (blank d capacity) >>= λ made. checked host made.0 made.1)
  fill-Keeps dir capacity to =
      search (keeps_rules, cache_directory-Keeps, create_storage-Keeps, checked-Keeps)

  pub create_cache-Keeps :
      (dir : Option (List ℕ)) (capacity : ℕ) (to : StorageTo)
      → Keeps P (create_cache host dir capacity to)
  unfolding create_cache
  create_cache-Keeps dir capacity to = record {
    at = λ w h.
        let w1 = (host.calloc w).1 in
        let w2 = (host.calloc w1).1 in
        let h2 : P w2 = k.calloc w1 (k.calloc w h) in
        ground (arith, k.calloc w h, (fill-Keeps dir capacity to).at w2 h2);
  }

  pub cache_push-Keeps : (c : Cache) (p_data : List ℕ) → Keeps P (cache_push host c p_data)
  unfolding cache_push
  cache_push-Keeps c p_data = record { at = λ w h. grind (arith, k.fwrite) }

  pub cache_pop-Keeps : (c : Cache) (n : ℕ) → Keeps P (cache_pop host c n)
  unfolding cache_pop
  cache_pop-Keeps c n = record { at = λ w h. grind (arith, k.fread) }

  pub delete_cache-Keeps : (o : Option Cache) → Keeps P (delete_cache host o)
  unfolding delete_cache
  delete_cache-Keeps none = search keeps_rules
  delete_cache-Keeps (some c) = record { at = λ w h. grind (arith, k.fclose, k.unlink) }
