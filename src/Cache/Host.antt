-- ===== src/Cache/Host.antt =====
-- What the caches use of the C library: allocation, time and files, over a world `W` that the
-- library keeps. Nothing is assumed here; a theorem that needs more says so.
use socket_server.Prelude.{ℕ, ℤ, Bool, Option, List}

-- The text `dir/cache_sec_usec`, as the three values it is printed from.
pub record CachePath : Type 0 where
  pub dir : List ℕ
  pub sec : ℕ
  pub usec : ℕ

pub record Stdio (W : Type 0) : Type 0 where
  -- Whether a struct could be allocated.
  pub calloc : W → Bool × W
  -- A new buffer of the given size, with whatever bytes it holds.
  pub malloc : ℕ → W → Option (List ℕ) × W
  pub gettimeofday : W → (ℕ × ℕ) × W
  -- `fopen(path, "wb")`
  pub fopen : CachePath → W → Option ℕ × W
  -- `fseek(f, offset, SEEK_SET)`; the code looks at no result.
  pub fseek : ℕ → ℤ → W → W
  -- `fwrite(bytes, 1, n, f)`: how many were written.
  pub fwrite : ℕ → List ℕ → W → ℕ × W
  -- `fread(p, 1, n, f)`: the bytes that were read.
  pub fread : ℕ → ℕ → W → List ℕ × W
  pub fclose : ℕ → W → W
  -- `remove(path)`
  pub unlink : CachePath → W → W
