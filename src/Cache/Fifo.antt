-- ===== src/Cache/Fifo.antt =====
-- A cache in memory of cache_part.cpp, against the stream of bytes that it stands for: what is pushed
-- comes out once and in order, until the capacity is used up.
use socket_server.Prelude.{
  ℕ, zero, suc, ◌+◌, ◌-◌, ◌^◌, ◌≤◌, ◌<◌, ◌≡◌, refl, Option, none, some, List, [], ◌∷◌, ◌++◌, take,
  drop, length, length-append, length-take, length-drop, take-append, drop-append_le,
  take-take-drop, drop-drop, append_assoc, arith, ℤ, pos, int32, ok, min, ap, ◌∙◌, M, pure, ◌>>=◌,
  >>=-ok, Returns, is_some, true,
}
use socket_server.Cache.{Stdio, Cache, push_len, cache_push, cache_pop}
use socket_server.Cache.Bounds.{IsValid, push_len_lem, pop_len_lem, length-splice}

-- The abstract stream: how many bytes it still takes, and those that wait.
pub record Stream : Type 0 where
  pub room : ℕ
  pub pending : List ℕ

abbrev pub put : List ℕ → Stream → Stream × ℕ
put xs s = (
  record { room = s.room - length xs; pending = s.pending ++ take s.room xs },
  min (length xs) s.room,
)

abbrev pub get : ℕ → Stream → Stream × List ℕ
get n s = (record s { pending = drop n s.pending }, take n s.pending)

abbrev pub written : Option (List ℕ) → ℕ → List ℕ
written none n = []
written (some b) n = take n b

abbrev pub view : Cache → Stream
view c = record { room = c.capacity - c.widx; pending = drop c.ridx (written c.buf c.widx) }

take-min : (n : ℕ) (xs : List ℕ) → take (min (length xs) n) xs ≡ take n xs
take-min zero xs = let e : min (length xs) zero ≡ zero = omega arith in rw e
take-min (suc n) [] = let e : min zero (suc n) ≡ zero = omega arith in rw e
take-min (suc n) (x ∷ xs) =
    let e : min (suc (length xs)) (suc n) ≡ suc (min (length xs) n) = omega arith in
    rw e (ap (λ l. x ∷ l) (take-min n xs))

drop-min : (n : ℕ) (xs : List ℕ) → drop (min (length xs) n) xs ≡ drop n xs
drop-min zero xs = let e : min (length xs) zero ≡ zero = omega arith in rw e
drop-min (suc n) [] = let e : min zero (suc n) ≡ zero = omega arith in rw e
drop-min (suc n) (x ∷ xs) =
    let e : min (suc (length xs)) (suc n) ≡ suc (min (length xs) n) = omega arith in
    rw e (drop-min n xs)

pushed : Cache → List ℕ → List ℕ → Cache
pushed c b xs = record c {
  buf = some (take c.widx b ++ (xs ++ drop (c.widx + length xs) b));
  widx = c.widx + length xs;
}

popped : Cache → ℕ → Cache
popped c n = record c { ridx = c.ridx + min n (c.widx - c.ridx) }

module _ {W : Type 0} (host : Stdio W) where
  -- What `cache_push` does to a buffer.
  push-pushed :
      (c : Cache) (b p_data : List ℕ) (w : W)
      → c.buf ≡ some b
      → IsValid c
      → let xs = take (c.capacity - c.widx) p_data in
        (cache_push host c p_data w ≡ ok ((pushed c b xs, int32 (length xs)), w))
        × IsValid (pushed c b xs)
  unfolding cache_push pushed
  push-pushed c b p_data w e v =
      rw (← take-min (c.capacity - c.widx) p_data, ← push_len_lem c p_data v)
        (ground (
          arith,
          push_len_lem c p_data v,
          length-take (push_len c p_data) p_data,
          length-splice b c.widx (take (push_len c p_data) p_data),
        ))

  pop-popped :
      (c : Cache) (b : List ℕ) (n : ℕ) (w : W)
      → c.buf ≡ some b
      → IsValid c
      → (cache_pop host c n w
          ≡ ok (
            (popped c n, min n (c.widx - c.ridx), take (min n (c.widx - c.ridx)) (drop c.ridx b)),
            w,
          ))
        × IsValid (popped c n)
  unfolding cache_pop popped
  pop-popped c b n w e v = rw (← pop_len_lem c n v) (ground (arith, pop_len_lem c n v))

take-splice :
    (n : ℕ) (b xs rest : List ℕ)
    → n ≤ length b
    → take (n + length xs) (take n b ++ (xs ++ rest)) ≡ take n b ++ xs
take-splice n b xs rest h = rw (← append_assoc (take n b) xs rest) (
    take-append (n + length xs) (take n b ++ xs) rest
      (omega (arith, length-append (take n b) xs, length-take n b)))

drop-splice :
    (r n : ℕ) (b xs rest : List ℕ)
    → r ≤ n
    → n ≤ length b
    → drop r (take (n + length xs) (take n b ++ (xs ++ rest))) ≡ drop r (take n b) ++ xs
drop-splice r n b xs rest h k =
    rw (take-splice n b xs rest k) (drop-append_le r (take n b) xs (omega (arith, length-take n b)))

-- The stream after a push into the buffer.
view-pushed :
    (c : Cache) (b p_data : List ℕ)
    → c.buf ≡ some b
    → IsValid c
    → view (pushed c b (take (c.capacity - c.widx) p_data)) ≡ (put p_data (view c)).0
unfolding pushed
view-pushed c b p_data e v =
    let xs = take (c.capacity - c.widx) p_data in
    ground (
      arith,
      drop-splice c.ridx c.widx b xs (drop (c.widx + length xs) b),
      length-take (c.capacity - c.widx) p_data,
    )

-- The stream after a pop from it.
view-popped :
    (c : Cache) (b : List ℕ) (n : ℕ)
    → c.buf ≡ some b
    → IsValid c
    → (view (popped c n) ≡ (get n (view c)).0)
      × (take (min n (c.widx - c.ridx)) (drop c.ridx b) ≡ (get n (view c)).1)
unfolding popped
view-popped c b n e v =
    let full : length b ≡ c.capacity = rw e at v.stored in
    let waiting = drop c.ridx (take c.widx b) in
    let size : length waiting ≡ c.widx - c.ridx =
      omega (arith, length-drop c.ridx (take c.widx b), length-take c.widx b) in
    let least : min n (c.widx - c.ridx) ≡ min (length waiting) n = omega arith in
    ground (
      arith,
      take-min n waiting,
      drop-min n waiting,
      drop-drop (min n (c.widx - c.ridx)) c.ridx (c.ridx + min n (c.widx - c.ridx)) (take c.widx b)
          refl,
      take-take-drop (min n (c.widx - c.ridx)) c.ridx c.widx b,
    )

buf-pushed :
    (c : Cache) (b xs : List ℕ)
    → (pushed c b xs).buf ≡ some (take c.widx b ++ (xs ++ drop (c.widx + length xs) b))
unfolding pushed
buf-pushed c b xs = refl

buf-popped : (c : Cache) (n : ℕ) → (popped c n).buf ≡ c.buf
unfolding popped
buf-popped c n = refl

-- A valid cache in memory that stands for the stream `s`.
pub record Holds (c : Cache) (s : Stream) : Type 0 where
  pub valid : IsValid c
  pub in_memory : is_some c.buf ≡ true
  pub stands_for : view c ≡ s

module _ {W : Type 0} (host : Stdio W) where
  push-Holds' :
      (c : Cache) (s : Stream) (p_data : List ℕ) (w : W) (buf : Option (List ℕ))
      → c.buf ≡ buf
      → Holds c s
      → length p_data < 2 ^ 31
      → Returns
          (cache_push host c p_data w)
          (λ r _. Holds r.0 (put p_data s).0 × (r.1 ≡ pos (put p_data s).1))
  push-Holds' c s p_data w none e h l = ground arith
  push-Holds' c s p_data w (some b) e h l = rw (push-pushed host c b p_data w e h.valid).0 (
      ground (
        arith,
        (push-pushed host c b p_data w e h.valid).1,
        view-pushed c b p_data e h.valid,
        buf-pushed c b (take (c.capacity - c.widx) p_data),
        length-take (c.capacity - c.widx) p_data,
      ))

  -- A push on a cache in memory.
  pub push-Holds :
      (c : Cache) (s : Stream) (p_data : List ℕ) (w : W)
      → Holds c s
      → length p_data < 2 ^ 31
      → Returns
          (cache_push host c p_data w)
          (λ r _. Holds r.0 (put p_data s).0 × (r.1 ≡ pos (put p_data s).1))
  push-Holds c s p_data w = push-Holds' c s p_data w c.buf refl

  pop-Holds' :
      (c : Cache) (s : Stream) (n : ℕ) (w : W) (buf : Option (List ℕ))
      → c.buf ≡ buf
      → Holds c s
      → Returns (cache_pop host c n w) (λ r w'.
        Holds r.0 (get n s).0 × (r.2 ≡ (get n s).1) × (r.1 ≡ length (get n s).1) × (w' ≡ w))
  pop-Holds' c s n w none e h = ground arith
  pop-Holds' c s n w (some b) e h = rw (pop-popped host c b n w e h.valid).0 (
      ground (
        arith,
        (pop-popped host c b n w e h.valid).1,
        view-popped c b n e h.valid,
        buf-popped c n,
        length-take (min n (c.widx - c.ridx)) (drop c.ridx b),
        length-drop c.ridx b,
      ))

  -- A pop from a cache in memory.
  pub pop-Holds :
      (c : Cache) (s : Stream) (n : ℕ) (w : W)
      → Holds c s
      → Returns (cache_pop host c n w) (λ r w'.
        Holds r.0 (get n s).0 × (r.2 ≡ (get n s).1) × (r.1 ≡ length (get n s).1) × (w' ≡ w))
  pop-Holds c s n w = pop-Holds' c s n w c.buf refl

-- A call of a client: a push or a pop.
pub data Op : Type 0 where
  push : List ℕ → Op
  pop : ℕ → Op

-- What the client sees of it.
pub data Reply : Type 0 where
  accepted : ℤ → Reply
  bytes : List ℕ → Reply

pub spec : List Op → Stream → List Reply
spec [] s = []
spec (push xs ∷ ops) s = accepted (int32 (put xs s).1) ∷ spec ops (put xs s).0
spec (pop n ∷ ops) s = bytes (get n s).1 ∷ spec ops (get n s).0

module _ {W : Type 0} (host : Stdio W) where
  pub serve : List Op → Cache → M W (List Reply)
  serve [] c = pure []
  serve (push xs ∷ ops) c = do
    r ← cache_push host c xs
    rest ← serve ops r.0
    pure (accepted r.1 ∷ rest)
  serve (pop n ∷ ops) c = do r ← cache_pop host c n; rest ← serve ops r.0; pure (bytes r.2 ∷ rest)

  -- Any sequence of pushes and pops on a valid cache in memory meets no undefined behaviour and is
  -- answered as by the stream: a pop with the bytes, a push with the number of bytes taken, as the
  -- `int` that it is cast to.
  pub serve-refines :
      (ops : List Op) (c : Cache) (b : List ℕ) (w : W)
      → c.buf ≡ some b
      → IsValid c
      → serve ops c w ≡ ok (spec ops (view c), w)
  unfolding serve spec
  serve-refines [] c b w e v = refl
  serve-refines (push xs ∷ ops) c b w e v =
      >>=-ok (cache_push host c xs) _ (push-pushed host c b xs w e v).0
      ∙ >>=-ok (serve ops _) _ (
          serve-refines ops _ _ w (buf-pushed c b (take (c.capacity - c.widx) xs))
            (push-pushed host c b xs w e v).1)
      ∙ ground (arith, length-take (c.capacity - c.widx) xs, view-pushed c b xs e v)
  serve-refines (pop n ∷ ops) c b w e v =
      >>=-ok (cache_pop host c n) _ (pop-popped host c b n w e v).0
      ∙ >>=-ok (serve ops _) _
          (serve-refines ops (popped c n) b w (buf-popped c n ∙ e) (pop-popped host c b n w e v).1)
      ∙ ground (arith, view-popped c b n e v)
