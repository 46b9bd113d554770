-- ===== src/Prelude/Outcome.antt =====
-- A computation over a world `W` that may run into undefined behaviour.
use mathlib.Core.Path.{◌≡◌, refl}

-- What the code does that C++ gives no meaning to.
pub data Fault : Type 0 where
  -- a `memcpy` or `strncpy` outside of its object
  out_of_bounds : Fault
  -- a null pointer is read
  null_pointer : Fault
  -- a variable is read that nothing has set
  uninitialised : Fault

pub data Result {ℓ} (A : Type ℓ) : Type ℓ where
  ok : A → Result A
  ub : Fault → Result A

abbrev pub M : Type 0 → Type 0 → Type 0
M W A = W → Result (A × W)

abbrev pub pure : {W A : Type 0} → A → M W A
pure a w = ok (a, w)

abbrev pub fault : {W A : Type 0} → Fault → M W A
fault e w = ub e

-- A call of the host.
abbrev pub call : {W A : Type 0} → (W → A × W) → M W A
call f w = ok (f w)

abbrev pub run : {W : Type 0} → (W → W) → M W (Unit {0})
run f w = ok (tt, f w)

infixl 5 ◌>>=◌ ◌>>◌
abbrev pub ◌>>=◌ : {W A B : Type 0} → M W A → (A → M W B) → M W B
◌>>=◌ m f w = elim (m w) [ ok p ↦ f p.0 p.1 | ub e ↦ ub e ]

abbrev pub ◌>>◌ : {W B : Type 0} → M W (Unit {0}) → M W B → M W B
m >> k = m >>= λ _. k

-- The computation meets no undefined behaviour, and what it returns satisfies `P`.
abbrev pub Returns : {W A : Type 0} → Result (A × W) → (A → W → Type 0) → Type 0
Returns (ok p) P = P p.0 p.1
Returns (ub e) P = ⊥

-- A bind whose first part is known.
pub >>=-ok :
    {W A B : Type 0} (m : M W A) (f : A → M W B) {w : W} {p : A × W}
    → m w ≡ ok p
    → (m >>= f) w ≡ f p.0 p.1
>>=-ok m f h = rw (h, ◌>>=◌)

pub Returns->>= :
    {W A B : Type 0} (m : M W A) (f : A → M W B) (P : A → W → Type 0) (Q : B → W → Type 0) (w : W)
    → Returns (m w) P
    → ((a : A) (w' : W) → P a w' → Returns (f a w') Q)
    → Returns ((m >>= f) w) Q
Returns->>= {W} {A} {B} m f P Q w h k = after (m w) h
  where
    after :
        (r : Result (A × W)) → Returns r P → Returns (elim r [ ok p ↦ f p.0 p.1 | ub e ↦ ub e ]) Q
    after (ok p) h' = k p.0 p.1 h'
    after (ub e) h' = absurd h'

pub Returns-map :
    {W A : Type 0} (P Q : A → W → Type 0) (r : Result (A × W))
    → Returns r P
    → ((a : A) (w : W) → P a w → Q a w)
    → Returns r Q
Returns-map P Q (ok p) h k = k p.0 p.1 h
Returns-map P Q (ub e) h k = absurd h

-- The value that a computation returns.
pub Returns-value :
    {W A : Type 0} (P : A → W → Type 0) (r : Result (A × W))
    → Returns r P
    → (a : A) × (w : W) × (r ≡ ok (a, w)) × P a w
Returns-value P (ok p) h = (p.0, p.1, refl, h)
Returns-value P (ub e) h = absurd h
