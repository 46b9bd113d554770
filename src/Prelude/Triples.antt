-- ===== src/Prelude/Triples.antt =====
-- What a computation keeps, whether it returns or not: one rule for each way to build a computation.
-- Undefined behaviour ends a run, so it keeps everything.
use mathlib.Core.Option.{Option, none, some}
use mathlib.Core.Bool.{Bool, true, false}
use socket_server.Prelude.Tests.{if◌then◌else◌}
use socket_server.Prelude.Outcome.{Fault, Result, ok, ub, M, pure, fault, call, run, ◌>>=◌, Returns}

-- The result, if there is one, satisfies `Q`.
abbrev pub IfOk : {W A : Type 0} → (A → W → Type 0) → Result (A × W) → Type 0
IfOk Q (ok p) = Q p.0 p.1
IfOk Q (ub e) = Unit

-- From a world with `P` the computation ends, if it does, with `Q`.
pub record Triple {W A : Type 0} (P : W → Type 0) (m : M W A) (Q : A → W → Type 0) : Type 0 where
  pub at : (w : W) → P w → IfOk Q (m w)

-- `m` keeps `P`.
abbrev pub Keeps : {W A : Type 0} → (W → Type 0) → M W A → Type 0
Keeps P m = Triple P m (λ _. P)

-- A computation that returns, and what it keeps.
pub Returns-IfOk :
    {W A : Type 0} (Q R : A → W → Type 0) (r : Result (A × W))
    → Returns r Q
    → IfOk R r
    → Returns r (λ a w. Q a w × R a w)
Returns-IfOk Q R (ok p) q k = (q, k)
Returns-IfOk Q R (ub e) q k = absurd q

IfOk-bind :
    {W A B : Type 0} (R : A → W → Type 0) (Q : B → W → Type 0) (f : A → M W B) (r : Result (A × W))
    → IfOk R r
    → ((a : A) → Triple (R a) (f a) Q)
    → IfOk Q (elim r [ ok p ↦ f p.0 p.1 | ub e ↦ ub e ])
IfOk-bind R Q f (ok p) h k = (k p.0).at p.1 h
IfOk-bind R Q f (ub e) h k = tt

pub Triple-bind :
    {W A B : Type 0} {P : W → Type 0} (R : A → W → Type 0) {Q : B → W → Type 0} (m : M W A)
    (f : A → M W B)
    → Triple P m R
    → ((a : A) → Triple (R a) (f a) Q)
    → Triple P (m >>= f) Q
Triple-bind R m f h k = record { at = λ w p. IfOk-bind R _ f (m w) (h.at w p) k }

module _ {W A : Type 0} {P : W → Type 0} where
  pub Keeps-pure : (a : A) → Keeps P (pure a)
  Keeps-pure a = record { at = λ w h. h }

  pub Keeps-fault : (e : Fault) → Keeps {A = A} P (fault e)
  Keeps-fault e = record { at = λ w h. tt }

  pub Keeps-call : (f : W → A × W) → ((w : W) → P w → P (f w).1) → Keeps P (call f)
  Keeps-call f h = record { at = h }

  pub Keeps-if : (b : Bool) (m n : M W A) → Keeps P m → Keeps P n → Keeps P (if b then m else n)
  Keeps-if true m n km kn = km
  Keeps-if false m n km kn = kn

pub Triple-if :
    {W A : Type 0} {P : W → Type 0} {Q : A → W → Type 0} (b : Bool) (m n : M W A)
    → Triple P m Q
    → Triple P n Q
    → Triple P (if b then m else n) Q
Triple-if true m n tm tn = tm
Triple-if false m n tm tn = tn

-- The end of a computation, where less is asked for.
pub Triple-pure :
    {W A : Type 0} {P : W → Type 0} {Q : A → W → Type 0} (a : A)
    → ((w : W) → P w → Q a w)
    → Triple P (pure a) Q
Triple-pure a h = record { at = h }

pub Keeps-run :
    {W : Type 0} {P : W → Type 0} (f : W → W) → ((w : W) → P w → P (f w)) → Keeps P (run f)
Keeps-run f h = record { at = h }

pub Keeps-bind :
    {W A B : Type 0} {P : W → Type 0} (m : M W A) (f : A → M W B)
    → Keeps P m
    → ((a : A) → Keeps P (f a))
    → Keeps P (m >>= f)
Keeps-bind {P = P} m f km kf = Triple-bind (λ _. P) m f km kf

module _ {W A : Type 0} {P : W → Type 0} where
  pub Keeps-option :
      {B : Type 0} (o : Option B) (n : M W A) (s : B → M W A)
      → Keeps P n
      → ((b : B) → Keeps P (s b))
      → Keeps P (elim o [ none ↦ n | some b ↦ s b ])
  Keeps-option none n s kn ks = kn
  Keeps-option (some b) n s kn ks = ks b

  pub Keeps-bool :
      (b : Bool) (m n : M W A) → Keeps P m → Keeps P n → Keeps P (elim b [ false ↦ m | true ↦ n ])
  Keeps-bool false m n km kn = km
  Keeps-bool true m n km kn = kn

pub ruleset keeps_rules =
    (Keeps-pure, Keeps-fault, Keeps-call, Keeps-run, Keeps-if, Keeps-bind, Keeps-option, Keeps-bool)

-- From a world with `P` the computation ends without undefined behaviour, with `Q`.
pub record Ends {W A : Type 0} (P : W → Type 0) (m : M W A) (Q : A → W → Type 0) : Type 0 where
  pub at : (w : W) → P w → Returns (m w) Q

Returns-bind :
    {W A B : Type 0} (R : A → W → Type 0) (Q : B → W → Type 0) (f : A → M W B) (r : Result (A × W))
    → Returns r R
    → ((a : A) → Ends (R a) (f a) Q)
    → Returns (elim r [ ok p ↦ f p.0 p.1 | ub e ↦ ub e ]) Q
Returns-bind R Q f (ok p) h k = (k p.0).at p.1 h
Returns-bind R Q f (ub e) h k = absurd h

pub Ends-bind :
    {W A B : Type 0} {P : W → Type 0} (R : A → W → Type 0) {Q : B → W → Type 0} (m : M W A)
    (f : A → M W B)
    → Ends P m R
    → ((a : A) → Ends (R a) (f a) Q)
    → Ends P (m >>= f) Q
Ends-bind R m f h k = record { at = λ w p. Returns-bind R _ f (m w) (h.at w p) k }

module _ {W A : Type 0} {P : W → Type 0} {Q : A → W → Type 0} where
  pub Ends-pure : (a : A) → ((w : W) → P w → Q a w) → Ends P (pure a) Q
  Ends-pure a h = record { at = h }

  pub Ends-call : (f : W → A × W) → ((w : W) → P w → Q (f w).0 (f w).1) → Ends P (call f) Q
  Ends-call f h = record { at = h }

  pub Ends-if : (b : Bool) (m n : M W A) → Ends P m Q → Ends P n Q → Ends P (if b then m else n) Q
  Ends-if true m n hm hn = hm
  Ends-if false m n hm hn = hn

pub Ends-run :
    {W : Type 0} {P Q : W → Type 0} (f : W → W)
    → ((w : W) → P w → Q (f w))
    → Ends P (run f) (λ _. Q)
Ends-run f h = record { at = h }
