-- ===== src/Cli/Outcome.antt =====
-- Calls that return or raise: the exceptions of py2fw that its commands tell apart.
use py2fw.Common.{String, List, Option, none, some, ◌≡◌, ◌⊎◌, inl, inr, refl, arith}

-- A raised exception: a `ParseError`, a `CompileError`, a `BaselineError`, the `KeyError` of an unknown target, a
-- `ReleaseError` with its reasons, and any other one.
pub data Failure : Type 0 where
  parse_error : Failure
  compile_error : String → Failure
  baseline_error : Failure
  unknown_target : String → Failure
  release_error : String → List String → Failure
  crashed : Failure

pub data Outcome {ℓ} (A : Type ℓ) : Type ℓ where
  returned : A → Outcome A
  raised : Failure → Outcome A

-- The statements after a call, which an exception skips.
infixl 5 ◌>>=◌
abbrev pub ◌>>=◌ {ℓ κ} : {A : Type ℓ} {B : Type κ} → Outcome A → (A → Outcome B) → Outcome B
returned a >>= next = next a
raised failure >>= next = raised failure

-- A call whose only exception is the given one.
abbrev pub or_raise {ℓ} : {A : Type ℓ} → Failure → Option A → Outcome A
or_raise failure none = raised failure
or_raise failure (some a) = returned a

-- A sequence of calls that returns has returned from its first call.
pub >>=-returned {ℓ κ} :
    {A : Type ℓ} {B : Type κ} (call : Outcome A) (next : A → Outcome B) {b : B}
    → (call >>= next) ≡ returned b
    → (a : A) × (call ≡ returned a) × (next a ≡ returned b)
>>=-returned (returned a) next h = (a, ground arith, h)
>>=-returned (raised failure) next h = ground (arith, h)

pub or_raise-returned {ℓ} :
    {A : Type ℓ} (failure : Failure) (call : Option A) {a : A}
    → or_raise failure call ≡ returned a
    → call ≡ some a
or_raise-returned failure none h = ground (arith, h)
or_raise-returned failure (some b) h = ground (arith, h)

pub Outcome-cases {ℓ} :
    {A : Type ℓ} (call : Outcome A)
    → ((failure : Failure) × (call ≡ raised failure)) ⊎ ((a : A) × (call ≡ returned a))
Outcome-cases (raised failure) = inl (failure, refl)
Outcome-cases (returned a) = inr (a, refl)
