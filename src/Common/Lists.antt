-- ===== src/Common/Lists.antt =====
-- Python's list operations over Boolean tests: `any`, `all`, `in`, comprehensions with `if`.
use Prim.Native.Nat.{ℕ, suc, ◌+◌}
use mathlib.Core.Path.{◌≡◌, refl}
use mathlib.Core.Logic.{inl, inr}
use mathlib.Core.Bool.{Bool, true, false, not, ◌&&◌, ◌||◌}
use mathlib.Core.List.{List, [], ◌∷◌, ◌++◌, map}
use native.Mathlib.Omega.{arith}
use py2fw.Common.Tests.{Eq, ◌==◌, if◌then◌else◌, Bool-cases}

module _ {ℓ} {A : Type ℓ} where
  abbrev pub length : List A → ℕ
  length [] = 0
  length (x ∷ xs) = suc (length xs)

  abbrev pub any : (A → Bool) → List A → Bool
  any p [] = false
  any p (x ∷ xs) = p x || any p xs

  abbrev pub all : (A → Bool) → List A → Bool
  all p [] = true
  all p (x ∷ xs) = p x && all p xs

  abbrev pub is_empty : List A → Bool
  is_empty [] = true
  is_empty (x ∷ xs) = false

  -- `[x for x in xs if p(x)]`
  abbrev pub select : (A → Bool) → List A → List A
  select p [] = []
  select p (x ∷ xs) = let rest = select p xs in if p x then x ∷ rest else rest

  abbrev pub All {κ} : (A → Type κ) → List A → Type κ
  All P [] = Unit
  All P (x ∷ xs) = P x × All P xs

  pub length-append : (xs ys : List A) → length (xs ++ ys) ≡ length xs + length ys
  length-append [] ys = omega arith
  length-append (x ∷ xs) ys = omega (arith, length-append xs ys)

  pub any-append : (p : A → Bool) (xs ys : List A) → any p (xs ++ ys) ≡ (any p xs || any p ys)
  any-append p [] ys = refl
  any-append p (x ∷ xs) ys = ground (arith, any-append p xs ys)

  pub any-select : (p q : A → Bool) (xs : List A) → any q (select p xs) ≡ any (λ x. p x && q x) xs
  any-select p q [] = refl
  any-select p q (x ∷ xs) = ground (arith, any-select p q xs)

  pub any_same : (p q : A → Bool) → ((x : A) → p x ≡ q x) → (xs : List A) → any p xs ≡ any q xs
  any_same p q h [] = refl
  any_same p q h (x ∷ xs) = ground (arith, h x, any_same p q h xs)

  pub all_same : (p q : A → Bool) → ((x : A) → p x ≡ q x) → (xs : List A) → all p xs ≡ all q xs
  all_same p q h [] = refl
  all_same p q h (x ∷ xs) = ground (arith, h x, all_same p q h xs)

  pub all-append : (p : A → Bool) (xs ys : List A) → all p (xs ++ ys) ≡ (all p xs && all p ys)
  all-append p [] ys = refl
  all-append p (x ∷ xs) ys = ground (arith, all-append p xs ys)

  pub is_empty-append : (xs ys : List A) → is_empty (xs ++ ys) ≡ (is_empty xs && is_empty ys)
  is_empty-append [] ys = refl
  is_empty-append (x ∷ xs) ys = refl

  pub is_empty-select :
      (p : A → Bool) (xs : List A) → is_empty (select p xs) ≡ all (λ x. not (p x)) xs
  is_empty-select p [] = refl
  is_empty-select p (x ∷ xs) = ground (arith, is_empty-select p xs)

  pub select-append :
      (p : A → Bool) (xs ys : List A) → select p (xs ++ ys) ≡ select p xs ++ select p ys
  select-append p [] ys = refl
  select-append p (x ∷ xs) ys = ground (arith, select-append p xs ys)

  -- A position of a list: what stands before an element, and what stands behind it.
  pub any-split :
      (p : A → Bool) (xs : List A)
      → any p xs ≡ true
      → (before : List A) × (x : A) × (after : List A) × (xs ≡ before ++ x ∷ after) × (p x ≡ true)
  any-split p [] h = ground arith
  any-split p (x ∷ xs) h = elim (Bool-cases (p x)) [
    | inl here ↦ ([], x, xs, refl, here)
    | inr there ↦
        let (before, y, after, e, hy) = any-split p xs (ground arith) in
        (x ∷ before, y, after, ground arith, hy)
  ]

  pub any_at :
      (p : A → Bool) (before : List A) (x : A) (after : List A)
      → p x ≡ true
      → any p (before ++ x ∷ after) ≡ true
  any_at p [] x after h = ground arith
  any_at p (y ∷ before) x after h = ground (arith, any_at p before x after h)

  pub all_at :
      (p : A → Bool) (before : List A) (x : A) (after : List A)
      → all p (before ++ x ∷ after) ≡ true
      → p x ≡ true
  all_at p [] x after h = ground arith
  all_at p (y ∷ before) x after h = all_at p before x after (ground arith)

module _ {ℓ κ} {A : Type ℓ} {B : Type κ} where
  -- `[y for x in xs for y in f(x)]`
  abbrev pub flat_map : (A → List B) → List A → List B
  flat_map f [] = []
  flat_map f (x ∷ xs) = f x ++ flat_map f xs

  pub is_empty-flat_map :
      (f : A → List B) (xs : List A) → is_empty (flat_map f xs) ≡ all (λ x. is_empty (f x)) xs
  is_empty-flat_map f [] = refl
  is_empty-flat_map f (x ∷ xs) =
      ground (arith, is_empty-append (f x) (flat_map f xs), is_empty-flat_map f xs)

  pub any-map : (p : B → Bool) (f : A → B) (xs : List A) → any p (map f xs) ≡ any (λ x. p (f x)) xs
  any-map p f [] = refl
  any-map p f (x ∷ xs) = ground (arith, any-map p f xs)

  pub any-flat_map :
      (p : B → Bool) (f : A → List B) (xs : List A)
      → any p (flat_map f xs) ≡ any (λ x. any p (f x)) xs
  any-flat_map p f [] = refl
  any-flat_map p f (x ∷ xs) =
      ground (arith, any-append p (f x) (flat_map f xs), any-flat_map p f xs)

module _ {ℓ} {A : Type ℓ} ⦃e : Eq A⦄ where
  -- `x in xs`
  abbrev pub elem : A → List A → Bool
  elem x xs = any (λ y. y == x) xs

  -- `dict.fromkeys`, from the keys that are there already.
  abbrev pub from_keys_onto : List A → List A → List A
  from_keys_onto seen [] = seen
  from_keys_onto seen (x ∷ xs) = from_keys_onto (if elem x seen then seen else seen ++ x ∷ []) xs

  -- `tuple(dict.fromkeys(xs))`
  abbrev pub from_keys : List A → List A
  from_keys = from_keys_onto []

  elem-any : (p : A → Bool) (x : A) (xs : List A) → elem x xs ≡ true → p x ≡ true → any p xs ≡ true
  elem-any p x [] h k = cc
  elem-any p x (y ∷ ys) h k = ground (arith, e.equal_iff y x, elem-any p x ys)

  any-from_keys_onto :
      (p : A → Bool) (seen xs : List A) → any p (from_keys_onto seen xs) ≡ (any p seen || any p xs)
  any-from_keys_onto p seen [] = ground arith
  any-from_keys_onto p seen (x ∷ xs) = elim (Bool-cases (elem x seen)) [
    | inl old ↦ rw old (ground (arith, any-from_keys_onto p seen xs, elem-any p x seen old))
    | inr new ↦
        rw new
          (ground (arith, any-from_keys_onto p (seen ++ x ∷ []) xs, any-append p seen (x ∷ [])))
  ]

  -- Removing duplicates keeps every test on the members.
  pub any-from_keys : (p : A → Bool) (xs : List A) → any p (from_keys xs) ≡ any p xs
  any-from_keys p xs = any-from_keys_onto p [] xs
