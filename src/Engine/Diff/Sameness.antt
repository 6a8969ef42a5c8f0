-- ===== src/Engine/Diff/Sameness.antt =====
-- A policy differs from itself in nothing: py2fw/engine/diff.py.
use package.text.Mathlib.TextEquality.{eq_iff}
use py2fw.Common.{
  ◌≡◌, refl, true, false, some, List, [], ◌∷◌, String, All, Dict, get, has-get, insert, Eq, ◌==◌,
  String_eq, Bool_eq, ℕ_eq, list_eq, pair_eq, arith, inl, inr, Bool-cases,
}
use py2fw.Compiler.Ir.{PolicyIr, FirewallIr}
use py2fw.Engine.Diff.{
  RuleSignature, is_subset, same_set, signatures_equal, signature, rules_onto, new_changes,
  removals, diff_policies,
}

module _ {ℓ} {A : Type ℓ} ⦃e : Eq A⦄ where
  subset-cons : (y : A) (xs ys : List A) → is_subset xs ys ≡ true → is_subset xs (y ∷ ys) ≡ true
  subset-cons y [] ys h = refl
  subset-cons y (x ∷ xs) ys h = ground (arith, h, subset-cons y xs ys)

  subset_refl : (xs : List A) → is_subset xs xs ≡ true
  subset_refl [] = refl
  subset_refl (x ∷ xs) = ground (arith, e.equal_iff x x, subset-cons x xs xs (subset_refl xs))

  same_set_refl : (xs : List A) → same_set xs xs ≡ true
  same_set_refl xs = ground (arith, subset_refl xs)

signatures_equal_refl : (s : RuleSignature) → signatures_equal s s ≡ true
signatures_equal_refl s = ground (
  arith,
  same_set_refl s.source,
  same_set_refl s.destination,
  same_set_refl s.services,
  eq_iff s.action s.action,
  Bool_eq.equal_iff s.enabled s.enabled,
)

-- No key of a table is the given one; no key stands twice.
abbrev Fresh {ℓ} : {V : Type ℓ} → String → Dict String V → Type 0
Fresh k [] = Unit
Fresh k ((j, v) ∷ d) = ((k == j) ≡ false) × Fresh k d

abbrev Distinct {ℓ} : {V : Type ℓ} → Dict String V → Type 0
Distinct [] = Unit
Distinct ((k, v) ∷ d) = Fresh k d × Distinct d

module _ {ℓ} {V : Type ℓ} where
  insert-Fresh :
      (j k : String) (v : V) (d : Dict String V)
      → (j == k) ≡ false
      → Fresh j d
      → Fresh j (insert k v d)
  unfolding insert
  insert-Fresh j k v [] n f = (n, tt)
  insert-Fresh j k v ((i, w) ∷ d) n f = elim (Bool-cases (i == k)) [
    | inl same ↦ rw same f
    | inr other ↦ rw other (f.0, insert-Fresh j k v d n f.1)
  ]

  insert-Distinct : (k : String) (v : V) (d : Dict String V) → Distinct d → Distinct (insert k v d)
  unfolding insert
  insert-Distinct k v [] h = (tt, tt)
  insert-Distinct k v ((i, w) ∷ d) h = elim (Bool-cases (i == k)) [
    | inl same ↦ rw same h
    | inr other ↦ rw other (insert-Fresh i k v d other h.0, insert-Distinct k v d h.1)
  ]

  -- Every entry of a table is what its key finds.
  abbrev Finds : Dict String V → Dict String V → Type ℓ
  Finds table entries = All (λ (p : String × V). get p.0 table ≡ some p.1) entries

  Finds-cons :
      (k : String) (v : V) (table entries : Dict String V)
      → Fresh k entries
      → Finds table entries
      → Finds ((k, v) ∷ table) entries
  unfolding get
  Finds-cons k v table [] f h = tt
  Finds-cons k v table ((j, w) ∷ entries) f h =
      (ground (arith, f.0, h.0), Finds-cons k v table entries f.1 h.1)

  Distinct-Finds : (table : Dict String V) → Distinct table → Finds table table
  Distinct-Finds [] h = tt
  Distinct-Finds ((k, v) ∷ table) h = (
    unfold get in ground (arith, eq_iff k k),
    Finds-cons k v table table h.0 (Distinct-Finds table h.1),
  )

rules_onto-Distinct :
    (table : Dict String PolicyIr) (rules : List PolicyIr)
    → Distinct table
    → Distinct (rules_onto table rules)
unfolding rules_onto
rules_onto-Distinct table [] h = h
rules_onto-Distinct table (rule ∷ rules) h =
    rules_onto-Distinct (insert rule.name rule table) rules (insert-Distinct rule.name rule table h)

new_changes-same :
    (ir : FirewallIr) (table entries : Dict String PolicyIr)
    → Finds table entries
    → new_changes ir ir table entries ≡ []
unfolding new_changes
new_changes-same ir table [] h = refl
new_changes-same ir table ((name, rule) ∷ entries) h =
    ground
      (arith, h.0, signatures_equal_refl (signature ir rule), new_changes-same ir table entries h.1)

removals-same :
    (ir : FirewallIr) (table entries : Dict String PolicyIr)
    → Finds table entries
    → removals ir table entries ≡ []
unfolding removals
removals-same ir table [] h = refl
removals-same ir table ((name, rule) ∷ entries) h =
    ground (arith, h.0, has-get name table, removals-same ir table entries h.1)

-- A policy differs from itself in nothing.
pub diff_policies-same : (ir : FirewallIr) → diff_policies ir ir ≡ []
unfolding diff_policies
diff_policies-same ir =
    let table : Dict String PolicyIr = rules_onto [] ir.policies in
    let finds = Distinct-Finds table (rules_onto-Distinct [] ir.policies tt) in
    ground (arith, new_changes-same ir table table finds, removals-same ir table table finds)
