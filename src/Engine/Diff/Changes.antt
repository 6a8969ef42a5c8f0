-- ===== src/Engine/Diff/Changes.antt =====
-- What diff_policies of py2fw/engine/diff.py reports.
use package.text.Mathlib.TextEquality.{eq_iff}
use mathlib.Core.List.{append-nil}
use py2fw.Common.{
  ◌&&◌, ◌||◌, any, elem, get-insert, ◌≤◌, ◌≡◌, ◌⊎◌, refl, ap, ◌∙◌, Bool, true, false, not, List, [],
  ◌∷◌, ◌++◌, String, map, select, select-append, Dict, keys, get, has, has-get, insert, ◌==◌,
  String_eq, Bool_eq, ℕ_eq, list_eq, pair_eq, leb, arith, inl, inr, Bool-cases, Option-cases,
}
use py2fw.Compiler.Ir.{PolicyIr, FirewallIr}
use py2fw.Engine.Diff.{
  signatures_equal, added, removed, RuleChange, signature, rules_onto, new_changes, removals,
  diff_policies, action_of, change_points, total_points, risk,
}

abbrev pub is_added : RuleChange → Bool
is_added change = elim change.kind [ added ↦ true | _ ↦ false ]

abbrev pub is_removed : RuleChange → Bool
is_removed change = elim change.kind [ removed ↦ true | _ ↦ false ]

abbrev pub names : List RuleChange → List String
names changes = map (λ c. c.name) changes

new_changes-added :
    (old new : FirewallIr) (old_rules rules : Dict String PolicyIr)
    → (names (select is_added (new_changes old new old_rules rules))
        ≡ select (λ n. not (has n old_rules)) (keys rules))
      × (select is_removed (new_changes old new old_rules rules) ≡ [])
unfolding new_changes
new_changes-added old new old_rules [] = (refl, refl)
new_changes-added old new old_rules ((name, rule) ∷ rules) =
    let (a, r) = new_changes-added old new old_rules rules in
    elim (Option-cases (get name old_rules)) [
      | inl g ↦ (ground (arith, g, a, has-get name old_rules), ground (arith, g, r))
      | inr (old_rule, g) ↦
          elim (Bool-cases (signatures_equal (signature old old_rule) (signature new rule))) [
            | inl same ↦
                (ground (arith, g, same, a, has-get name old_rules), ground (arith, g, same, r))
            | inr other ↦
                (ground (arith, g, other, a, has-get name old_rules), ground (arith, g, other, r))
          ]
    ]

removals-removed :
    (old : FirewallIr) (new_rules rules : Dict String PolicyIr)
    → (names (select is_removed (removals old new_rules rules))
        ≡ select (λ n. not (has n new_rules)) (keys rules))
      × (select is_added (removals old new_rules rules) ≡ [])
unfolding removals
removals-removed old new_rules [] = (refl, refl)
removals-removed old new_rules ((name, rule) ∷ rules) =
    let (a, r) = removals-removed old new_rules rules in (ground (arith, a), ground (arith, r))

elem-keys : (name : String) (table : Dict String PolicyIr) → elem name (keys table) ≡ has name table
unfolding has
elem-keys name [] = refl
elem-keys name ((key, rule) ∷ table) =
    ground (arith, elem-keys name table, eq_iff key name, eq_iff name key)

elem-select :
    (p : String → Bool) (name : String) (xs : List String)
    → elem name (select p xs) ≡ (elem name xs && p name)
elem-select p name [] = refl
elem-select p name (x ∷ xs) = elim (Bool-cases (x == name)) [
  | inl e ↦
      let same : p x ≡ p name = ap p ((eq_iff x name).0 e) in
      ground (arith, e, same, elem-select p name xs)
  | inr e ↦ ground (arith, e, elem-select p name xs)
]

-- The table of a policy has the names of its rules.
has-rules_onto :
    (name : String) (table : Dict String PolicyIr) (rules : List PolicyIr)
    → has name (rules_onto table rules) ≡ (has name table || any (λ rule. rule.name == name) rules)
unfolding rules_onto
has-rules_onto name table [] = ground arith
has-rules_onto name table (rule ∷ rules) = ground (
  arith,
  has-rules_onto name (insert rule.name rule table) rules,
  has-get name table,
  has-get name (insert rule.name rule table),
  get-insert rule.name name rule table,
)

-- Some rule of the policy has the name.
abbrev pub is_named : FirewallIr → String → Bool
is_named ir name = any (λ rule. rule.name == name) ir.policies

has-is_named :
    (ir : FirewallIr) (name : String) → has name (rules_onto [] ir.policies) ≡ is_named ir name
has-is_named ir name = has-rules_onto name [] ir.policies ∙ (unfold has in refl)

-- A name is among the added rules exactly when a rule of the new policy has it and none of the old
-- one, and among the removed rules exactly when a rule of the old policy has it and none of the
-- new one.
pub diff_policies-names :
    (old new : FirewallIr) (name : String)
    → (elem name (names (select is_added (diff_policies old new)))
        ≡ (is_named new name && not (is_named old name)))
      × (elem name (names (select is_removed (diff_policies old new)))
          ≡ (is_named old name && not (is_named new name)))
unfolding diff_policies
diff_policies-names old new name =
    let old_rules : Dict String PolicyIr = rules_onto [] old.policies in
    let new_rules : Dict String PolicyIr = rules_onto [] new.policies in
    let (a, r) = new_changes-added old new old_rules new_rules in
    let (d, n) = removals-removed old new_rules old_rules in
    let members : (table other : Dict String PolicyIr)
        → elem name (select (λ k. not (has k other)) (keys table))
          ≡ (has name table && not (has name other)) =
      λ table other.
        elem-select (λ k. not (has k other)) name (keys table)
        ∙ ap (λ b. b && not (has name other)) (elem-keys name table) in
    (
      ap (elem name) (
            ap names (
              select-append is_added (new_changes old new old_rules new_rules)
                (removals old new_rules old_rules)
              ∙ rw n (append-nil _))
            ∙ a)
          ∙ (members new_rules old_rules ∙ rw (has-is_named new name, has-is_named old name) refl),
      ap (elem name) (
            ap names (
              select-append is_removed (new_changes old new old_rules new_rules)
                (removals old new_rules old_rules)
              ∙ rw r refl)
            ∙ d)
          ∙ (members old_rules new_rules ∙ rw (has-is_named new name, has-is_named old name) refl),
    )

points_at :
    (before : List RuleChange) (change : RuleChange) (after : List RuleChange)
    → change_points change ≤ total_points (before ++ change ∷ after)
unfolding total_points
points_at [] change after = omega arith
points_at (c ∷ before) change after = omega (arith, points_at before change after)

-- A diff that adds an allow rule is at least of medium risk.
pub risk_added_allow :
    (before : List RuleChange) (change : RuleChange) (after : List RuleChange)
    → change.kind ≡ added
    → action_of change.after ≡ "allow"
    → (risk (before ++ change ∷ after) ≡ "MEDIUM") ⊎ (risk (before ++ change ∷ after) ≡ "HIGH")
unfolding risk
risk_added_allow before change after k a =
    let points = points_at before change after in
    let two : change_points change ≡ 2 =
      unfold change_points in ground (arith, k, a, eq_iff (action_of change.after) "allow") in
    elim (Bool-cases (leb 5 (total_points (before ++ change ∷ after)))) [
      | inl high ↦ inr (ground (arith, high))
      | inr low ↦ inl (ground (arith, low, points, two))
    ]
