-- ===== src/Engine/Diff.antt =====
-- py2fw/engine/diff.py. A frozenset is a list that is compared as a set.
pub mod Sameness
pub mod Changes
use Prim.Native.String.{String}
use py2fw.Common.{
  ℕ, ◌+◌, Bool, true, false, not, ◌&&◌, ◌||◌, Option, none, some, List, [], ◌∷◌, ◌++◌, any, all,
  elem, map, Dict, get, has, insert, if◌then◌else◌, leb, ltb, Eq, ◌==◌, ℕ_eq, String_eq, Bool_eq,
  list_eq, pair_eq, text, join, sorted_texts, from_keys,
}
use py2fw.Utils.Digits.{starts_with}
use py2fw.Compiler.Ir.{ServiceIr, PolicyIr, FirewallIr}
use py2fw.Compiler.Query.{address_values, service_values}

abbrev pub SignedService : Type 0
SignedService = String × List (ℕ × ℕ)

pub record RuleSignature : Type 0 where
  pub source : List String
  pub destination : List String
  pub services : List SignedService
  pub action : String
  pub enabled : Bool

module _ {ℓ} {A : Type ℓ} ⦃e : Eq A⦄ where
  -- `xs <= ys`, `xs == ys` and `xs > ys` of sets
  abbrev pub is_subset : List A → List A → Bool
  is_subset xs ys = all (λ x. elem x ys) xs

  abbrev pub same_set : List A → List A → Bool
  same_set xs ys = is_subset xs ys && is_subset ys xs

  abbrev pub is_proper_superset : List A → List A → Bool
  is_proper_superset xs ys = is_subset ys xs && not (is_subset xs ys)

abbrev pub signatures_equal : RuleSignature → RuleSignature → Bool
signatures_equal a b =
    same_set a.source b.source
    && (same_set a.destination b.destination
        && (same_set a.services b.services && (a.action == b.action && a.enabled == b.enabled)))

pub data Kind : Type 0 where
  added removed modified : Kind

pub record RuleChange : Type 0 where
  pub kind : Kind
  pub name : String
  pub before : Option RuleSignature
  pub after : Option RuleSignature
  pub notes : List String

abbrev pub signed : ServiceIr → SignedService
signed service = (service.protocol, map (λ r. (r.start, r.end)) service.ports.ranges)

unfoldable pub signature : FirewallIr → PolicyIr → RuleSignature
signature ir rule = record {
  source = address_values ir rule.source;
  destination = address_values ir rule.destination;
  services = map signed (service_values ir rule.services);
  action = rule.action;
  enabled = rule.enabled;
}

unfoldable pub fmt : List String → String
fmt values = text ("{" ∷ join ", " (sorted_texts (from_keys values)) ∷ "}" ∷ [])

abbrev pub note_if : Bool → String → List String
note_if true note = note ∷ []
note_if false note = []

unfoldable pub describe_change : RuleSignature → RuleSignature → List String
unfolding fmt
describe_change before after =
    note_if (not (before.action == after.action))
      (text ("action " ∷ before.action ∷ " -> " ∷ after.action ∷ []))
    ++ (note_if (not (before.enabled == after.enabled))
          (if before.enabled then "enabled -> disabled" else "disabled -> enabled")
        ++ (note_if (not (same_set before.source after.source))
              (text ("source " ∷ fmt before.source ∷ " -> " ∷ fmt after.source ∷ []))
            ++ (note_if
                  (not (same_set before.source after.source)
                    && (is_proper_superset after.source before.source || elem "any" after.source))
                  "source scope broadened"
                ++ (note_if (not (same_set before.destination after.destination)) (
                      text (
                        "destination "
                        ∷ fmt before.destination
                        ∷ " -> "
                        ∷ fmt after.destination
                        ∷ []))
                    ++ note_if (not (same_set before.services after.services))
                        "service set changed"))))

-- `{rule.name: rule for rule in policies}`
unfoldable pub rules_onto : Dict String PolicyIr → List PolicyIr → Dict String PolicyIr
unfolding insert
rules_onto table [] = table
rules_onto table (rule ∷ rules) = rules_onto (insert rule.name rule table) rules

abbrev pub addition : FirewallIr → String → PolicyIr → RuleChange
addition new name rule = record {
  kind = added;
  name = name;
  before = none;
  after = some (signature new rule);
  notes = [];
}

abbrev pub removal : FirewallIr → String → PolicyIr → RuleChange
removal old name rule = record {
  kind = removed;
  name = name;
  before = some (signature old rule);
  after = none;
  notes = [];
}

abbrev pub modification : String → RuleSignature → RuleSignature → RuleChange
modification name before after = record {
  kind = modified;
  name = name;
  before = some before;
  after = some after;
  notes = describe_change before after;
}

-- The loop over the new rules.
unfoldable pub new_changes :
    FirewallIr → FirewallIr → Dict String PolicyIr → Dict String PolicyIr → List RuleChange
unfolding get
new_changes old new old_rules [] = []
new_changes old new old_rules ((name, rule) ∷ rules) =
    let rest = new_changes old new old_rules rules in
    elim (get name old_rules) [
      | none ↦ addition new name rule ∷ rest
      | some old_rule ↦
          if signatures_equal (signature old old_rule) (signature new rule)
          then rest
          else modification name (signature old old_rule) (signature new rule) ∷ rest
    ]

-- The loop over the old rules.
unfoldable pub removals : FirewallIr → Dict String PolicyIr → Dict String PolicyIr → List RuleChange
unfolding has
removals old new_rules [] = []
removals old new_rules ((name, rule) ∷ rules) =
    let rest = removals old new_rules rules in
    if has name new_rules then rest else removal old name rule ∷ rest

unfoldable pub diff_policies : FirewallIr → FirewallIr → List RuleChange
unfolding rules_onto new_changes removals signature describe_change
diff_policies old new =
    let old_rules = rules_onto [] old.policies in
    let new_rules = rules_onto [] new.policies in
    new_changes old new old_rules new_rules ++ removals old new_rules old_rules

-- The action of a signature, and the empty text, which is no action, without one.
abbrev pub action_of : Option RuleSignature → String
action_of none = ""
action_of (some signature) = signature.action

abbrev pub points_if : Bool → ℕ → ℕ
points_if true points = points
points_if false points = 0

unfoldable pub change_points : RuleChange → ℕ
change_points change = elim change.kind [
  | added ↦ points_if (action_of change.after == "allow") 2
  | removed ↦
      points_if (elem (action_of change.before) ("deny" ∷ "reject" ∷ [])) 3
      + points_if (action_of change.before == "allow") 1
  | modified ↦
      points_if (elem "source scope broadened" change.notes) 2
      + points_if (any (λ n. starts_with "action" n) change.notes) 1
]

unfoldable pub total_points : List RuleChange → ℕ
unfolding change_points
total_points [] = 0
total_points (change ∷ changes) = change_points change + total_points changes

unfoldable pub risk : List RuleChange → String
unfolding total_points
risk changes =
    let score = total_points changes in
    if leb 5 score
    then "HIGH"
    else if leb 2 score
    then "MEDIUM"
    else if ltb 0 score
    then "LOW"
    else "NONE"
