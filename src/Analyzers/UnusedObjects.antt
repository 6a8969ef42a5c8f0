-- ===== src/Analyzers/UnusedObjects.antt =====
-- py2fw/analyzers/unused_objects.py. The frontier of `_expand` is a stack; its loop takes fuel, and
-- one more than the number of all names and members is enough, as each name enters once.
pub mod Closure
use py2fw.Common.{
  ℕ, zero, suc, ◌+◌, String, not, none, some, List, [], ◌∷◌, ◌++◌, elem, select, flat_map, map,
  length, Dict, keys, get, String_eq, if◌then◌else◌, text, sorted_texts,
}
use py2fw.Compiler.Ir.{FirewallIr}
use py2fw.Analyzers.Models.{Finding}

-- The sets `names` and the stack `frontier` of the loop.
pub record Expansion : Type 0 where
  pub names : List String
  pub frontier : List String

abbrev pub members_of : Dict String (List String) → String → List String
members_of groups name = elim (get name groups) [ none ↦ [] | some members ↦ members ]

-- The inner loop: a member that is new joins the names and goes on the stack.
unfoldable pub add_members : Expansion → List String → Expansion
add_members state [] = state
add_members state (member ∷ members) =
    add_members
      (if elem member state.names
        then state
        else record { names = state.names ++ member ∷ []; frontier = member ∷ state.frontier })
      members

unfoldable pub expand_from : ℕ → Dict String (List String) → Expansion → List String
unfolding add_members get
expand_from zero groups state = state.names
expand_from (suc fuel) groups state = elim state.frontier [
  | [] ↦ state.names
  | current ∷ frontier ↦ expand_from fuel groups (
      add_members (record { names = state.names; frontier = frontier }) (members_of groups current))
]

abbrev pub rounds : List String → Dict String (List String) → ℕ
rounds names groups =
    suc (length names + length (flat_map (λ (g : String × List String). g.1) groups))

unfoldable pub expand : List String → Dict String (List String) → List String
unfolding expand_from
expand names groups =
    expand_from (rounds names groups) groups (record { names = names; frontier = names })

unfoldable pub used_objects : FirewallIr → List String
unfolding expand
used_objects ir =
    expand ("any" ∷ flat_map (λ rule. rule.source ++ rule.destination) ir.policies) ir.groups

abbrev pub unused_object : FirewallIr → String → Finding
unused_object ir name = record {
  severity = "low";
  title = "Unused object";
  rule = none;
  detail = name;
  line = elim (get name ir.addresses) [ none ↦ none | some address ↦ address.line ];
  location = text ("objects." ∷ name ∷ []);
}

abbrev pub unused_service : FirewallIr → String → Finding
unused_service ir name = record {
  severity = "low";
  title = "Unused service";
  rule = none;
  detail = name;
  line = elim (get name ir.services) [ none ↦ none | some service ↦ service.line ];
  location = text ("services." ∷ name ∷ []);
}

unfoldable pub find_unused_objects : FirewallIr → List Finding
unfolding used_objects
find_unused_objects ir =
    map (unused_object ir)
      (sorted_texts (select (λ name. not (elem name (used_objects ir))) (keys ir.addresses)))

unfoldable pub find_unused_services : FirewallIr → List Finding
find_unused_services ir = map (unused_service ir) (
    sorted_texts (
      select (λ name. not (elem name ("any" ∷ flat_map (λ rule. rule.services) ir.policies)))
        (keys ir.services)))
