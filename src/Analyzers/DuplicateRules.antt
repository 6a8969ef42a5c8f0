-- ===== src/Analyzers/DuplicateRules.antt =====
-- py2fw/analyzers/duplicate_rules.py
use py2fw.Common.{
  String, none, some, List, [], ◌∷◌, Dict, get, insert, String_eq, list_eq, pair_eq, text,
}
use py2fw.Compiler.Ir.{PolicyIr, FirewallIr}
use py2fw.Analyzers.Models.{Finding, rule_finding}

abbrev pub Fingerprint : Type 0
Fingerprint = List String × (List String × (List String × String))

abbrev pub fingerprint : PolicyIr → Fingerprint
fingerprint rule = (rule.source, (rule.destination, (rule.services, rule.action)))

-- The loop, with the fingerprints seen so far and the first rule of each.
unfoldable pub duplicates_from : Dict Fingerprint String → List PolicyIr → List Finding
duplicates_from seen [] = []
duplicates_from seen (rule ∷ rules) = elim (get (fingerprint rule) seen) [
  | some first ↦
      rule_finding rule "medium" "Duplicate rule" (text ("Duplicates " ∷ first ∷ []))
      ∷ duplicates_from seen rules
  | none ↦ duplicates_from (insert (fingerprint rule) rule.name seen) rules
]

unfoldable pub find_duplicate_rules : FirewallIr → List Finding
unfolding duplicates_from get insert
find_duplicate_rules ir = duplicates_from [] ir.policies
