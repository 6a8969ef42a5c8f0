-- ===== src/Compiler/Query.antt =====
-- py2fw/compiler/query.py
use py2fw.Common.{
  String, ◌≡◌, ◌∙◌, Bool, Option, none, some, List, [], ◌∷◌, any, any-flat_map, elem, flat_map,
  from_keys, any-from_keys, get, String_eq,
}
use py2fw.Compiler.Ir.{AddressIr, ServiceIr, FirewallIr}

values_or_name : Option AddressIr → String → List String
values_or_name (some address) name = address.values
values_or_name none name = name ∷ []

-- The values of one name.
unfoldable pub name_values : FirewallIr → String → List String
unfolding values_or_name get
name_values ir name = values_or_name (get name ir.addresses) name

unfoldable pub address_values : FirewallIr → List String → List String
unfolding name_values
address_values ir names = from_keys (flat_map (name_values ir) names)

unfoldable pub resolves_to_any : FirewallIr → List String → Bool
unfolding address_values
resolves_to_any ir names = elem "any" (address_values ir names)

unfoldable pub service_values : FirewallIr → List String → List ServiceIr
unfolding get
service_values ir [] = []
service_values ir (name ∷ names) =
    let rest = service_values ir names in
    elim (get name ir.services) [ none ↦ rest | some service ↦ service ∷ rest ]

-- A test holds of some resolved value exactly when it holds of some value of some name:
-- removing the duplicates loses nothing.
pub any-address_values :
    (p : String → Bool) (ir : FirewallIr) (names : List String)
    → any p (address_values ir names) ≡ any (λ name. any p (name_values ir name)) names
any-address_values p ir names =
    unfold address_values in
    (any-from_keys p (flat_map (name_values ir) names) ∙ any-flat_map p (name_values ir) names)
