-- ===== src/Compiler/Resolver.antt =====
-- py2fw/compiler/resolver.py. The recursion through the groups takes fuel; one more than the
-- number of groups is enough.
pub mod Fuel
pub mod Reach
use py2fw.Common.{
  ℕ, zero, suc, String, true, false, none, some, List, [], ◌∷◌, ◌++◌, map, elem, from_keys, length,
  Dict, keys, get, insert, ◌==◌, String_eq,
}
use py2fw.IpAddress.{IpText}
use py2fw.Utils.Ip.{normalize_network}
use py2fw.Parser.Schema.{PolicyDocument}

-- A result, or one of the two ResolutionErrors; a circular reference comes with its names.
pub data Resolved {ℓ} (A : Type ℓ) : Type ℓ where
  ok : A → Resolved A
  unknown : String → Resolved A
  circular : List String → Resolved A
  exhausted : Resolved A

infixl 5 ◌>>=◌
abbrev pub ◌>>=◌ {ℓ κ} : {A : Type ℓ} {B : Type κ} → Resolved A → (A → Resolved B) → Resolved B
ok a >>= f = f a
unknown name >>= f = unknown name
circular names >>= f = circular names
exhausted >>= f = exhausted

-- The loop over the members of a group.
unfoldable pub resolve_members :
    (String → Resolved (List String)) → List String → Resolved (List String)
resolve_members resolve [] = ok []
resolve_members resolve (member ∷ members) = do
  values ← resolve member
  rest ← resolve_members resolve members
  ok (values ++ rest)

module _ (ip : IpText) (objects groups : Dict String (List String)) where
  unfoldable pub resolve_group : ℕ → String → List String → Resolved (List String)
  resolve_group zero name stack = exhausted
  resolve_group (suc fuel) name stack = elim (get name objects) [
    | some values ↦ ok (map (normalize_network ip) values)
    | none ↦ (elim (name == "any") [
      | true ↦ ok ("any" ∷ [])
      | false ↦ (elim (get name groups) [
        | none ↦ unknown name
        | some members ↦ (elim (elem name stack) [
          | true ↦ circular (stack ++ name ∷ [])
          | false ↦ (do
            values ←
                resolve_members (λ member. resolve_group fuel member (stack ++ name ∷ [])) members
            ok (from_keys values))
        ])
      ])
    ])
  ]

  abbrev pub enough : ℕ
  enough = suc (length groups)

-- One of the two loops of `resolve_rule_references`.
unfoldable pub resolve_names :
    (String → Resolved (List String))
    → List String
    → Dict String (List String)
    → Resolved (Dict String (List String))
unfolding insert
resolve_names resolve [] resolved = ok resolved
resolve_names resolve (name ∷ names) resolved = do
  values ← resolve name
  resolve_names resolve names (insert name values resolved)

unfoldable pub resolve_rule_references :
    IpText → PolicyDocument → Resolved (Dict String (List String))
unfolding resolve_names resolve_group
resolve_rule_references ip document = do
  let resolve = λ (name : String).
      resolve_group ip document.objects document.groups (enough ip document.objects document.groups)
        name []
  objects ← resolve_names resolve (keys document.objects) []
  all ← resolve_names resolve (keys document.groups) objects
  ok (insert "any" ("any" ∷ []) all)
