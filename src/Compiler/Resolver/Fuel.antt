-- ===== src/Compiler/Resolver/Fuel.antt =====
-- resolve_group of py2fw/compiler/resolver.py ends: each call puts a new group on the stack.
use text.Mathlib.TextEquality.{eq_iff}
use py2fw.Common.{
  ℕ, zero, suc, ◌≤◌, ◌<◌, String, ◌≡◌, ◌≢◌, refl, false, some, List, [], ◌∷◌, ◌++◌, any-append,
  elem, length, Dict, keys, get, if◌then◌else◌, ◌==◌, String_eq, arith, Bool-cases, Option-cases,
  inl, inr, insert,
}
use py2fw.IpAddress.{IpText}
use py2fw.Parser.Schema.{PolicyDocument}
use py2fw.Compiler.Resolver.{
  Resolved, ok, unknown, circular, exhausted, ◌>>=◌, resolve_members, resolve_group, enough,
  resolve_names, resolve_rule_references,
}

-- The number of groups that are not on the stack.
abbrev pub remaining {ℓ} : {V : Type ℓ} → List String → Dict String V → ℕ
remaining stack [] = 0
remaining stack ((name, _) ∷ groups) =
    let rest = remaining stack groups in if elem name stack then rest else suc rest

module _ {ℓ} {V : Type ℓ} where
  remaining-le :
      (stack : List String) (name : String) (groups : Dict String V)
      → remaining (stack ++ name ∷ []) groups ≤ remaining stack groups
  remaining-le stack name [] = omega arith
  remaining-le stack name ((k, v) ∷ groups) =
      ground (arith, remaining-le stack name groups, any-append (λ y. y == k) stack (name ∷ []))

  remaining-lt :
      (stack : List String) (name : String) (groups : Dict String V) (found : V)
      → get name groups ≡ some found
      → elem name stack ≡ false
      → remaining (stack ++ name ∷ []) groups < remaining stack groups
  unfolding get
  remaining-lt stack name [] found g e = cc
  remaining-lt stack name ((k, v) ∷ groups) found g e = ground (
    arith,
    g,
    e,
    eq_iff k name,
    eq_iff name k,
    remaining-le stack name groups,
    remaining-lt stack name groups found,
    any-append (λ y. y == k) stack (name ∷ []),
  )

  remaining-le-length : (groups : Dict String V) → remaining [] groups ≤ length groups
  remaining-le-length [] = omega arith
  remaining-le-length (g ∷ groups) = ground (arith, remaining-le-length groups)

bind-ne-exhausted {ℓ κ} :
    {A : Type ℓ} {B : Type κ} (m : Resolved A) (f : A → Resolved B)
    → m ≢ exhausted
    → ((a : A) → f a ≢ exhausted)
    → (m >>= f) ≢ exhausted
bind-ne-exhausted (ok a) f h k e = k a e
bind-ne-exhausted (unknown name) f h k e = cc
bind-ne-exhausted (circular names) f h k e = cc
bind-ne-exhausted exhausted f h k e = h refl

members-ne-exhausted :
    (resolve : String → Resolved (List String)) (members : List String)
    → ((name : String) → resolve name ≢ exhausted)
    → resolve_members resolve members ≢ exhausted
unfolding resolve_members
members-ne-exhausted resolve [] h e = cc
members-ne-exhausted resolve (m ∷ ms) h e = ground (arith, h m, members-ne-exhausted resolve ms h)

module _ (ip : IpText) (objects groups : Dict String (List String)) where
  -- With more fuel than groups off the stack, the fuel does not run out.
  pub resolve_group-ne-exhausted :
      (fuel : ℕ) (name : String) (stack : List String)
      → remaining stack groups < fuel
      → resolve_group ip objects groups fuel name stack ≢ exhausted
  unfolding resolve_group
  resolve_group-ne-exhausted zero name stack h = absurd (omega arith)
  resolve_group-ne-exhausted (suc fuel) name stack h = elim (Option-cases (get name groups)) [
    | inl e ↦ ground (arith, e)
    | inr (members, e) ↦ elim (Bool-cases (elem name stack)) [
      | inl cycle ↦ ground (arith, e, cycle)
      | inr new ↦
          let smaller = remaining-lt stack name groups members e new in
          let deeper =
            members-ne-exhausted
              (λ member. resolve_group ip objects groups fuel member (stack ++ name ∷ [])) members
              (λ member.
                resolve_group-ne-exhausted fuel member (stack ++ name ∷ [])
                  (omega (arith, smaller))) in
          ground (arith, e, new, deeper)
    ]
  ]

names-ne-exhausted :
    (resolve : String → Resolved (List String)) (names : List String)
    (resolved : Dict String (List String))
    → ((name : String) → resolve name ≢ exhausted)
    → resolve_names resolve names resolved ≢ exhausted
unfolding resolve_names
names-ne-exhausted resolve [] resolved h = λ e. cc
names-ne-exhausted resolve (n ∷ ns) resolved h =
    bind-ne-exhausted (resolve n) (λ values. resolve_names resolve ns (insert n values resolved))
      (h n) (λ values. names-ne-exhausted resolve ns (insert n values resolved) h)

-- Resolving a document always ends, with a dictionary or with a ResolutionError: the fuel does
-- not run out.
pub resolve_rule_references-ne-exhausted :
    (ip : IpText) (document : PolicyDocument) → resolve_rule_references ip document ≢ exhausted
unfolding resolve_rule_references
resolve_rule_references-ne-exhausted ip document =
    bind-ne-exhausted (resolve_names resolve (keys document.objects) []) _
      (names-ne-exhausted resolve (keys document.objects) [] ends)
      λ objects.
        bind-ne-exhausted (resolve_names resolve (keys document.groups) objects) _
          (names-ne-exhausted resolve (keys document.groups) objects ends) (λ all e. cc)
  where
    resolve : String → Resolved (List String)
    resolve name =
        resolve_group ip document.objects document.groups
          (enough ip document.objects document.groups) name []

    ends : (name : String) → resolve name ≢ exhausted
    ends name =
        resolve_group-ne-exhausted ip document.objects document.groups
          (enough ip document.objects document.groups) name []
          (omega (arith, remaining-le-length document.groups))
