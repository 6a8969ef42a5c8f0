-- ===== src/Compiler/Resolver/Reach.antt =====
-- resolve_group of py2fw/compiler/resolver.py collects the values that a name reaches.
use text.Mathlib.TextEquality.{eq_iff}
use py2fw.Common.{
  ℕ, zero, suc, String, ◌≡◌, ◌≢◌, refl, sym, ◌∙◌, true, false, none, some, List, [], ◌∷◌, ◌++◌, map,
  any-append, any-from_keys, elem, from_keys, Dict, get, ◌==◌, String_eq, arith, Bool-cases,
  Option-cases, inl, inr, ◌↔◌,
}
use py2fw.IpAddress.{IpText}
use py2fw.Utils.Ip.{normalize_network}
use py2fw.Compiler.Resolver.{
  Resolved, ok, unknown, circular, exhausted, ◌>>=◌, resolve_members, resolve_group, enough,
}

-- Where a chain has a result, its first part has one, and the rest goes on from it.
bind-ok {ℓ κ} :
    {A : Type ℓ} {B : Type κ} (f : A → Resolved B) {b : B} (m : Resolved A)
    → (m >>= f) ≡ ok b
    → (a : A) × (f a ≡ ok b) × (m ≡ ok a)
bind-ok f exhausted result = cc
bind-ok f (circular names) result = cc
bind-ok f (unknown name) result = cc
bind-ok f (ok a) result = (a, result, refl)

members-cons :
    (resolve : String → Resolved (List String)) (m : String) (ms values : List String)
    → resolve_members resolve (m ∷ ms) ≡ ok values
    → (found : List String) × (rest : List String) × (resolve m ≡ ok found)
      × (resolve_members resolve ms ≡ ok rest)
      × (found ++ rest ≡ values)
unfolding resolve_members
members-cons resolve m ms values e =
    let (found, later, here) = bind-ok _ (resolve m) e in
    let (rest, done, there) = bind-ok _ (resolve_members resolve ms) later in
    (found, rest, here, there, ground (arith, done))

-- What a successful resolution of members found, it found for one of them.
members_sound :
    (resolve : String → Resolved (List String)) (members values : List String) (value : String)
    → resolve_members resolve members ≡ ok values
    → elem value values ≡ true
    → (member : String) × (found : List String) × (elem member members ≡ true)
      × (resolve member ≡ ok found)
      × (elem value found ≡ true)
members_sound resolve [] values value e h = absurd (unfold resolve_members in ground (arith, e, h))
members_sound resolve (m ∷ ms) values value e h =
    let (found, rest, here, there, parts) = members-cons resolve m ms values e in
    elim (Bool-cases (elem value found)) [
      | inl first ↦ (m, found, ground (arith, eq_iff m m), here, first)
      | inr later ↦
          let in_rest : elem value rest ≡ true =
            ground (arith, h, later, parts, any-append (λ y. y == value) found rest) in
          let (member, f, among, ends, has) = members_sound resolve ms rest value there in_rest in
          (member, f, ground (arith, among), ends, has)
    ]

-- It found all the values of each of them.
members_complete :
    (resolve : String → Resolved (List String)) (members values : List String)
    (member value : String)
    → resolve_members resolve members ≡ ok values
    → elem member members ≡ true
    → (found : List String) × (resolve member ≡ ok found)
      × (elem value found ≡ true → elem value values ≡ true)
members_complete resolve [] values member value e h = absurd (ground (arith, h))
members_complete resolve (m ∷ ms) values member value e h =
    let (found, rest, here, there, parts) = members-cons resolve m ms values e in
    elim (Bool-cases (m == member)) [
      | inl same ↦ (
        found,
        rw (← (eq_iff m member).0 same) here,
        λ k. rw (← parts) (ground (arith, k, any-append (λ y. y == value) found rest)),
      )
      | inr other ↦
          let (f, ends, keeps) =
            members_complete resolve ms rest member value there (ground (arith, h, other)) in
          (
            f,
            ends,
            λ k. rw (← parts) (ground (arith, keeps k, any-append (λ y. y == value) found rest)),
          )
    ]

module _ (ip : IpText) (objects groups : Dict String (List String)) where
  -- A value is reached from a name: as a value of an object, as `any`, or from a group's member.
  pub data Reaches : String → String → Type 0 where
    in_object :
        {name value : String} (values : List String)
        → get name objects ≡ some values
        → elem value (map (normalize_network ip) values) ≡ true
        → Reaches name value
    any_name :
        {name value : String}
        → get name objects ≡ none
        → name ≡ "any"
        → value ≡ "any"
        → Reaches name value
    in_group :
        {name value : String} (member : String) (members : List String)
        → get name objects ≡ none
        → name ≢ "any"
        → get name groups ≡ some members
        → elem member members ≡ true
        → Reaches member value
        → Reaches name value

  abbrev resolves : ℕ → List String → String → Resolved (List String)
  resolves fuel stack member = resolve_group ip objects groups fuel member stack

  group_step :
      (fuel : ℕ) (name : String) (stack members values : List String)
      → get name objects ≡ none
      → (name == "any") ≡ false
      → get name groups ≡ some members
      → resolve_group ip objects groups (suc fuel) name stack ≡ ok values
      → (inner : List String) × (resolve_members (resolves fuel (stack ++ name ∷ [])) members
          ≡ ok inner)
        × (from_keys inner ≡ values)
  unfolding resolve_group
  group_step fuel name stack members values o p g e = elim (Bool-cases (elem name stack)) [
    | inl cycle ↦ absurd (ground (arith, e, o, p, g, cycle))
    | inr new ↦
        let members' = resolve_members (resolves fuel (stack ++ name ∷ [])) members in
        let opened : (members' >>= λ v. ok (from_keys v)) ≡ ok values =
          ground (arith, e, o, p, g, new) in
        let (inner, done, found) = bind-ok (λ v. ok (from_keys v)) members' opened in
        (inner, found, ground (arith, done))
  ]

  name_step :
      (fuel : ℕ) (name : String) (stack values : List String) (value : String)
      → get name objects ≡ none
      → (name == "any") ≡ true
      → resolve_group ip objects groups (suc fuel) name stack ≡ ok values
      → elem value values ≡ true
      → value ≡ "any"
  unfolding resolve_group
  name_step fuel name stack values value o p e h = ground (arith, o, p, e, h, eq_iff "any" value)

  -- A result holds only values that the name reaches.
  pub resolved-Reaches :
      (fuel : ℕ) (name : String) (stack values : List String) (value : String)
      → resolve_group ip objects groups fuel name stack ≡ ok values
      → elem value values ≡ true
      → Reaches name value
  resolved-Reaches zero name stack values value e h =
      absurd (unfold resolve_group in ground (arith, e))
  resolved-Reaches (suc fuel) name stack values value e h = elim (Option-cases (get name objects)) [
    | inr (vs, o) ↦ in_object {value = value} vs o (unfold resolve_group in ground (arith, o, e, h))
    | inl o ↦ elim (Bool-cases (name == "any")) [
      | inl p ↦
          any_name o ((eq_iff name "any").0 p) (name_step fuel name stack values value o p e h)
      | inr p ↦ elim (Option-cases (get name groups)) [
        | inl g ↦ absurd (unfold resolve_group in ground (arith, e, o, p, g))
        | inr (members, g) ↦
            let (inner, found, done) = group_step fuel name stack members values o p g e in
            let (member, vs, among, ends, has) =
              members_sound (resolves fuel (stack ++ name ∷ [])) members inner value found
                (sym (any-from_keys (λ y. y == value) inner) ∙ rw done h) in
            in_group member members o (λ q. ground (arith, p, (eq_iff name "any").1 q)) g among
              (resolved-Reaches fuel member (stack ++ name ∷ []) vs value ends has)
      ]
    ]
  ]

  -- A result holds every value that the name reaches.
  pub Reaches-resolved :
      (fuel : ℕ) {name value : String} (stack values : List String)
      → Reaches name value
      → resolve_group ip objects groups fuel name stack ≡ ok values
      → elem value values ≡ true
  Reaches-resolved zero stack values r e = absurd (unfold resolve_group in ground (arith, e))
  Reaches-resolved (suc fuel) stack values (in_object vs o h) e =
      unfold resolve_group in ground (arith, o, h, e)
  Reaches-resolved (suc fuel) stack values (any_name {name = n} {value = v} o p q) e =
      unfold resolve_group in ground (arith, o, p, q, e, eq_iff n "any", eq_iff "any" v)
  Reaches-resolved (suc fuel) stack values
        (in_group {name = n} {value = v} member members o p g h r) e =
      let (inner, found, done) =
        group_step fuel n stack members values o (ground (arith, p, eq_iff n "any")) g e in
      let (vs, ends, keeps) =
        members_complete (resolves fuel (stack ++ n ∷ [])) members inner member v found h in
      rw (← done) (
        any-from_keys (λ y. y == v) inner
        ∙ keeps (Reaches-resolved fuel (stack ++ n ∷ []) vs r ends))

  -- When a name resolves, its result holds exactly the values that the name reaches through the
  -- groups: the normalised values of the objects, and `any`.
  pub resolve_group-Reaches :
      (name : String) (values : List String) (value : String)
      → resolve_group ip objects groups (enough ip objects groups) name [] ≡ ok values
      → (elem value values ≡ true) ↔ Reaches name value
  resolve_group-Reaches name values value e = (
    resolved-Reaches (enough ip objects groups) name [] values value e,
    λ r. Reaches-resolved (enough ip objects groups) [] values r e,
  )
