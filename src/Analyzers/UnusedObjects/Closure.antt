-- ===== src/Analyzers/UnusedObjects/Closure.antt =====
-- The loop of _expand in py2fw/analyzers/unused_objects.py ends with every member of its groups.
use package.text.Mathlib.TextEquality.{eq_iff}
use mathlib.Core.Path.{subst}
use py2fw.Common.{
  ℕ, zero, suc, ◌+◌, ◌≤◌, ◌<◌, String, ◌≡◌, refl, sym, Bool, true, false, List, [], ◌∷◌, ◌++◌, all,
  any-append, elem, flat_map, length, Dict, get, String_eq, ◌==◌, if◌then◌else◌, arith, inl, inr,
  Bool-cases,
}
use py2fw.Analyzers.UnusedObjects.{Expansion, members_of, add_members, expand_from, rounds, expand}

-- How many of some names are not in a list.
abbrev missing : List String → List String → ℕ
missing names [] = 0
missing names (m ∷ ms) = let rest = missing names ms in if elem m names then rest else suc rest

missing-le :
    (names : List String) (m : String) (ms : List String)
    → missing (names ++ m ∷ []) ms ≤ missing names ms
missing-le names m [] = omega arith
missing-le names m (x ∷ ms) =
    ground (arith, missing-le names m ms, any-append (λ y. y == x) names (m ∷ []))

missing-lt :
    (names : List String) (m : String) (ms : List String)
    → elem m ms ≡ true
    → elem m names ≡ false
    → missing (names ++ m ∷ []) ms < missing names ms
missing-lt names m [] h n = cc
missing-lt names m (x ∷ ms) h n = ground (
  arith,
  h,
  n,
  eq_iff x m,
  eq_iff m x,
  missing-le names m ms,
  missing-lt names m ms,
  any-append (λ y. y == x) names (m ∷ []),
)

missing-le-length : (names ms : List String) → missing names ms ≤ length ms
missing-le-length names [] = omega arith
missing-le-length names (m ∷ ms) = ground (arith, missing-le-length names ms)

-- The rounds that are still to come, at most.
abbrev potential : List String → Expansion → ℕ
potential all_members state = length state.frontier + missing state.names all_members

abbrev within : List String → List String → Bool
within xs ys = all (λ x. elem x ys) xs

add_members-potential :
    (all_members : List String) (state : Expansion) (members : List String)
    → within members all_members ≡ true
    → potential all_members (add_members state members) ≤ potential all_members state
unfolding add_members
add_members-potential all_members state [] h = omega arith
add_members-potential all_members state (m ∷ ms) h = elim (Bool-cases (elem m state.names)) [
  | inl old ↦ rw (old, add_members) (add_members-potential all_members state ms (ground (arith, h)))
  | inr new ↦
      let later =
        add_members-potential all_members
          (record { names = state.names ++ m ∷ []; frontier = m ∷ state.frontier }) ms
          (ground (arith, h)) in
      let fewer = missing-lt state.names m all_members (ground (arith, h)) new in
      rw (new, add_members) (omega (arith, later, fewer))
]

within-weaken :
    (xs ys zs : List String)
    → ((x : String) → elem x ys ≡ true → elem x zs ≡ true)
    → within xs ys ≡ true
    → within xs zs ≡ true
within-weaken [] ys zs keeps h = refl
within-weaken (x ∷ xs) ys zs keeps h = ground (arith, h, keeps x, within-weaken xs ys zs keeps)

within-cons :
    (xs : List String) (y : String) (ys : List String)
    → within xs ys ≡ true
    → within xs (y ∷ ys) ≡ true
within-cons xs y ys h = within-weaken xs ys (y ∷ ys) (λ x k. ground (arith, k)) h

within_refl : (xs : List String) → within xs xs ≡ true
within_refl [] = refl
within_refl (x ∷ xs) = ground (arith, eq_iff x x, within-cons xs x xs (within_refl xs))

abbrev all_members : Dict String (List String) → List String
all_members groups = flat_map (λ (g : String × List String). g.1) groups

members-within :
    (groups : Dict String (List String)) (name : String)
    → within (members_of groups name) (all_members groups) ≡ true
unfolding get
members-within [] name = refl
members-within ((k, ms) ∷ groups) name = elim (Bool-cases (k == name)) [
  | inl here ↦
      rw (here, members_of)
        (within-weaken ms ms (ms ++ all_members groups)
          (λ x h. ground (arith, h, any-append (λ y. y == x) ms (all_members groups)))
          (within_refl ms))
  | inr later ↦
      rw (later, members_of)
        (within-weaken (members_of groups name) (all_members groups) (ms ++ all_members groups)
          (λ x h. ground (arith, h, any-append (λ y. y == x) ms (all_members groups)))
          (members-within groups name))
]

-- What a run of the inner loop does: names and stack only grow, the members are names
-- afterwards, and every new name is on the stack.
abbrev Adds : Expansion → List String → Expansion → Type 0
Adds before members after =
    ((x : String) → elem x before.names ≡ true → elem x after.names ≡ true)
    × ((x : String) → elem x before.frontier ≡ true → elem x after.frontier ≡ true)
    × (within members after.names ≡ true)
    × ((x : String)
        → elem x after.names ≡ true
        → elem x before.names ≡ false
        → elem x after.frontier ≡ true)

add_members-Adds :
    (state : Expansion) (members : List String) → Adds state members (add_members state members)
unfolding add_members
add_members-Adds state [] = (λ x h. h, λ x h. h, refl, λ x h n. absurd (ground (arith, h, n)))
add_members-Adds state (m ∷ ms) = elim (Bool-cases (elem m state.names)) [
  | inl old ↦
      let (names, stack, ins, new) = add_members-Adds state ms in
      let same : add_members state (m ∷ ms) ≡ add_members state ms = rw (old, add_members) refl in
      subst (Adds state (m ∷ ms)) (sym same) (names, stack, ground (arith, ins, names m old), new)
  | inr fresh ↦
      let longer : Expansion = record {
        names = state.names ++ m ∷ [];
        frontier = m ∷ state.frontier;
      } in
      let (names, stack, ins, new) = add_members-Adds longer ms in
      let has_m : elem m longer.names ≡ true =
        ground (arith, any-append (λ y. y == m) state.names (m ∷ []), eq_iff m m) in
      let same : add_members state (m ∷ ms) ≡ add_members longer ms =
        rw (fresh, add_members) refl in
      subst (Adds state (m ∷ ms)) (sym same) (
        λ x h. names x (ground (arith, h, any-append (λ y. y == x) state.names (m ∷ []))),
        λ x h. stack x (ground (arith, h)),
        ground (arith, ins, names m has_m),
        λ x h n. elim (Bool-cases (m == x)) [
          | inl same ↦ stack x (ground (arith, same))
          | inr other ↦
              new x h (ground (arith, n, other, any-append (λ y. y == x) state.names (m ∷ [])))
        ],
      )
]

-- Every name has its members among the names, or is still on the stack.
abbrev Pending : Dict String (List String) → Expansion → Type 0
Pending groups state =
    (x : String)
    → elem x state.names ≡ true
    → elem x state.frontier ≡ false
    → within (members_of groups x) state.names ≡ true

-- The names of a result: those there were, and with each name its members.
abbrev pub IsClosure : Dict String (List String) → List String → List String → Type 0
IsClosure groups names result =
    ((x : String) → elem x names ≡ true → elem x result ≡ true)
    × ((x : String) → elem x result ≡ true → within (members_of groups x) result ≡ true)

step-Pending :
    (groups : Dict String (List String)) (names : List String) (current : String)
    (frontier : List String)
    → Pending groups (record { names = names; frontier = current ∷ frontier })
    → Pending groups
        (add_members (record { names = names; frontier = frontier }) (members_of groups current))
step-Pending groups names current frontier pending x h off =
    let start : Expansion = record { names = names; frontier = frontier } in
    let after : Expansion = add_members start (members_of groups current) in
    let (keeps, stack, ins, new) = add_members-Adds start (members_of groups current) in
    elim (Bool-cases (current == x)) [
      | inl same ↦ rw (← (eq_iff current x).0 same) ins
      | inr other ↦ elim (Bool-cases (elem x names)) [
        | inr fresh ↦ absurd (ground (arith, off, new x h fresh))
        | inl old ↦ elim (Bool-cases (elem x frontier)) [
          | inl waiting ↦ absurd (ground (arith, off, stack x waiting))
          | inr done ↦
              within-weaken (members_of groups x) names after.names keeps
                (pending x old (ground (arith, other, done)))
        ]
      ]
    ]

expand_from-IsClosure :
    (fuel : ℕ) (groups : Dict String (List String)) (names frontier : List String)
    → potential (all_members groups) (record { names = names; frontier = frontier }) < fuel
    → Pending groups (record { names = names; frontier = frontier })
    → IsClosure groups names
        (expand_from fuel groups (record { names = names; frontier = frontier }))
unfolding expand_from
expand_from-IsClosure zero groups names frontier p pending = absurd (omega arith)
expand_from-IsClosure (suc fuel) groups names [] p pending = (λ x h. h, λ x h. pending x h refl)
expand_from-IsClosure (suc fuel) groups names (current ∷ frontier) p pending =
    let start : Expansion = record { names = names; frontier = frontier } in
    let after : Expansion = add_members start (members_of groups current) in
    let (keeps, _, _, _) = add_members-Adds start (members_of groups current) in
    let smaller =
      add_members-potential (all_members groups) start (members_of groups current)
        (members-within groups current) in
    let (grows, closed) =
      expand_from-IsClosure fuel groups after.names after.frontier (omega (arith, smaller))
        (step-Pending groups names current frontier pending) in
    (λ x h. grows x (keeps x h), closed)

-- Expanding names ends with all of them, and with every member of each name that is a group,
-- whatever the groups refer to in turn.
pub expand-IsClosure :
    (names : List String) (groups : Dict String (List String))
    → IsClosure groups names (expand names groups)
unfolding expand
expand-IsClosure names groups =
    expand_from-IsClosure (rounds names groups) groups names names
      (omega (arith, missing-le-length names (all_members groups)))
      (λ x h off. absurd (ground (arith, h, off)))
