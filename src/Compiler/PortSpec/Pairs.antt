-- ===== src/Compiler/PortSpec/Pairs.antt =====
-- PortSpec.from_pairs, in the file py2fw/compiler/ir.py.
use py2fw.Common.{
  ℕ, ◌≡◌, refl, sym, ◌∙◌, Bool, ◌&&◌, some, List, [], ◌∷◌, any, map, leb, ltb, inl, inr, is_none,
  Option-cases, All, arith,
}
use py2fw.Compiler.PortRange.{PortRange, IsValid, port_range}
use py2fw.Compiler.PortSpec.{
  PortSpec, from_ranges, normalize_ranges, port_ranges, from_pairs, contains,
}
use py2fw.Compiler.PortSpec.Members.{covers, covers-normalize_ranges}
use py2fw.Compiler.PortSpec.Canonical.{
  IsCanonical, normalize_ranges-IsCanonical, Separated-IsValid, Separated-unique,
}

-- The ports of pairs of a start and an end.
abbrev pub pairs_cover : List (ℕ × ℕ) → ℕ → Bool
pairs_cover pairs port = any (λ b. leb b.0 port && leb port b.1) pairs

port_ranges-IsValid :
    (pairs : List (ℕ × ℕ)) (rs : List PortRange) → port_ranges pairs ≡ some rs → All IsValid rs
unfolding port_ranges port_range
port_ranges-IsValid [] [] h = tt
port_ranges-IsValid [] (r ∷ rs) h = cc
port_ranges-IsValid ((a, b) ∷ pairs) [] h = ground arith
port_ranges-IsValid ((a, b) ∷ pairs) (r ∷ rs) h =
    (ground arith, port_ranges-IsValid pairs rs (ground arith))

port_ranges-covers :
    (pairs : List (ℕ × ℕ)) (rs : List PortRange) (p : ℕ)
    → port_ranges pairs ≡ some rs
    → covers rs p ≡ pairs_cover pairs p
unfolding port_ranges port_range
port_ranges-covers [] [] p h = refl
port_ranges-covers [] (r ∷ rs) p h = cc
port_ranges-covers ((a, b) ∷ pairs) [] p h = ground arith
port_ranges-covers ((a, b) ∷ pairs) (r ∷ rs) p h = ground (arith, port_ranges-covers pairs rs p)

from_pairs_inverse :
    (pairs : List (ℕ × ℕ)) (spec : PortSpec)
    → from_pairs pairs ≡ some spec
    → (rs : List PortRange) × (port_ranges pairs ≡ some rs) × (spec.ranges ≡ normalize_ranges rs)
unfolding from_pairs
from_pairs_inverse pairs spec h = elim (Option-cases (port_ranges pairs)) [
  | inl e ↦ absurd (ground (arith, e))
  | inr (rs, e) ↦ (rs, e, ground (arith, e))
]

module _ (pairs : List (ℕ × ℕ)) (spec : PortSpec) (built : from_pairs pairs ≡ some spec) where
  -- A specification built from pairs is canonical: its ranges are valid and ascend, with at least
  -- one port free between each two.
  pub from_pairs-IsCanonical : IsCanonical spec.ranges
  from_pairs-IsCanonical =
      let (rs, e, same) = from_pairs_inverse pairs spec built in
      rw same (normalize_ranges-IsCanonical rs (port_ranges-IsValid pairs rs e))

  -- A specification built from pairs covers a port exactly when one of the pairs does.
  pub contains-from_pairs : (p : ℕ) → contains spec p ≡ pairs_cover pairs p
  contains-from_pairs p =
      let (rs, e, same) = from_pairs_inverse pairs spec built in
      rw same (covers-normalize_ranges rs p ∙ port_ranges-covers pairs rs p e)

port_ranges_fails :
    (pairs : List (ℕ × ℕ)) → is_none (port_ranges pairs) ≡ any (λ b. ltb b.1 b.0) pairs
unfolding port_ranges port_range
port_ranges_fails [] = refl
port_ranges_fails ((a, b) ∷ pairs) = ground (arith, port_ranges_fails pairs)

-- Building a specification from pairs fails exactly when a pair has its start above its end.
pub from_pairs_fails :
    (pairs : List (ℕ × ℕ)) → is_none (from_pairs pairs) ≡ any (λ b. ltb b.1 b.0) pairs
unfolding from_pairs
from_pairs_fails pairs = ground (arith, port_ranges_fails pairs)

-- Two lists of pairs that both build a specification build the same one as soon as they name the
-- same ports.
pub from_pairs_unique :
    (ps qs : List (ℕ × ℕ)) (a b : PortSpec)
    → from_pairs ps ≡ some a
    → from_pairs qs ≡ some b
    → ((port : ℕ) → pairs_cover ps port ≡ pairs_cover qs port)
    → a ≡ b
from_pairs_unique ps qs a b ha hb same =
    let e : a.ranges ≡ b.ranges =
      Separated-unique 0 0 a.ranges b.ranges (from_pairs-IsCanonical ps a ha)
        (from_pairs-IsCanonical qs b hb)
        (λ p. contains-from_pairs ps a ha p ∙ same p ∙ sym (contains-from_pairs qs b hb p)) in
    ground (arith, e)

-- Normalising valid ranges a second time changes nothing.
pub normalize_ranges_idem :
    (rs : List PortRange)
    → All IsValid rs
    → normalize_ranges (normalize_ranges rs) ≡ normalize_ranges rs
normalize_ranges_idem rs all =
    let once = normalize_ranges-IsCanonical rs all in
    Separated-unique 0 0 _ _ (normalize_ranges-IsCanonical _ (Separated-IsValid 0 _ once)) once
      (covers-normalize_ranges (normalize_ranges rs))

port_ranges-map :
    (rs : List PortRange) → All IsValid rs → port_ranges (map (λ r. (r.start, r.end)) rs) ≡ some rs
unfolding port_ranges port_range
port_ranges-map [] v = refl
port_ranges-map (r ∷ rs) v = ground (arith, port_ranges-map rs v.1)

-- Building a specification from the pairs of valid ranges is normalising those ranges.
pub from_pairs-from_ranges :
    (rs : List PortRange)
    → All IsValid rs
    → from_pairs (map (λ r. (r.start, r.end)) rs) ≡ some (from_ranges rs)
unfolding from_pairs
from_pairs-from_ranges rs v = ground (arith, port_ranges-map rs v)
