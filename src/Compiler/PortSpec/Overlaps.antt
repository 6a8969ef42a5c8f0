-- ===== src/Compiler/PortSpec/Overlaps.antt =====
-- PortSpec.overlaps, in the file py2fw/compiler/ir.py.
use Prim.Native.Nat.{max}
use py2fw.Common.{
  ℕ, ◌≡◌, refl, true, List, [], ◌∷◌, any, is_empty, All, inl, inr, ◌⊎◌, ◌↔◌, Bool-cases, arith,
}
use py2fw.Compiler.PortRange
use py2fw.Compiler.PortRange.{PortRange, IsValid}
use py2fw.Compiler.PortSpec.{PortSpec, lacks_ports, contains, overlaps}
use py2fw.Compiler.PortSpec.Members.{covers}

-- The first port that two overlapping ranges share.
abbrev common : PortRange → PortRange → ℕ
common r q = max r.start q.start

common_in :
    (r q : PortRange)
    → IsValid r
    → IsValid q
    → PortRange.overlaps r q ≡ true
    → (PortRange.contains r (common r q) ≡ true) × (PortRange.contains q (common r q) ≡ true)
common_in r q v w h = ground arith

range_meets :
    (r : PortRange) (qs : List PortRange)
    → IsValid r
    → All IsValid qs
    → any (λ q. PortRange.overlaps r q) qs ≡ true
    → (port : ℕ) × (PortRange.contains r port ≡ true) × (covers qs port ≡ true)
range_meets r [] v w h = absurd (ground arith)
range_meets r (q ∷ qs) v w h = elim (Bool-cases (PortRange.overlaps r q)) [
  | inl here ↦
      let (in_r, in_q) = common_in r q v w.0 here in (common r q, in_r, ground (arith, in_q))
  | inr there ↦
      let (port, in_r, in_qs) = range_meets r qs v w.1 (ground arith) in
      (port, in_r, ground (arith, in_qs))
]

ranges_meet :
    (rs qs : List PortRange)
    → All IsValid rs
    → All IsValid qs
    → any (λ r. any (λ q. PortRange.overlaps r q) qs) rs ≡ true
    → (port : ℕ) × (covers rs port ≡ true) × (covers qs port ≡ true)
ranges_meet [] qs v w h = absurd (ground arith)
ranges_meet (r ∷ rs) qs v w h = elim (Bool-cases (any (λ q. PortRange.overlaps r q) qs)) [
  | inl here ↦
      let (port, in_r, in_qs) = range_meets r qs v.0 w here in (port, ground (arith, in_r), in_qs)
  | inr there ↦
      let (port, in_rs, in_qs) = ranges_meet rs qs v.1 w (ground arith) in
      (port, ground (arith, in_rs), in_qs)
]

meets_range :
    (r : PortRange) (qs : List PortRange) (port : ℕ)
    → PortRange.contains r port ≡ true
    → covers qs port ≡ true
    → any (λ q. PortRange.overlaps r q) qs ≡ true
meets_range r [] port h k = cc
meets_range r (q ∷ qs) port h k = ground (arith, meets_range r qs port h)

meet_ranges :
    (rs qs : List PortRange) (port : ℕ)
    → covers rs port ≡ true
    → covers qs port ≡ true
    → any (λ r. any (λ q. PortRange.overlaps r q) qs) rs ≡ true
meet_ranges [] qs port h k = cc
meet_ranges (r ∷ rs) qs port h k = ground (arith, meet_ranges rs qs port, meets_range r qs port)

-- Specifications of valid ranges overlap exactly when both lack ports or some port lies in both.
pub overlaps_iff :
    (a b : PortSpec)
    → All IsValid a.ranges
    → All IsValid b.ranges
    → (overlaps a b ≡ true) ↔ (
        (lacks_ports a ≡ true) × (lacks_ports b ≡ true)
        ⊎ ((port : ℕ) × (contains a port ≡ true) × (contains b port ≡ true)))
overlaps_iff a b v w = (forth a.ranges b.ranges v w, back a.ranges b.ranges)
  where
    forth :
        (rs qs : List PortRange)
        → All IsValid rs
        → All IsValid qs
        → overlaps (record { ranges = rs }) (record { ranges = qs }) ≡ true
        → (is_empty rs ≡ true) × (is_empty qs ≡ true)
          ⊎ ((port : ℕ) × (covers rs port ≡ true) × (covers qs port ≡ true))
    forth [] [] _ _ h = inl (refl, refl)
    forth [] (q ∷ qs) _ _ h = unfold overlaps in cc
    forth (r ∷ rs) [] _ _ h = unfold overlaps in cc
    forth (r ∷ rs) (q ∷ qs) x y h = unfold overlaps in inr (ranges_meet (r ∷ rs) (q ∷ qs) x y h)

    back :
        (rs qs : List PortRange)
        → (is_empty rs ≡ true) × (is_empty qs ≡ true)
          ⊎ ((port : ℕ) × (covers rs port ≡ true) × (covers qs port ≡ true))
        → overlaps (record { ranges = rs }) (record { ranges = qs }) ≡ true
    back [] [] h = unfold overlaps in refl
    back [] (q ∷ qs) h = ground arith
    back (r ∷ rs) [] h = ground arith
    back (r ∷ rs) (q ∷ qs) (inl h) = ground arith
    back (r ∷ rs) (q ∷ qs) (inr (port, h, k)) =
        unfold overlaps in meet_ranges (r ∷ rs) (q ∷ qs) port h k
