-- ===== src/Compiler/PortSpec/Canonical.antt =====
-- normalize_ranges builds a canonical form, in the file py2fw/compiler/ir.py.
use py2fw.Common.{
  ℕ, ◌+◌, ◌≤◌, ◌<◌, ◌≡◌, refl, sym, ◌∙◌, true, false, List, [], ◌∷◌, leb, inl, inr, Bool-cases, All,
  arith,
}
use py2fw.Compiler.PortRange.{PortRange, IsValid}
use py2fw.Compiler.PortSpec.{sorted, merge_onto, merge, normalize_ranges}
use py2fw.Compiler.PortSpec.Members.{covers, Ascending, sorted-Ascending, sorted-IsValid, joined}

-- Valid ranges from `n` on, with at least one port free between each two.
abbrev pub Separated : ℕ → List PortRange → Type 0
Separated n [] = Unit
Separated n (r ∷ rs) = (n ≤ r.start) × (r.start ≤ r.end) × Separated (r.end + 2) rs

abbrev pub IsCanonical : List PortRange → Type 0
IsCanonical rs = Separated 0 rs

Separated-weaken : (n m : ℕ) (rs : List PortRange) → n ≤ m → Separated m rs → Separated n rs
Separated-weaken n m [] h s = tt
Separated-weaken n m (r ∷ rs) h s = (omega arith, s.1, s.2)

merge_onto-Separated :
    (n : ℕ) (last : PortRange) (rs : List PortRange)
    → n ≤ last.start
    → IsValid last
    → Ascending last.start rs
    → All IsValid rs
    → Separated n (merge_onto last rs)
unfolding merge_onto
merge_onto-Separated n last [] h v a all = (h, v, tt)
merge_onto-Separated n last (r ∷ rs) h v a all = elim (Bool-cases (leb r.start (last.end + 1))) [
  | inl e ↦
      rw (e, merge_onto)
        (merge_onto-Separated n (joined last r) rs h (omega arith) (weaken rs a.1) all.1)
  | inr e ↦
      rw (e, merge_onto)
        (h, v, merge_onto-Separated (last.end + 2) r rs (ground arith) all.0 a.1 all.1)
]
  where
    weaken : (qs : List PortRange) → Ascending r.start qs → Ascending last.start qs
    weaken [] b = tt
    weaken (q ∷ qs) b = (omega arith, b.1)

merge-IsCanonical : (rs : List PortRange) → Ascending 0 rs → All IsValid rs → IsCanonical (merge rs)
unfolding merge
merge-IsCanonical [] a all = tt
merge-IsCanonical (r ∷ rs) a all = merge_onto-Separated 0 r rs (omega arith) all.0 a.1 all.1

-- Normalising valid ranges gives sorted ranges with a free port between each two.
pub normalize_ranges-IsCanonical :
    (rs : List PortRange) → All IsValid rs → IsCanonical (normalize_ranges rs)
unfolding normalize_ranges
normalize_ranges-IsCanonical rs all =
    merge-IsCanonical (sorted rs) (sorted-Ascending rs) (sorted-IsValid rs all)

-- A separated list covers nothing below its bound.
covers-below : (n : ℕ) (rs : List PortRange) (p : ℕ) → Separated n rs → p < n → covers rs p ≡ false
covers-below n [] p s h = refl
covers-below n (r ∷ rs) p s h = ground (arith, covers-below (r.end + 2) rs p s.2)

abbrev SamePorts : List PortRange → List PortRange → Type 0
SamePorts rs qs = (p : ℕ) → covers rs p ≡ covers qs p

covers_head :
    (n : ℕ) (r : PortRange) (rs : List PortRange)
    → Separated n (r ∷ rs)
    → covers (r ∷ rs) r.start ≡ true
covers_head n r rs s = ground arith

-- The first port of one list lies in the other, so that list begins no later.
start-le :
    (m : ℕ) (r q : PortRange) (qs : List PortRange)
    → Separated m (q ∷ qs)
    → covers (q ∷ qs) r.start ≡ true
    → q.start ≤ r.start
start-le m r q qs t e = ground (arith, covers-below (q.end + 2) qs r.start t.2)

end-le :
    (n m : ℕ) (r q : PortRange) (rs qs : List PortRange)
    → Separated n (r ∷ rs)
    → Separated m (q ∷ qs)
    → r.start ≡ q.start
    → covers (r ∷ rs) (r.end + 1) ≡ covers (q ∷ qs) (r.end + 1)
    → q.end ≤ r.end
end-le n m r q rs qs s t h e = ground (arith, e, covers-below (r.end + 2) rs (r.end + 1) s.2)

SamePorts-tail :
    (n m : ℕ) (r q : PortRange) (rs qs : List PortRange)
    → Separated n (r ∷ rs)
    → Separated m (q ∷ qs)
    → r.start ≡ q.start
    → r.end ≡ q.end
    → SamePorts (r ∷ rs) (q ∷ qs)
    → SamePorts rs qs
SamePorts-tail n m r q rs qs s t hs he same p =
    ground (arith, same p, covers-below (r.end + 2) rs p s.2, covers-below (q.end + 2) qs p t.2)

-- Two canonical lists with the same ports are the same list.
pub Separated-unique :
    (n m : ℕ) (rs qs : List PortRange) → Separated n rs → Separated m qs → SamePorts rs qs → rs ≡ qs
Separated-unique n m [] [] s t same = refl
Separated-unique n m [] (q ∷ qs) s t same = cc (same q.start, covers_head m q qs t)
Separated-unique n m (r ∷ rs) [] s t same = cc (same r.start, covers_head n r rs s)
Separated-unique n m (r ∷ rs) (q ∷ qs) s t same =
    let later = start-le m r q qs t (sym (same r.start) ∙ covers_head n r rs s) in
    let sooner = start-le n q r rs s (same q.start ∙ covers_head m q qs t) in
    let starts : r.start ≡ q.start = omega arith in
    let longer = end-le n m r q rs qs s t starts (same (r.end + 1)) in
    let shorter = end-le m n q r qs rs t s (sym starts) (sym (same (q.end + 1))) in
    let ends : r.end ≡ q.end = omega arith in
    let tails =
      Separated-unique (r.end + 2) (q.end + 2) rs qs s.2 t.2
        (SamePorts-tail n m r q rs qs s t starts ends same) in
    ground (arith, tails)

pub Separated-IsValid : (n : ℕ) (rs : List PortRange) → Separated n rs → All IsValid rs
Separated-IsValid n [] s = tt
Separated-IsValid n (r ∷ rs) s = (s.1, Separated-IsValid (r.end + 2) rs s.2)
