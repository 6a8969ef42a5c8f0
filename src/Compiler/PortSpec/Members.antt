-- ===== src/Compiler/PortSpec/Members.antt =====
-- normalize_ranges keeps the ports, in the file py2fw/compiler/ir.py.
use Prim.Native.Nat.{max}
use py2fw.Common.{
  ℕ, ◌+◌, ◌≤◌, ◌≡◌, refl, ◌∙◌, Bool, true, ◌||◌, List, [], ◌∷◌, any, leb, inl, inr, Bool-cases, All,
  arith,
}
use py2fw.Compiler.PortRange
use py2fw.Compiler.PortRange.{PortRange, IsValid}
use py2fw.Compiler.PortSpec.{insert_sorted, sorted, merge_onto, merge, normalize_ranges}

-- The ports of a list of ranges.
abbrev pub covers : List PortRange → ℕ → Bool
covers rs port = any (λ r. PortRange.contains r port) rs

-- The starts do not fall, from `n` on.
abbrev pub Ascending : ℕ → List PortRange → Type 0
Ascending n [] = Unit
Ascending n (r ∷ rs) = (n ≤ r.start) × Ascending r.start rs

covers-insert_sorted :
    (r : PortRange) (rs : List PortRange) (p : ℕ)
    → covers (insert_sorted r rs) p ≡ (PortRange.contains r p || covers rs p)
unfolding insert_sorted
covers-insert_sorted r [] p = refl
covers-insert_sorted r (x ∷ xs) p = ground (arith, covers-insert_sorted r xs p)

covers-sorted : (rs : List PortRange) (p : ℕ) → covers (sorted rs) p ≡ covers rs p
unfolding sorted
covers-sorted [] p = refl
covers-sorted (r ∷ rs) p = ground (arith, covers-insert_sorted r (sorted rs) p, covers-sorted rs p)

insert_sorted-Ascending :
    (n : ℕ) (r : PortRange) (rs : List PortRange)
    → n ≤ r.start
    → Ascending n rs
    → Ascending n (insert_sorted r rs)
unfolding insert_sorted
insert_sorted-Ascending n r [] h a = (h, tt)
insert_sorted-Ascending n r (x ∷ xs) h a = elim (Bool-cases (PortRange.le r x)) [
  | inl e ↦ rw e (h, (ground arith, a.1))
  | inr e ↦ rw e (a.0, insert_sorted-Ascending x.start r xs (ground arith) a.1)
]

pub sorted-Ascending : (rs : List PortRange) → Ascending 0 (sorted rs)
unfolding sorted
sorted-Ascending [] = tt
sorted-Ascending (r ∷ rs) =
    insert_sorted-Ascending 0 r (sorted rs) (omega arith) (sorted-Ascending rs)

insert_sorted-IsValid :
    (r : PortRange) (rs : List PortRange)
    → IsValid r
    → All IsValid rs
    → All IsValid (insert_sorted r rs)
unfolding insert_sorted
insert_sorted-IsValid r [] h a = (h, tt)
insert_sorted-IsValid r (x ∷ xs) h a = elim (Bool-cases (PortRange.le r x)) [
  | inl e ↦ rw e (h, a)
  | inr e ↦ rw e (a.0, insert_sorted-IsValid r xs h a.1)
]

pub sorted-IsValid : (rs : List PortRange) → All IsValid rs → All IsValid (sorted rs)
unfolding sorted
sorted-IsValid [] a = tt
sorted-IsValid (r ∷ rs) a = insert_sorted-IsValid r (sorted rs) a.0 (sorted-IsValid rs a.1)

Ascending-weaken : (n m : ℕ) (rs : List PortRange) → n ≤ m → Ascending m rs → Ascending n rs
Ascending-weaken n m [] h a = tt
Ascending-weaken n m (r ∷ rs) h a = (omega arith, a.1)

abbrev pub joined : PortRange → PortRange → PortRange
joined last current = record { start = last.start; end = max last.end current.end }

contains-joined :
    (last current : PortRange) (p : ℕ)
    → last.start ≤ current.start
    → leb current.start (last.end + 1) ≡ true
    → PortRange.contains (joined last current) p
      ≡ (PortRange.contains last p || PortRange.contains current p)
contains-joined last current p h e = ground arith

covers-merge_onto :
    (last : PortRange) (rs : List PortRange) (p : ℕ)
    → Ascending last.start rs
    → covers (merge_onto last rs) p ≡ (PortRange.contains last p || covers rs p)
unfolding merge_onto
covers-merge_onto last [] p a = refl
covers-merge_onto last (r ∷ rs) p a = elim (Bool-cases (leb r.start (last.end + 1))) [
  | inl e ↦
      let later =
        covers-merge_onto (joined last r) rs p (Ascending-weaken last.start r.start rs a.0 a.1) in
      let both = contains-joined last r p a.0 e in rw (e, merge_onto) (ground (arith, later, both))
  | inr e ↦ rw (e, merge_onto) (ground (arith, covers-merge_onto r rs p a.1))
]

covers-merge : (rs : List PortRange) (p : ℕ) → Ascending 0 rs → covers (merge rs) p ≡ covers rs p
unfolding merge
covers-merge [] p a = refl
covers-merge (r ∷ rs) p a = covers-merge_onto r rs p a.1

-- Normalising keeps exactly the ports of the given ranges.
pub covers-normalize_ranges :
    (rs : List PortRange) (p : ℕ) → covers (normalize_ranges rs) p ≡ covers rs p
covers-normalize_ranges rs p =
    unfold normalize_ranges in
    (covers-merge (sorted rs) p (sorted-Ascending rs) ∙ covers-sorted rs p)
