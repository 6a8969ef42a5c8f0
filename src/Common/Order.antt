-- ===== src/Common/Order.antt =====
-- Texts in their order.
use Prim.Native.Nat.{Ordering}
use Prim.Native.String.{String, compare}
use mathlib.Core.Path.{◌≡◌, refl}
use mathlib.Core.Bool.{Bool, true, false, ◌&&◌}
use native.Mathlib.Omega.{arith}
use py2fw.Common.Lists.{all}
use mathlib.Core.List.{List, [], ◌∷◌}
use py2fw.Common.Tests.{if◌then◌else◌}

-- The order of texts by their characters' codes.
unfoldable pub text_le : String → String → Bool
text_le a b = elim (compare a b) [ Ordering.gt ↦ false | _ ↦ true ]

-- `sorted(values)`
insert_text : String → List String → List String
unfolding text_le
insert_text value [] = value ∷ []
insert_text value (x ∷ xs) = if text_le value x then value ∷ x ∷ xs else x ∷ insert_text value xs

unfoldable pub sorted_texts : List String → List String
unfolding insert_text
sorted_texts [] = []
sorted_texts (x ∷ xs) = insert_text x (sorted_texts xs)

all-insert_text :
    (p : String → Bool) (value : String) (xs : List String)
    → all p (insert_text value xs) ≡ (p value && all p xs)
unfolding insert_text
all-insert_text p value [] = refl
all-insert_text p value (x ∷ xs) = ground (arith, all-insert_text p value xs)

pub all-sorted_texts : (p : String → Bool) (xs : List String) → all p (sorted_texts xs) ≡ all p xs
unfolding sorted_texts
all-sorted_texts p [] = refl
all-sorted_texts p (x ∷ xs) =
    ground (arith, all-insert_text p x (sorted_texts xs), all-sorted_texts p xs)
