-- ===== src/Release/Approvals/Digests.antt =====
-- hmac.compare_digest, as py2fw/release/plan.py uses it.
use Prim.Native.Char.{code}
use Prim.Native.String.{String, [], ◌∷◌}
use py2fw.Common.{Bool, true, ◌&&◌, Option, none, some, ltb, ◌==◌, if◌then◌else◌, String_eq}

unfoldable pub is_ascii : String → Bool
is_ascii [] = true
is_ascii (c ∷ rest) = ltb (code c) 128 && is_ascii rest

-- The comparison of two texts; `none` is the TypeError of a text beyond ASCII.
unfoldable pub compare_digest : String → String → Option Bool
unfolding is_ascii
compare_digest a b = if is_ascii a && is_ascii b then some (a == b) else none
