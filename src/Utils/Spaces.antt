-- ===== src/Utils/Spaces.antt =====
-- Python's `strip` and the slice of a text's last characters.
use Prim.Native.Char.{code}
use Prim.Native.String.{String, [], ◌∷◌}
use py2fw.Common.{
  ℕ, zero, suc, ◌-◌, Bool, ◌&&◌, ◌||◌, List, leb, elem, ◌==◌, if◌then◌else◌, ℕ_eq, String_eq,
}

-- The code points of `str.isspace` above 127.
abbrev wide_spaces : List ℕ
wide_spaces = List.◌∷◌ 133 (
    List.◌∷◌ 160 (
      List.◌∷◌ 5760
        (List.◌∷◌ 8232 (List.◌∷◌ 8233 (List.◌∷◌ 8239 (List.◌∷◌ 8287 (List.◌∷◌ 12288 List.[])))))))

unfoldable pub is_space : ℕ → Bool
is_space c =
    (leb 9 c && leb c 13)
    || (leb 28 c && leb c 32)
    || (leb 8192 c && leb c 8202)
    || elem c wide_spaces

unfoldable pub lstrip : String → String
unfolding is_space
lstrip [] = []
lstrip (c ∷ rest) = let more = lstrip rest in if is_space (code c) then more else c ∷ rest

unfoldable pub rstrip : String → String
unfolding is_space
rstrip [] = []
rstrip (c ∷ rest) =
    let more = rstrip rest in if is_space (code c) && (more == []) then [] else c ∷ more

-- `value.strip()`
unfoldable pub strip : String → String
unfolding lstrip rstrip
strip value = lstrip (rstrip value)

abbrev pub size : String → ℕ
size [] = 0
size (c ∷ rest) = suc (size rest)

abbrev pub drop_chars : ℕ → String → String
drop_chars zero value = value
drop_chars (suc n) [] = []
drop_chars (suc n) (c ∷ rest) = drop_chars n rest

-- `value[-n:]`, for a positive n
unfoldable pub last_chars : ℕ → String → String
last_chars n value = drop_chars (size value - n) value
