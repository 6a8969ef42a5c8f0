-- ===== src/Parser/SourceMap.antt =====
-- The class SourceMap of py2fw/parser/source_map.py.
use Prim.Native.Char.{code}
use Prim.Native.String.{String, ◌∷◌, []}
use py2fw.Common.{
  text, str_ℕ, ℕ, zero, suc, List, Bool, true, false, ◌&&◌, ◌||◌, not, Option, none, some, leb,
  if◌then◌else◌, Dict, get, ◌==◌, ℕ_eq, String_eq,
}

pub record SourceMap : Type 0 where
  pub lines : Dict String ℕ
  pub path : Option String

abbrev pub empty : SourceMap
empty = record { lines = List.[]; path = none }

is_digit : ℕ → Bool
is_digit c = leb b'0' c && leb c b'9'

-- `\d*\]`, up to the end
index_tail : String → Bool
index_tail [] = false
index_tail (c ∷ rest) =
    let more = index_tail rest in if code c == b']' then rest == "" else is_digit (code c) && more

-- `\d+\]`, up to the end
index_body : String → Bool
index_body [] = false
index_body (c ∷ rest) = is_digit (code c) && index_tail rest

-- `[^.\[]*`, up to the end
field_tail : String → Bool
field_tail [] = true
field_tail (c ∷ rest) = not (code c == b'.') && not (code c == b'[') && field_tail rest

-- `[^.\[]+`, up to the end
field_body : String → Bool
field_body [] = false
field_body (c ∷ rest) = field_tail (c ∷ rest)

-- `_INDEX_OR_FIELD` at this place: `(\[\d+\]|\.[^.\[]+)$`
index_or_field : String → Bool
index_or_field [] = false
index_or_field (c ∷ rest) =
    (code c == b'[' && index_body rest) || (code c == b'.' && field_body rest)

-- `_INDEX_OR_FIELD.sub("", probe)`
unfoldable pub trim : String → String
unfolding is_digit index_tail index_body field_tail field_body index_or_field
trim [] = []
trim (c ∷ rest) = if index_or_field (c ∷ rest) then [] else c ∷ trim rest

abbrev pub chars : String → ℕ
chars [] = 0
chars (c ∷ rest) = suc (chars rest)

-- The loop of `line`; a round that goes on has a shorter probe.
line_from : ℕ → SourceMap → String → Option ℕ
line_from zero source probe = none
line_from (suc fuel) source probe =
    let further = line_from fuel source (trim probe) in
    if probe == "" then none else elim (get probe source.lines) [
      | some found ↦ some found
      | none ↦ if trim probe == probe then none else further
    ]

unfoldable pub line : SourceMap → String → Option ℕ
unfolding line_from trim get
line source location = line_from (suc (chars location)) source location

-- `ref`; the path stands for its last part, `self.path.name`.
unfoldable pub ref : SourceMap → String → String
unfolding line
ref source location = elim (line source location) [
  | none ↦ location
  | some found ↦ text (
      List.◌∷◌ (elim source.path [ none ↦ "policy" | some name ↦ name ])
        (List.◌∷◌ ":"
          (List.◌∷◌ (str_ℕ found) (List.◌∷◌ " (" (List.◌∷◌ location (List.◌∷◌ ")" List.[]))))))
]
