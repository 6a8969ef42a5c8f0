-- ===== src/Release/Audit.antt =====
-- The hash-chained log of py2fw/release/audit.py. A log is the list of the entries that read_log
-- reads; reading and writing the file, the JSON text of an entry and the time are not modelled. A
-- `seq` counts as a number only when it is a natural number as JSON writes it.
pub mod Chain
pub mod Tampering
pub mod Appending
use py2fw.Common.{
  ℕ, suc, ◌+◌, ◌≡◌, ◌↔◌, String, Bool, true, false, not, Option, none, some, List, [], ◌∷◌, ◌++◌,
  arith, is_empty, select, text_le, if◌then◌else◌, length, Dict, get, insert, Eq, ◌==◌, ℕ_eq,
  String_eq, text, str_ℕ,
}

-- A value of an entry: a natural number, a text, or the JSON text of any other value.
pub data Json : Type 0 where
  number : ℕ → Json
  string other : String → Json

abbrev pub json_beq : Json → Json → Bool
json_beq (number a) (number b) = a == b
json_beq (string a) (string b) = a == b
json_beq (other a) (other b) = a == b
json_beq _ _ = false

pub json_beq_iff : (a b : Json) → (json_beq a b ≡ true) ↔ (a ≡ b)
json_beq_iff (number a) (number b) = ground (arith, ℕ_eq.equal_iff a b)
json_beq_iff (number a) (string b) = ground arith
json_beq_iff (number a) (other b) = ground arith
json_beq_iff (string a) (number b) = ground arith
json_beq_iff (string a) (string b) = ground (arith, String_eq.equal_iff a b)
json_beq_iff (string a) (other b) = ground arith
json_beq_iff (other a) (number b) = ground arith
json_beq_iff (other a) (string b) = ground arith
json_beq_iff (other a) (other b) = ground (arith, String_eq.equal_iff a b)

instance abbrev pub Json_eq : Eq Json
Json_eq = record { equal = json_beq; equal_iff = json_beq_iff }

abbrev pub Entry : Type 0
Entry = Dict String Json

abbrev pub genesis : String
genesis = "0000000000000000000000000000000000000000000000000000000000000000"

-- The fields that the hash covers.
abbrev pub body : Entry → Entry
body entry = select (λ (field : String × Json). not (field.0 == "hash")) entry

unfoldable pub insert_field : String × Json → Entry → Entry
unfolding text_le
insert_field field [] = field ∷ []
insert_field field (first ∷ rest) =
    if text_le field.0 first.0 then field ∷ first ∷ rest else first ∷ insert_field field rest

-- What `canonical` writes of a dict: its fields in the order of their names. The rest of the JSON
-- text is the hash's.
unfoldable pub canonical : Entry → Entry
unfolding insert_field
canonical [] = []
canonical (field ∷ fields) = insert_field field (canonical fields)

-- `entry.get(name) == value`, for a text and for a number.
abbrev pub is_string : Option Json → String → Bool
is_string (some (string s)) value = s == value
is_string _ value = false

abbrev pub is_number : Option Json → ℕ → Bool
is_number (some (number n)) value = n == value
is_number _ value = false

unfoldable pub update : Entry → Entry → Entry
unfolding insert
update entry [] = entry
update entry ((name, value) ∷ fields) = update (insert name value entry) fields

-- What read_log gives: the entries, or the JSONDecodeError.
pub data Reading : Type 0 where
  read : List Entry → Reading
  unreadable : String → Reading

pub record LogVerification : Type 0 where
  pub size : ℕ
  pub problems : List String

abbrev pub verified : LogVerification → Bool
verified result = is_empty result.problems

-- The hash of the JSON text of sorted fields, and `str` of a value that is no text.
module _ (sha256 : Entry → String) (str_value : Option Json → String) where
  abbrev pub digest : Entry → String
  digest entry = sha256 (canonical (body entry))

  -- `str` of a field, as an f-string writes it
  abbrev pub str_field : Option Json → String
  str_field (some (string s)) = s
  str_field (some (number n)) = str_ℕ n
  str_field value = str_value value

  -- The number and the hash of the entry before, or of the beginning. `none` is the KeyError or
  -- TypeError of an entry without them.
  unfoldable pub successor : List Entry → Option (ℕ × Json)
  unfolding get
  successor [] = some (1, string genesis)
  successor (entry ∷ []) = elim (get "seq" entry) [
    | none ↦ none
    | some (string s) ↦ none
    | some (other s) ↦ none
    | some (number n) ↦ (elim (get "hash" entry) [ none ↦ none | some h ↦ some (n + 1, h) ])
  ]
  successor (first ∷ second ∷ rest) = successor (second ∷ rest)

  abbrev pub new_entry : ℕ → String → String → String → Entry → Json → Entry
  new_entry seq at event actor details prev =
      let entry : Entry = insert "prev" prev (
        update
          (("seq", number seq)
            ∷ ("at", string at)
            ∷ ("event", string event)
            ∷ ("actor", string actor)
            ∷ [])
          details) in
      insert "hash" (string (digest entry)) entry

  -- The log with the event at its end.
  unfoldable pub append_event : List Entry → String → String → String → Entry → Option (List Entry)
  unfolding successor update insert
  append_event log at event actor details = elim (successor log) [
    | none ↦ none
    | some (seq, prev) ↦ some (log ++ new_entry seq at event actor details prev ∷ [])
  ]

  problem : Bool → ℕ → String → List String
  problem true index what = []
  problem false index what = text ("entry " ∷ str_ℕ index ∷ ": " ∷ what ∷ []) ∷ []

  -- What is wrong with one entry.
  unfoldable pub entry_problems : ℕ → String → Entry → List String
  unfolding problem get
  entry_problems index previous_hash entry =
      problem (is_number (get "seq" entry) index) index
        (text ("sequence is " ∷ str_field (get "seq" entry) ∷ ", expected " ∷ str_ℕ index ∷ []))
      ++ (problem (is_string (get "prev" entry) previous_hash) index
            "chain broken (prev hash does not match)"
          ++ problem (is_string (get "hash" entry) (digest entry)) index
              "content was modified (hash mismatch)")

  -- The loop of `verify_log`.
  unfoldable pub verify_from : ℕ → String → List Entry → List String
  unfolding entry_problems
  verify_from index previous_hash [] = []
  verify_from index previous_hash (entry ∷ rest) =
      entry_problems index previous_hash entry
      ++ verify_from (suc index) (str_field (get "hash" entry)) rest

  unfoldable pub verify_log : Reading → LogVerification
  unfolding verify_from
  verify_log (unreadable exc) = record {
    size = 0;
    problems = text ("unreadable entry: " ∷ exc ∷ []) ∷ [];
  }
  verify_log (read log) = record { size = length log; problems = verify_from 1 genesis log }
