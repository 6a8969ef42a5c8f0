-- ===== src/Release/Audit/Tampering.antt =====
-- What a log that verify_log accepts says about its entries: py2fw/release/audit.py.
use package.text.Mathlib.TextEquality.{eq_iff}
use py2fw.Common.{
  text_le, ℕ, suc, ◌≡◌, ◌≢◌, ◌⊎◌, refl, sym, ap, ◌∙◌, String, true, false, Option, none, some, List,
  [], ◌∷◌, arith, map, length, get, ◌==◌, ℕ_eq, String_eq, pair_eq, list_eq, list_beq_iff, inl, inr,
  Bool-cases,
}
use py2fw.Release.Audit.{
  Json, Json_eq, number, string, other, read, Entry, genesis, body, insert_field, canonical,
  is_string, verified, digest, verify_log,
}
use py2fw.Release.Audit.Chain.{chain, last_hash, verify_from-chain}

get-body :
    (name : String) (entry : Entry)
    → (name == "hash") ≡ false
    → get name (body entry) ≡ get name entry
unfolding get
get-body name [] h = refl
get-body name ((field, value) ∷ rest) h =
    ground
      (arith, h, eq_iff field name, eq_iff field "hash", eq_iff name "hash", get-body name rest h)

get-insert_field :
    (name : String) (field : String × Json) (fields : Entry)
    → get name (insert_field field fields) ≡ get name (field ∷ fields)
unfolding get insert_field text_le
get-insert_field name field [] = refl
get-insert_field name (field, value) ((first, other_value) ∷ rest) = ground (
  arith,
  get-insert_field name (field, value) rest,
  eq_iff field first,
  eq_iff field name,
  eq_iff first name,
)

-- A field of a dict is the same in the canonical text.
get-canonical : (name : String) (entry : Entry) → get name (canonical entry) ≡ get name entry
unfolding canonical get
get-canonical name [] = refl
get-canonical name ((field, value) ∷ fields) =
    get-insert_field name (field, value) (canonical fields)
    ∙ ground (arith, get-canonical name fields)

-- What the hash of an entry covers.
abbrev pub hashed : Entry → Entry
hashed entry = canonical (body entry)

-- At one place two logs have entries with different texts and one hash.
pub data Collides (sha256 : Entry → String) : List Entry → List Entry → Type 0 where
  here :
      (e f : Entry) (es fs : List Entry)
      → hashed e ≢ hashed f
      → sha256 (hashed e) ≡ sha256 (hashed f)
      → Collides sha256 (e ∷ es) (f ∷ fs)
  later :
      (e f : Entry) (es fs : List Entry) → Collides sha256 es fs → Collides sha256 (e ∷ es) (f ∷ fs)

get-hashed :
    (name : String) (entry : Entry)
    → (name == "hash") ≡ false
    → get name (hashed entry) ≡ get name entry
get-hashed name entry h = get-canonical name (body entry) ∙ get-body name entry h

module _ (sha256 : Entry → String) (str_value : Option Json → String) where
  prev_of :
      (field : Option Json) (value : String)
      → is_string field value ≡ true
      → field ≡ some (string value)
  prev_of (some (string s)) value h = ap (λ t. some (string t)) ((eq_iff s value).0 h)
  prev_of (some (number n)) value h = cc
  prev_of (some (other s)) value h = cc
  prev_of none value h = cc

  same_previous :
      (index : ℕ) (h k : String) (e f : Entry) (es fs : List Entry)
      → chain sha256 str_value index h (e ∷ es) ≡ true
      → chain sha256 str_value index k (f ∷ fs) ≡ true
      → hashed e ≡ hashed f
      → h ≡ k
  same_previous index h k e f es fs c d same =
      let left : get "prev" e ≡ some (string h) = prev_of (get "prev" e) h (ground (arith, c)) in
      let right : get "prev" f ≡ some (string k) = prev_of (get "prev" f) k (ground (arith, d)) in
      let both : get "prev" e ≡ get "prev" f =
        sym (get-hashed "prev" e refl) ∙ (ap (get "prev") same ∙ get-hashed "prev" f refl) in
      ground (arith, left, right, both)

  chain_unique :
      (index : ℕ) (h k : String) (a b : List Entry)
      → length a ≡ length b
      → chain sha256 str_value index h a ≡ true
      → chain sha256 str_value index k b ≡ true
      → last_hash sha256 str_value h a ≡ last_hash sha256 str_value k b
      → ((map hashed a ≡ map hashed b) × (h ≡ k)) ⊎ Collides sha256 a b
  chain_unique index h k [] [] n c d same = inl (refl, same)
  chain_unique index h k [] (f ∷ fs) n c d same = absurd (omega arith)
  chain_unique index h k (e ∷ es) [] n c d same = absurd (omega arith)
  chain_unique index h k (e ∷ es) (f ∷ fs) n c d same =
      elim (chain_unique (suc index) (digest sha256 str_value e) (digest sha256 str_value f) es fs
        (omega arith) (ground (arith, c)) (ground (arith, d)) same) [
          | inr collision ↦ inr (later e f es fs collision)
          | inl (tails, hashes) ↦ elim (Bool-cases (hashed e == hashed f)) [
            | inl equal ↦
                let bodies : hashed e ≡ hashed f = (list_beq_iff (hashed e) (hashed f)).0 equal in
                inl (ground (arith, tails, bodies), same_previous index h k e f es fs c d bodies)
            | inr different ↦ inr (
                here e f es fs
                  (λ q. ground (arith, different, (list_beq_iff (hashed e) (hashed f)).1 q)) hashes)
          ]
        ]

  -- Two accepted logs of one length whose last entries have one hash have the same canonical
  -- entries, hashes aside, in the same order, unless at some place the two logs themselves have
  -- entries with different canonical texts and one hash: what was edited, reordered or exchanged
  -- shows in the last hash.
  pub verify_log_unique :
      (a b : List Entry)
      → length a ≡ length b
      → verified (verify_log sha256 str_value (read a)) ≡ true
      → verified (verify_log sha256 str_value (read b)) ≡ true
      → last_hash sha256 str_value genesis a ≡ last_hash sha256 str_value genesis b
      → (map hashed a ≡ map hashed b) ⊎ Collides sha256 a b
  unfolding verify_log
  verify_log_unique a b n c d same =
      elim (chain_unique 1 genesis genesis a b n
        (sym (verify_from-chain sha256 str_value 1 genesis a) ∙ c)
        (sym (verify_from-chain sha256 str_value 1 genesis b) ∙ d) same) [
          | inl (bodies, _) ↦ inl bodies
          | inr collision ↦ inr collision
        ]
