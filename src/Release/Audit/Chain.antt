-- ===== src/Release/Audit/Chain.antt =====
-- The chain of a log that verify_log accepts: py2fw/release/audit.py.
use package.text.Mathlib.TextEquality.{eq_iff}
use py2fw.Common.{
  ℕ, suc, ◌+◌, ◌≡◌, refl, ap, ◌∙◌, String, Bool, true, false, ◌&&◌, Option, none, some, List, [],
  ◌∷◌, ◌++◌, arith, is_empty-append, is_empty, length, get, ℕ_eq, String_eq, inl, inr, Bool-cases,
}
use py2fw.Release.Audit.{
  Json, number, string, other, Entry, is_string, is_number, digest, str_field, problem,
  entry_problems, verify_from,
}

module _ (sha256 : Entry → String) (str_value : Option Json → String) where
  -- An entry stands in its place: its number, the hash before it, and its own hash are right.
  abbrev pub fits : ℕ → String → Entry → Bool
  fits index previous_hash entry =
      is_number (get "seq" entry) index
      && (is_string (get "prev" entry) previous_hash
          && is_string (get "hash" entry) (digest sha256 str_value entry))

  -- Entries form a chain from a number and a hash on.
  abbrev pub chain : ℕ → String → List Entry → Bool
  chain index previous_hash [] = true
  chain index previous_hash (entry ∷ entries) =
      fits index previous_hash entry && chain (suc index) (digest sha256 str_value entry) entries

  hash_of :
      (field : Option Json) (value : String)
      → is_string field value ≡ true
      → str_field sha256 str_value field ≡ value
  hash_of (some (string s)) value h = (eq_iff s value).0 h
  hash_of (some (number n)) value h = cc
  hash_of (some (other s)) value h = cc
  hash_of none value h = cc

  is_empty-problem :
      (b : Bool) (index : ℕ) (what : String) → is_empty (problem sha256 str_value b index what) ≡ b
  unfolding problem
  is_empty-problem true index what = refl
  is_empty-problem false index what = refl

  is_empty-entry_problems :
      (index : ℕ) (previous_hash : String) (entry : Entry)
      → is_empty (entry_problems sha256 str_value index previous_hash entry)
        ≡ fits index previous_hash entry
  unfolding entry_problems
  is_empty-entry_problems index previous_hash entry =
      is_empty-append (problem sha256 str_value (is_number (get "seq" entry) index) index _) _
      ∙ rw (is_empty-problem (is_number (get "seq" entry) index) index _) (
          ap (λ b. is_number (get "seq" entry) index && b)
            (is_empty-append
                (problem sha256 str_value (is_string (get "prev" entry) previous_hash) index _) _
              ∙ rw
                  (
                    is_empty-problem (is_string (get "prev" entry) previous_hash) index _,
                    is_empty-problem (is_string (get "hash" entry) (digest sha256 str_value entry))
                        index _,
                  )
                  refl))

  -- A log is accepted exactly when it is a chain.
  pub verify_from-chain :
      (index : ℕ) (previous_hash : String) (log : List Entry)
      → is_empty (verify_from sha256 str_value index previous_hash log)
        ≡ chain index previous_hash log
  unfolding verify_from
  verify_from-chain index previous_hash [] = refl
  verify_from-chain index previous_hash (entry ∷ rest) =
      elim (Bool-cases (fits index previous_hash entry)) [
        | inl good ↦
            let same : str_field sha256 str_value (get "hash" entry)
                ≡ digest sha256 str_value entry =
              hash_of (get "hash" entry) (digest sha256 str_value entry) (ground (arith, good)) in
            ground (
              arith,
              good,
              is_empty-append (entry_problems sha256 str_value index previous_hash entry) (
                  verify_from sha256 str_value (suc index)
                    (str_field sha256 str_value (get "hash" entry)) rest),
              is_empty-entry_problems index previous_hash entry,
              same,
              verify_from-chain (suc index) (digest sha256 str_value entry) rest,
            )
        | inr bad ↦ ground (
          arith,
          bad,
          is_empty-append (entry_problems sha256 str_value index previous_hash entry) (
              verify_from sha256 str_value (suc index)
                (str_field sha256 str_value (get "hash" entry)) rest),
          is_empty-entry_problems index previous_hash entry,
        )
      ]

  -- The hash that an entry after the log has to name.
  abbrev pub last_hash : String → List Entry → String
  last_hash previous_hash [] = previous_hash
  last_hash previous_hash (entry ∷ rest) = last_hash (digest sha256 str_value entry) rest

  pub chain-append :
      (index : ℕ) (previous_hash : String) (log more : List Entry)
      → chain index previous_hash (log ++ more) ≡ (
          chain index previous_hash log
          && chain (index + length log) (last_hash previous_hash log) more)
  chain-append index previous_hash [] more = ap (λ i. chain i previous_hash more) (omega arith)
  chain-append index previous_hash (entry ∷ rest) more =
      let shift : suc index + length rest ≡ index + suc (length rest) = omega arith in
      let later =
        rw shift at (chain-append (suc index) (digest sha256 str_value entry) rest more) in
      ground (arith, later)
