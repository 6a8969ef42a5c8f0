-- ===== src/Release/Audit/Appending.antt =====
-- append_event keeps a log that verify_log accepts: py2fw/release/audit.py.
use package.text.Mathlib.TextEquality.{eq_iff}
use py2fw.Common.{
  ℕ, suc, ◌+◌, ◌≡◌, refl, sym, ap, ◌∙◌, String, true, false, Option, none, some, List, [], ◌∷◌,
  ◌++◌, arith, length, get, has, insert, get-insert, ℕ_eq, String_eq,
}
use py2fw.Release.Audit.{
  Json, number, string, other, read, Entry, genesis, body, canonical, is_string, is_number, update,
  verified, digest, successor, new_entry, append_event, verify_log,
}
use py2fw.Release.Audit.Chain.{fits, chain, chain-append, last_hash, verify_from-chain}

-- The hash of an entry is no part of its body.
body-insert : (value : Json) (entry : Entry) → body (insert "hash" value entry) ≡ body entry
unfolding insert
body-insert value [] = refl
body-insert value ((field, old) ∷ rest) =
    ground (arith, eq_iff field "hash", body-insert value rest)

get-update :
    (name : String) (entry fields : Entry)
    → has name fields ≡ false
    → get name (update entry fields) ≡ get name entry
unfolding update has
get-update name entry [] h = refl
get-update name entry ((field, value) ∷ fields) h =
    get-update name (insert field value entry) fields (ground (arith, h))
    ∙ ground (arith, h, get-insert field name value entry)

module _ (sha256 : Entry → String) (str_value : Option Json → String) where
  number_of :
      (field : Option Json) (value : ℕ) → is_number field value ≡ true → field ≡ some (number value)
  number_of (some (number n)) value h = ap (λ m. some (number m)) ((ℕ_eq.equal_iff n value).0 h)
  number_of (some (string s)) value h = cc
  number_of (some (other s)) value h = cc
  number_of none value h = cc

  text_of :
      (field : Option Json) (value : String)
      → is_string field value ≡ true
      → field ≡ some (string value)
  text_of (some (string s)) value h = ap (λ t. some (string t)) ((eq_iff s value).0 h)
  text_of (some (number n)) value h = cc
  text_of (some (other s)) value h = cc
  text_of none value h = cc

  successor-chain :
      (index : ℕ) (previous_hash : String) (entry : Entry) (rest : List Entry)
      → chain sha256 str_value index previous_hash (entry ∷ rest) ≡ true
      → successor sha256 str_value (entry ∷ rest)
        ≡ some (
          index + length (entry ∷ rest),
          string (last_hash sha256 str_value previous_hash (entry ∷ rest)),
        )
  unfolding successor
  successor-chain index previous_hash entry [] c =
      let seq : get "seq" entry ≡ some (number index) =
        number_of (get "seq" entry) index (ground (arith, c)) in
      let hash : get "hash" entry ≡ some (string (digest sha256 str_value entry)) =
        text_of (get "hash" entry) (digest sha256 str_value entry) (ground (arith, c)) in
      ground (arith, seq, hash)
  successor-chain index previous_hash entry (next ∷ rest) c =
      let later =
        successor-chain (suc index) (digest sha256 str_value entry) next rest (ground (arith, c)) in
      ground (arith, later)

  successor-verified :
      (log : List Entry)
      → chain sha256 str_value 1 genesis log ≡ true
      → successor sha256 str_value log
        ≡ some (1 + length log, string (last_hash sha256 str_value genesis log))
  successor-verified [] c = unfold successor in refl
  successor-verified (entry ∷ rest) c = successor-chain 1 genesis entry rest c

  new_entry-fits :
      (seq : ℕ) (at event actor : String) (details : Entry) (previous_hash : String)
      → has "seq" details ≡ false
      → fits sha256 str_value seq previous_hash
          (new_entry sha256 str_value seq at event actor details (string previous_hash))
        ≡ true
  new_entry-fits seq at event actor details previous_hash h =
      let start : Entry =
        ("seq", number seq)
        ∷ ("at", string at)
        ∷ ("event", string event)
        ∷ ("actor", string actor)
        ∷ [] in
      let prev : Entry = insert "prev" (string previous_hash) (update start details) in
      let d : String = digest sha256 str_value prev in
      let full : Entry = insert "hash" (string d) prev in
      let same : digest sha256 str_value full ≡ d =
        ap (λ b. sha256 (canonical b)) (body-insert (string d) prev) in
      let seq_kept : get "seq" full ≡ some (number seq) =
        get-insert "hash" "seq" (string d) prev
        ∙ (get-insert "prev" "seq" (string previous_hash) (update start details)
            ∙ (get-update "seq" start details h ∙ (unfold get in refl))) in
      let prev_kept : get "prev" full ≡ some (string previous_hash) =
        get-insert "hash" "prev" (string d) prev
        ∙ get-insert "prev" "prev" (string previous_hash) (update start details) in
      let hash_kept : get "hash" full ≡ some (string d) =
        get-insert "hash" "hash" (string d) prev in
      ground (
        arith,
        seq_kept,
        prev_kept,
        hash_kept,
        same,
        ℕ_eq.equal_iff seq seq,
        eq_iff previous_hash previous_hash,
        eq_iff d (digest sha256 str_value full),
      )

  -- To a log that verify_log accepts, append_event adds one entry at the end, and verify_log
  -- accepts the longer log, when no detail of the event is called `seq`.
  pub append_event-verified :
      (log : List Entry) (at event actor : String) (details : Entry)
      → has "seq" details ≡ false
      → verified (verify_log sha256 str_value (read log)) ≡ true
      → (entry : Entry) × (append_event sha256 str_value log at event actor details
          ≡ some (log ++ entry ∷ []))
        × (verified (verify_log sha256 str_value (read (log ++ entry ∷ []))) ≡ true)
  unfolding verify_log append_event
  append_event-verified log at event actor details h v =
      let c : chain sha256 str_value 1 genesis log ≡ true =
        sym (verify_from-chain sha256 str_value 1 genesis log) ∙ v in
      let last : String = last_hash sha256 str_value genesis log in
      let entry : Entry =
        new_entry sha256 str_value (1 + length log) at event actor details (string last) in
      (
        entry,
        ground (arith, successor-verified log c),
        ground (
          arith,
          c,
          verify_from-chain sha256 str_value 1 genesis (log ++ entry ∷ []),
          chain-append sha256 str_value 1 genesis log (entry ∷ []),
          new_entry-fits (1 + length log) at event actor details last h,
        ),
      )
