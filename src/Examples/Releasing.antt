-- ===== src/Examples/Releasing.antt =====
-- The audit log with two events, and the difference of two policies.
use py2fw.Common.{
  elem, ◌&&◌, String, ◌≡◌, ◌⊎◌, refl, true, not, Option, some, [], ◌∷◌, ◌++◌, map, select, has, get,
  insert, String_eq,
}
use py2fw.Compiler.Ir.{FirewallIr}
use py2fw.Release.Audit.{
  Json, string, Entry, genesis, body, read, new_entry, append_event, verified, verify_log, update,
}
use py2fw.Release.Audit.Tampering.{hashed, Collides, verify_log_unique}
use py2fw.Release.Audit.Appending.{append_event-verified}
use py2fw.Engine.Diff.{diff_policies}
use py2fw.Engine.Diff.Changes.{is_added, is_removed, is_named, names, diff_policies-names}
use py2fw.Examples.Samples.{sample_ir, deny_lab}

abbrev text_or_none : Option Json → String
text_or_none (some (string s)) = s
text_or_none _ = "none"

-- A hash that tells events apart.
abbrev event_hash : Entry → String
event_hash entry = text_or_none (get "event" entry)

abbrev planned : Entry
planned = new_entry event_hash text_or_none 1 "09:00" "plan" "ann" [] (string genesis)

abbrev approved : Entry
approved = new_entry event_hash text_or_none 2 "10:00" "approve" "bob" [] (string "plan")

append_event-verified_example :
    (entry : Entry) × (append_event event_hash text_or_none
        (planned ∷ [])
        "10:00"
        "approve"
        "bob"
        []
      ≡ some ((planned ∷ []) ++ entry ∷ []))
    × (verified (verify_log event_hash text_or_none (read ((planned ∷ []) ++ entry ∷ []))) ≡ true)
unfolding verify_log update insert get has py2fw.Release.Audit.canonical
append_event-verified_example =
    append_event-verified event_hash text_or_none (planned ∷ []) "10:00" "approve" "bob" [] refl
      refl

verify_log_unique_example :
    (map hashed (planned ∷ approved ∷ []) ≡ map hashed (planned ∷ approved ∷ []))
    ⊎ Collides event_hash (planned ∷ approved ∷ []) (planned ∷ approved ∷ [])
unfolding py2fw.Release.Audit.canonical verify_log update insert get
verify_log_unique_example =
    verify_log_unique event_hash text_or_none (planned ∷ approved ∷ []) (planned ∷ approved ∷ [])
      refl refl refl refl

abbrev smaller_ir : FirewallIr
smaller_ir = record sample_ir { policies = deny_lab ∷ [] }

diff_policies-names_example :
    (elem "allow-corp" (names (select is_added (diff_policies smaller_ir sample_ir)))
      ≡ (is_named sample_ir "allow-corp" && not (is_named smaller_ir "allow-corp")))
    × (elem "allow-corp" (names (select is_removed (diff_policies smaller_ir sample_ir)))
        ≡ (is_named smaller_ir "allow-corp" && not (is_named sample_ir "allow-corp")))
diff_policies-names_example = diff_policies-names smaller_ir sample_ir "allow-corp"
