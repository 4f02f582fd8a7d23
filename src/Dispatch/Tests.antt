-- ===== src/Dispatch/Tests.antt =====
-- Runs of the proof log's strings and the merged verdicts of src/ProofDispatch.cpp.
use oxide_lang_reupload.Prelude.{Text, codes, text_eq, true, ◌≡◌, refl, List, [], ◌∷◌, ◌++◌, some}
use oxide_lang_reupload.Dispatch.Json.{
  json_escape, json_string_field, key_pattern, json_string_field-json_escape,
  is_nowhere-StartsNowhere,
}
use oxide_lang_reupload.Dispatch.Merge.{SolverResult, IsMerge, merge_results, merge_results-IsMerge}

-- A label with a quotation mark, a backslash and a line break.
abbrev label : Text
label = codes "a\"b\\c\nd"

-- `{`, a line break and the field of the label, as `writeProofLog` writes them before the tactic.
abbrev opening : Text
opening = codes "{\n      \"label\": \"" ++ json_escape label ++ codes "\",\n      "

abbrev tactic : Text
tactic = codes "tactic"

json_string_field-json_escape_example :
    json_string_field
      (opening
        ++ (key_pattern tactic
            ++ b' ' ∷ b'"' ∷ (json_escape (codes "QF_BV") ++ b'"' ∷ codes "\n    }")))
      tactic
    ≡ some (codes "QF_BV")
unfolding json_escape
json_string_field-json_escape_example =
    json_string_field-json_escape opening tactic (codes "QF_BV") (codes "\n    }")
      (is_nowhere-StartsNowhere (key_pattern tactic) opening
        (key_pattern tactic
          ++ b' ' ∷ b'"' ∷ (json_escape (codes "QF_BV") ++ b'"' ∷ codes "\n    }"))
        refl)
      refl

-- A bell is written as `\u0007`, and read back as `u0007`.
bell_is_lost :
    json_string_field (codes "{\"label\":\"" ++ json_escape (7 ∷ []) ++ codes "\"}") (codes "label")
    ≡ some (codes "u0007")
unfolding json_string_field json_escape
bell_is_lost = refl

abbrev result : Text → Text → SolverResult
result solver status = record { solver = solver; status = status; available = true; raw = status }

abbrev conflict : List SolverResult
conflict = result (codes "z3") (codes "sat") ∷ result (codes "cvc5") (codes "unsat") ∷ []

conflict_is_a_bug : (merge_results conflict).status ≡ codes "BUG"
unfolding merge_results text_eq
conflict_is_a_bug = refl

merge_results-IsMerge_example :
    IsMerge conflict (merge_results conflict).status (merge_results conflict).disagreement
merge_results-IsMerge_example = merge_results-IsMerge conflict
