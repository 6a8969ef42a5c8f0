-- ===== src/Release/Approvals.antt =====
-- The approvals of a plan: approve_plan and valid_approvers of py2fw/release/plan.py. The HMAC, the
-- approval key of the environment and the times are parameters.
pub mod Quorum
pub mod Approving
pub mod Reachable
pub mod Digests
use py2fw.Common.{
  String, Bool, true, false, not, ◌&&◌, ◌||◌, Option, none, some, List, [], ◌∷◌, ◌++◌, elem,
  if◌then◌else◌, ◌==◌, String_eq, text,
}
use py2fw.Utils.Spaces.{strip}
use py2fw.Cli.Outcome.{Outcome, returned, raised, release_error, crashed}
use py2fw.Release.Audit.{Json, string, other, Entry, append_event}
use py2fw.Release.Content.{Content, Approval, Plan}
use py2fw.Release.Approvals.Digests.{compare_digest}

abbrev pub json_bool : Bool → Json
json_bool true = other "true"
json_bool false = other "false"

-- `any(a["by"] == approver for a in approvals)`; `none` is the KeyError.
unfoldable pub approved_by : String → List Approval → Option Bool
approved_by approver [] = some false
approved_by approver (approval ∷ approvals) =
    let rest = approved_by approver approvals in
    elim approval.by [ none ↦ none | some by ↦ if by == approver then some true else rest ]

-- `approval.get(name, "")`
unfoldable pub or_empty : Option String → String
or_empty none = ""
or_empty (some value) = value

module _ (hmac : String → String → String) (approval_key : String) where
  -- `_sign`
  unfoldable pub sign : String → String → String
  sign plan_hash approver =
      if approval_key == "" then "" else hmac approval_key (text (plan_hash ∷ ":" ∷ approver ∷ []))

  -- The signature of an approval is the one that is due.
  unfoldable pub signed_by : String → Content → Approval → String → Option Bool
  unfolding sign compare_digest or_empty
  signed_by plan_hash content approval approver =
      if content.sign_approvals
      then (if sign plan_hash approver == ""
          then some false
          else compare_digest (sign plan_hash approver) (or_empty approval.signature))
      else some true

  -- The loop of `valid_approvers`; `none` is the TypeError of a signature.
  unfoldable pub count_approvals :
      String → Content → List String → List Approval → Option (List String)
  unfolding signed_by or_empty
  count_approvals plan_hash content counted [] = some counted
  count_approvals plan_hash content counted (approval ∷ approvals) =
      let approver = or_empty approval.by in
      let skip = count_approvals plan_hash content counted approvals in
      let count = count_approvals plan_hash content (counted ++ approver ∷ []) approvals in
      if approver == "" || approver == content.author || elem approver counted
      then skip
      else elim (signed_by plan_hash content approval approver) [
        | none ↦ none
        | some false ↦ skip
        | some true ↦ count
      ]

  unfoldable pub valid_approvers : Plan → Option (List String)
  unfolding count_approvals
  valid_approvers plan = count_approvals plan.plan_id plan.content [] plan.approvals

  abbrev pub new_approval : Plan → String → String → String → Approval
  new_approval plan approver at comment = record {
    by = some approver;
    at = some at;
    comment = some comment;
    signature = some (sign plan.plan_id approver);
  }

  -- The plan with the approval at the end.
  abbrev pub with_approval : Plan → String → String → String → Plan
  with_approval plan approver at comment = record plan {
    approvals = plan.approvals ++ new_approval plan approver at comment ∷ [];
  }

  abbrev pub approve_details : Plan → String → String → Entry
  approve_details plan approver comment =
      ("plan_id", string plan.plan_id)
      ∷ ("environment", string plan.content.environment)
      ∷ ("target", string plan.content.target)
      ∷ ("comment", string comment)
      ∷ ("signed", json_bool (not (sign plan.plan_id approver == "")))
      ∷ []

  module _ (sha256 : Entry → String) (str_value : Option Json → String) where
    -- The plan and the log afterwards; `at` and `logged_at` are the two readings of the clock.
    unfoldable pub approve_plan :
        Plan → String → String → String → String → List Entry → Outcome (Plan × List Entry)
    unfolding strip approved_by sign append_event
    approve_plan plan approver comment at logged_at log =
        let content = plan.content in
        if strip approver == ""
        then raised (release_error "an approver identity is required" [])
        else if approver == content.author
        then raised (release_error "the author of a plan cannot approve it" [])
        else if not content.deployable
        then raised (release_error "plan is not deployable" content.blockers)
        else elim (approved_by approver plan.approvals) [
          | none ↦ raised crashed
          | some true ↦
              raised (release_error (text (approver ∷ " has already approved this plan" ∷ [])) [])
          | some false ↦
              if content.sign_approvals && (approval_key == "")
              then raised (
                  release_error "this environment requires signed approvals; set PY2FW_APPROVAL_KEY"
                    [])
              else elim (append_event sha256 str_value log logged_at "approve" approver
                  (approve_details plan approver comment)) [
                    | none ↦ raised crashed
                    | some extended ↦ returned (with_approval plan approver at comment, extended)
                  ]
        ]
