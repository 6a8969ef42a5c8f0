-- ===== src/Release/Approvals/Approving.antt =====
-- What an approval adds to the quorum: py2fw/release/plan.py.
use package.text.Mathlib.TextEquality.{eq_iff}
use py2fw.Common.{
  String, ◌≡◌, refl, ap, ◌∙◌, inl, inr, true, false, ◌&&◌, Option, some, List, [], ◌∷◌, ◌++◌, text,
  arith, elem, ◌==◌, String_eq, Bool-cases, Option-cases,
}
use py2fw.Utils.Spaces.{strip}
use py2fw.Cli.Outcome.{returned}
use py2fw.Release.Audit.{Json, Entry, append_event}
use py2fw.Release.Content.{Content, Approval, Plan}
use py2fw.Release.Approvals.{
  approved_by, or_empty, sign, signed_by, count_approvals, valid_approvers, new_approval,
  with_approval, approve_details, approve_plan,
}
use py2fw.Release.Approvals.Digests.{is_ascii, compare_digest}
use py2fw.Release.Approvals.Quorum.{
  count_approvals-append, valid_approvers-entitled, approved_by-entitled,
}

-- The guards of approve_plan, as an approval has passed them.
abbrev pub MayApprove : String → Plan → String → Type 0
MayApprove approval_key plan approver =
    (strip approver == "" ≡ false)
    × (approver == plan.content.author ≡ false)
    × (plan.content.deployable ≡ true)
    × (approved_by approver plan.approvals ≡ some false)
    × ((plan.content.sign_approvals && (approval_key == "")) ≡ false)

-- What an HMAC is as a hexadecimal text.
abbrev pub IsHexDigest : (String → String → String) → Type 0
IsHexDigest hmac =
    (key message : String) → (hmac key message == "" ≡ false) × (is_ascii (hmac key message) ≡ true)

stripped_nonempty : (value : String) → strip value == "" ≡ false → value == "" ≡ false
unfolding strip
stripped_nonempty value h = elim (Bool-cases (value == "")) [
  | inl empty ↦
      let same : strip value ≡ "" = ap strip ((eq_iff value "").0 empty) in
      ground (arith, h, same, eq_iff (strip value) "")
  | inr e ↦ e
]

module _ (hmac : String → String → String) (approval_key : String) where
  module _ (sha256 : Entry → String) (str_value : Option Json → String) where
    pub approve_plan-MayApprove :
        (plan : Plan) (approver comment at logged_at : String) (log : List Entry) {next : Plan}
        {extended : List Entry}
        → approve_plan hmac approval_key sha256 str_value plan approver comment at logged_at log
          ≡ returned (next, extended)
        → MayApprove approval_key plan approver
          × (next ≡ with_approval hmac approval_key plan approver at comment)
          × (append_event sha256 str_value log logged_at "approve" approver
                (approve_details hmac approval_key plan approver comment)
              ≡ some extended)
    unfolding approve_plan
    approve_plan-MayApprove plan approver comment at logged_at log h =
        elim (Option-cases (approved_by approver plan.approvals)) [
          | inl e ↦ ground (arith, h, e)
          | inr (true, e) ↦ ground (arith, h, e)
          | inr (false, e) ↦
              elim (Option-cases (
                append_event sha256 str_value log logged_at "approve" approver
                  (approve_details hmac approval_key plan approver comment))) [
                    | inl f ↦ ground (arith, h, e, f)
                    | inr (more, f) ↦ ground (arith, h, e, f)
                  ]
        ]

  -- The due signature is accepted.
  signed_by-sign :
      IsHexDigest hmac
      → (plan_hash : String) (content : Content) (approval : Approval) (name : String)
      → approval.signature ≡ some (sign hmac approval_key plan_hash name)
      → (content.sign_approvals && (approval_key == "")) ≡ false
      → signed_by hmac approval_key plan_hash content approval name ≡ some true
  unfolding signed_by compare_digest or_empty sign
  signed_by-sign hex plan_hash content approval name e key =
      let (nonempty, ascii) = hex approval_key (text (plan_hash ∷ ":" ∷ name ∷ [])) in
      ground (
        arith,
        e,
        key,
        nonempty,
        ascii,
        eq_iff (sign hmac approval_key plan_hash name) (sign hmac approval_key plan_hash name),
      )

  module _ (sha256 : Entry → String) (str_value : Option Json → String) where
    -- When the HMAC is a hexadecimal text, each approval that approve_plan accepts makes the
    -- quorum grow by its approver: the plan that is returned has the same identity and content,
    -- and its approvers are those of the plan before with the new one at the end.
    pub approve_plan-valid_approvers :
        IsHexDigest hmac
        → (plan : Plan) (approver comment at logged_at : String) (log : List Entry) {next : Plan}
          {extended : List Entry} {counted : List String}
        → approve_plan hmac approval_key sha256 str_value plan approver comment at logged_at log
          ≡ returned (next, extended)
        → valid_approvers hmac approval_key plan ≡ some counted
        → (next.plan_id ≡ plan.plan_id)
          × (next.content ≡ plan.content)
          × (valid_approvers hmac approval_key next ≡ some (counted ++ approver ∷ []))
    unfolding valid_approvers count_approvals or_empty
    approve_plan-valid_approvers hex plan approver comment at logged_at log {next} {extended}
          {counted} h before =
        let ((unstripped, author, deployable, fresh, key), e, appended) =
          approve_plan-MayApprove sha256 str_value plan approver comment at logged_at log h in
        let approval = new_approval hmac approval_key plan approver at comment in
        let (_, known) = valid_approvers-entitled hmac approval_key plan counted before in
        let missing : elem approver counted ≡ false =
          known approver
          ∙ ground (
            arith,
            approved_by-entitled hmac approval_key plan.plan_id plan.content approver plan.approvals
                fresh,
          ) in
        let signed = signed_by-sign hex plan.plan_id plan.content approval approver refl key in
        let last : count_approvals hmac approval_key plan.plan_id plan.content counted
              (approval ∷ [])
            ≡ some (counted ++ approver ∷ []) =
          ground (arith, missing, author, signed, stripped_nonempty approver unstripped) in
        (
          ap (λ p. p.plan_id) e,
          ap (λ p. p.content) e,
          ap (valid_approvers hmac approval_key) e
              ∙ count_approvals-append hmac approval_key plan.plan_id plan.content [] plan.approvals
                  (approval ∷ []) before
              ∙ last,
        )
