-- ===== src/Release/Approvals/Reachable.antt =====
-- A quorum can be reached: py2fw/release/plan.py.
use package.text.Mathlib.TextEquality.{eq_iff}
use py2fw.Common.{
  String, ◌≡◌, refl, sym, ap, ◌∙◌, inl, inr, true, false, Option, some, List, [], ◌∷◌, ◌++◌, All,
  arith, elem, has, ◌==◌, String_eq, Option-cases,
}
use mathlib.Core.List.{append-nil, append_assoc}
use py2fw.Cli.Outcome.{Outcome, returned, ◌>>=◌}
use py2fw.Release.Audit.{Json, Entry, append_event, verified, verify_log, read}
use py2fw.Release.Audit.Appending.{append_event-verified}
use py2fw.Release.Content.{Approval, Plan}
use py2fw.Release.Approvals.{
  approved_by, valid_approvers, new_approval, with_approval, approve_details, approve_plan,
}
use py2fw.Release.Approvals.Quorum.{distinct}
use py2fw.Release.Approvals.Approving.{MayApprove, IsHexDigest, approve_plan-valid_approvers}

approved_by-append :
    (name : String) (approvals : List Approval) (approval : Approval) (by : String)
    → approved_by name approvals ≡ some false
    → approval.by ≡ some by
    → (by == name) ≡ false
    → approved_by name (approvals ++ approval ∷ []) ≡ some false
unfolding approved_by
approved_by-append name [] approval by h e differ = ground (arith, e, differ)
approved_by-append name (first ∷ approvals) approval by h e differ = elim (Option-cases first.by) [
  | inl f ↦ ground (arith, h, f)
  | inr (other, f) ↦
      ground
        (arith, h, f, approved_by-append name approvals approval by (ground (arith, h, f)) e differ)
]

module _ (hmac : String → String → String) (approval_key : String) where
  candidates_left :
      (plan : Plan) (approver at comment : String) (names : List String)
      → elem approver names ≡ false
      → All (MayApprove approval_key plan) names
      → All
          (MayApprove approval_key (with_approval hmac approval_key plan approver at comment))
          names
  candidates_left plan approver at comment [] fresh all = tt
  candidates_left plan approver at comment (name ∷ names) fresh ((u, a, d, f, k), rest) = (
    (
      u,
      a,
      d,
      approved_by-append name plan.approvals
          (new_approval hmac approval_key plan approver at comment) approver f refl
          (ground (arith, fresh, eq_iff approver name, eq_iff name approver)),
      k,
    ),
    candidates_left plan approver at comment names (ground (arith, fresh)) rest,
  )

  module _ (sha256 : Entry → String) (str_value : Option Json → String) where
    approve_plan_returns :
        (plan : Plan) (approver comment at logged_at : String) (log : List Entry)
        {extended : List Entry}
        → MayApprove approval_key plan approver
        → append_event sha256 str_value log logged_at "approve" approver
            (approve_details hmac approval_key plan approver comment)
          ≡ some extended
        → approve_plan hmac approval_key sha256 str_value plan approver comment at logged_at log
          ≡ returned (with_approval hmac approval_key plan approver at comment, extended)
    unfolding approve_plan
    approve_plan_returns plan approver comment at logged_at log (u, a, d, f, k) e =
        ground (arith, u, a, d, f, k, e)

    -- One approval after the other, at the same time and with the same comment.
    unfoldable pub approve_all :
        List String → String → String → String → Plan → List Entry → Outcome (Plan × List Entry)
    unfolding approve_plan
    approve_all [] comment at logged_at plan log = returned (plan, log)
    approve_all (name ∷ names) comment at logged_at plan log =
        approve_plan hmac approval_key sha256 str_value plan name comment at logged_at log
        >>= λ (next, extended). approve_all names comment at logged_at next extended

    -- When the HMAC is a hexadecimal text and the log is intact, any distinct people who may each
    -- approve a plan as it is can approve it one after the other: no call fails, the log stays
    -- intact, and all of them count toward the quorum behind those who counted before.
    pub approve_all-valid_approvers :
        IsHexDigest hmac
        → (names : List String) (comment at logged_at : String) (plan : Plan) (log : List Entry)
          (counted : List String)
        → distinct names ≡ true
        → All (MayApprove approval_key plan) names
        → verified (verify_log sha256 str_value (read log)) ≡ true
        → valid_approvers hmac approval_key plan ≡ some counted
        → (next : Plan) × (extended : List Entry) × (approve_all names comment at logged_at plan log
            ≡ returned (next, extended))
          × (verified (verify_log sha256 str_value (read extended)) ≡ true)
          × (valid_approvers hmac approval_key next ≡ some (counted ++ names))
    unfolding approve_all has
    approve_all-valid_approvers hex [] comment at logged_at plan log counted d all v c =
        (plan, log, refl, v, c ∙ ap some (sym (append-nil counted)))
    approve_all-valid_approvers hex (name ∷ names) comment at logged_at plan log counted d
          (first, all) v c =
        let (entry, e, v₁) =
          append_event-verified sha256 str_value log logged_at "approve" name
            (approve_details hmac approval_key plan name comment) refl v in
        let step = approve_plan_returns plan name comment at logged_at log first e in
        let (_, _, c₁) =
          approve_plan-valid_approvers hmac approval_key sha256 str_value hex plan name comment at
            logged_at log step c in
        let (next, extended, s, v₂, c₂) =
          approve_all-valid_approvers hex names comment at logged_at
            (with_approval hmac approval_key plan name at comment) (log ++ entry ∷ [])
            (counted ++ name ∷ []) (ground (arith, d))
            (candidates_left plan name at comment names (ground (arith, d)) all) v₁ c₁ in
        (next, extended, rw step s, v₂, c₂ ∙ ap some (append_assoc counted (name ∷ []) names))
