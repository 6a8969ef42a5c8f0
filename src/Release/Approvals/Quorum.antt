-- ===== src/Release/Approvals/Quorum.antt =====
-- Who counts toward the quorum: py2fw/release/plan.py.
use package.text.Mathlib.TextEquality.{eq_iff}
use py2fw.Common.{
  String, ◌≡◌, ◌∙◌, refl, ap, inl, inr, Bool, true, false, not, ◌&&◌, ◌||◌, some, List, [], ◌∷◌,
  ◌++◌, arith, any, any-append, elem, ◌==◌, String_eq, Bool-cases, Option-cases,
}
use py2fw.Release.Content.{Content, Approval, Plan}
use py2fw.Release.Approvals.{
  approved_by, or_empty, sign, signed_by, count_approvals, valid_approvers,
}
use py2fw.Release.Approvals.Digests.{compare_digest}

-- No name stands twice.
abbrev pub distinct : List String → Bool
distinct [] = true
distinct (x ∷ xs) = not (elem x xs) && distinct xs

pub distinct-append_one :
    (xs : List String) (y : String) → distinct (xs ++ y ∷ []) ≡ (distinct xs && not (elem y xs))
distinct-append_one [] y = refl
distinct-append_one (x ∷ xs) y =
    ground (
      arith,
      distinct-append_one xs y,
      any-append (λ z. z == x) xs (y ∷ []),
      eq_iff x y,
      eq_iff y x,
    )

compare_digest_equal : (a b : String) {c : Bool} → compare_digest a b ≡ some c → c ≡ (a == b)
unfolding compare_digest
compare_digest_equal a b h = ground (arith, h)

module _ (hmac : String → String → String) (approval_key : String) where
  -- An approval by this name, with the signature that is due where approvals have to be signed.
  abbrev pub vouches : String → Content → String → Approval → Bool
  vouches plan_hash content name approval =
      or_empty approval.by == name
      && (not content.sign_approvals
          || (not (sign hmac approval_key plan_hash name == "")
              && (sign hmac approval_key plan_hash name == or_empty approval.signature)))

  -- Who may count: somebody with a name, who is not the author and has an approval in the plan.
  abbrev pub entitled : String → Content → List Approval → String → Bool
  entitled plan_hash content approvals name =
      not (name == "")
      && (not (name == content.author) && any (vouches plan_hash content name) approvals)

  signed_by-vouches :
      (plan_hash : String) (content : Content) (approval : Approval) {c : Bool}
      → signed_by hmac approval_key plan_hash content approval (or_empty approval.by) ≡ some c
      → vouches plan_hash content (or_empty approval.by) approval ≡ c
  unfolding signed_by
  signed_by-vouches plan_hash content approval h = ground (
    arith,
    h,
    eq_iff (or_empty approval.by) (or_empty approval.by),
    compare_digest_equal (sign hmac approval_key plan_hash (or_empty approval.by))
        (or_empty approval.signature),
  )

  -- Whether an approver is passed over depends on the name only.
  skipped_as :
      (plan_hash : String) (content : Content) (counted : List String) (approver name : String)
      → (approver == name) ≡ true
      → (approver == "" || approver == content.author || elem approver counted)
        ≡ (name == "" || name == content.author || elem name counted)
  skipped_as plan_hash content counted approver name same =
      ap (λ z. z == "" || z == content.author || elem z counted) ((eq_iff approver name).0 same)

  count_approvals-entitled :
      (plan_hash : String) (content : Content) (counted : List String) (approvals : List Approval)
      {final : List String}
      → count_approvals hmac approval_key plan_hash content counted approvals ≡ some final
      → (name : String)
      → elem name final ≡ (elem name counted || entitled plan_hash content approvals name)
  unfolding count_approvals
  count_approvals-entitled plan_hash content counted [] h name = ground (arith, h)
  count_approvals-entitled plan_hash content counted (approval ∷ approvals) {final} h name =
      let approver = or_empty approval.by in
      let moved = skipped_as plan_hash content counted approver name in
      let kept : (approver == name) ≡ true
          → vouches plan_hash content approver approval ≡ vouches plan_hash content name approval =
        λ same. ap (λ z. vouches plan_hash content z approval) ((eq_iff approver name).0 same) in
      elim (Bool-cases (approver == "" || approver == content.author || elem approver counted)) [
        | inl skipped ↦
            count_approvals-entitled plan_hash content counted approvals {final = final}
              (ground (arith, h, skipped)) name
            ∙ ground (arith, skipped, moved)
        | inr fresh ↦
            elim (Option-cases (signed_by hmac approval_key plan_hash content approval approver)) [
              | inl none_signed ↦ ground (arith, h, fresh, none_signed)
              | inr (false, e) ↦ ground (
                arith,
                h,
                fresh,
                e,
                moved,
                kept,
                signed_by-vouches plan_hash content approval e,
                count_approvals-entitled plan_hash content counted approvals {final = final}
                    (ground (arith, h, fresh, e)) name,
              )
              | inr (true, e) ↦ ground (
                arith,
                h,
                fresh,
                e,
                moved,
                kept,
                signed_by-vouches plan_hash content approval e,
                any-append (λ z. z == name) counted (approver ∷ []),
                count_approvals-entitled plan_hash content (counted ++ approver ∷ []) approvals
                    {final = final} (ground (arith, h, fresh, e)) name,
              )
            ]
      ]

  -- The approvals are counted one after the other.
  pub count_approvals-append :
      (plan_hash : String) (content : Content) (counted : List String)
      (approvals more : List Approval) {between : List String}
      → count_approvals hmac approval_key plan_hash content counted approvals ≡ some between
      → count_approvals hmac approval_key plan_hash content counted (approvals ++ more)
        ≡ count_approvals hmac approval_key plan_hash content between more
  unfolding count_approvals
  count_approvals-append plan_hash content counted [] more h = ground (arith, h)
  count_approvals-append plan_hash content counted (approval ∷ approvals) more {between} h =
      let approver = or_empty approval.by in
      elim (Bool-cases (approver == "" || approver == content.author || elem approver counted)) [
        | inl skipped ↦ ground (
          arith,
          skipped,
          count_approvals-append plan_hash content counted approvals more {between = between}
              (ground (arith, h, skipped)),
        )
        | inr fresh ↦
            elim (Option-cases (signed_by hmac approval_key plan_hash content approval approver)) [
              | inl none_signed ↦ ground (arith, h, fresh, none_signed)
              | inr (false, e) ↦ ground (
                arith,
                fresh,
                e,
                count_approvals-append plan_hash content counted approvals more {between = between}
                    (ground (arith, h, fresh, e)),
              )
              | inr (true, e) ↦ ground (
                arith,
                fresh,
                e,
                count_approvals-append plan_hash content (counted ++ approver ∷ []) approvals more
                    {between = between} (ground (arith, h, fresh, e)),
              )
            ]
      ]

  count_approvals-distinct :
      (plan_hash : String) (content : Content) (counted : List String) (approvals : List Approval)
      → distinct counted ≡ true
      → {final : List String}
      → count_approvals hmac approval_key plan_hash content counted approvals ≡ some final
      → distinct final ≡ true
  unfolding count_approvals
  count_approvals-distinct plan_hash content counted [] d h = ground (arith, d, h)
  count_approvals-distinct plan_hash content counted (approval ∷ approvals) d {final} h =
      let approver = or_empty approval.by in
      elim (Bool-cases (approver == "" || approver == content.author || elem approver counted)) [
        | inl skipped ↦
            count_approvals-distinct plan_hash content counted approvals d {final = final}
              (ground (arith, h, skipped))
        | inr fresh ↦
            elim (Option-cases (signed_by hmac approval_key plan_hash content approval approver)) [
              | inl none_signed ↦ ground (arith, h, fresh, none_signed)
              | inr (false, e) ↦
                  count_approvals-distinct plan_hash content counted approvals d {final = final}
                    (ground (arith, h, fresh, e))
              | inr (true, e) ↦
                  count_approvals-distinct plan_hash content (counted ++ approver ∷ []) approvals
                    (ground (arith, d, fresh, distinct-append_one counted approver)) {final = final}
                    (ground (arith, h, fresh, e))
            ]
      ]

  -- When the approvals of a plan can be counted, the approvers that count are distinct, and they
  -- are just those who have a name, are not the author, and have an approval in the plan that
  -- carries the signature that is due where the environment wants signed approvals.
  pub valid_approvers-entitled :
      (plan : Plan) (counted : List String)
      → valid_approvers hmac approval_key plan ≡ some counted
      → (distinct counted ≡ true)
        × ((name : String)
            → elem name counted ≡ entitled plan.plan_id plan.content plan.approvals name)
  unfolding valid_approvers
  valid_approvers-entitled plan counted h = (
    count_approvals-distinct plan.plan_id plan.content [] plan.approvals refl h,
    λ name. count_approvals-entitled plan.plan_id plan.content [] plan.approvals h name,
  )

  -- Nobody has approved under the name.
  pub approved_by-entitled :
      (plan_hash : String) (content : Content) (name : String) (approvals : List Approval)
      → approved_by name approvals ≡ some false
      → any (vouches plan_hash content name) approvals ≡ false
  unfolding approved_by or_empty
  approved_by-entitled plan_hash content name [] h = refl
  approved_by-entitled plan_hash content name (approval ∷ approvals) h =
      elim (Option-cases approval.by) [
        | inl e ↦ ground (arith, h, e)
        | inr (by, e) ↦ ground (
          arith,
          h,
          e,
          approved_by-entitled plan_hash content name approvals (ground (arith, h, e)),
        )
      ]
