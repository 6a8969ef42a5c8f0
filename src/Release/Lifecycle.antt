-- ===== src/Release/Lifecycle.antt =====
-- The life of a plan, from create_plan over approvals and reloads: py2fw/release/plan.py.
use package.text.Mathlib.TextEquality.{eq_iff}
use py2fw.Common.{
  String, ◌≡◌, refl, sym, ap, ◌∙◌, inl, inr, Bool-cases, Bool, true, false, Option, some, List, [],
  ◌∷◌, ◌++◌, arith, elem, get, ◌==◌, String_eq,
}
use py2fw.Cli.World.{World, Files}
use py2fw.Cli.Outcome.{returned, crashed, or_raise, >>=-returned}
use py2fw.Release.Audit.{Json, Entry, append_event}
use py2fw.Release.Content.{Content, Plan, plan_format, saved}
use py2fw.Release.Approvals.{valid_approvers, approve_plan}
use py2fw.Release.Approvals.Quorum.{distinct, valid_approvers-entitled}
use py2fw.Release.Approvals.Approving.{IsHexDigest, approve_plan-valid_approvers}
use py2fw.Release.Plan.{
  StatePaths, new_plan, plan_content, plan_details, check_and_render, policy_changes_of,
  create_plan, load_plan,
}

module _ (hash_content : Content → String) where
  -- A plan whose identity is the hash of its content is loaded as it was saved.
  load_plan-saved :
      (plan : Plan)
      → plan.plan_id ≡ hash_content plan.content
      → load_plan hash_content (some (saved plan)) ≡ returned plan
  unfolding load_plan
  load_plan-saved plan sealed = ground (
    arith,
    sealed,
    eq_iff plan_format plan_format,
    eq_iff plan.plan_id (hash_content plan.content),
  )

  load_plan_sealed :
      (plan next : Plan)
      → load_plan hash_content (some (saved plan)) ≡ returned next
      → (next.plan_id ≡ hash_content next.content) × (next ≡ plan)
  unfolding load_plan
  load_plan_sealed plan next h = elim (Bool-cases (plan.plan_id == hash_content plan.content)) [
    | inl same ↦
        let sealed : plan.plan_id ≡ hash_content plan.content =
          (eq_iff plan.plan_id (hash_content plan.content)).0 same in
        let kept : next ≡ plan = ground (arith, h, load_plan-saved plan sealed) in
        (rw kept sealed, kept)
    | inr differ ↦ ground (arith, h, differ, eq_iff plan_format plan_format)
  ]

  module _ (world : World) (files : Files) (state : StatePaths)
      (unified_diff : String → String → String → String) (sha256 : Entry → String)
      (str_value : Option Json → String) where
    create_plan_new :
        (policy target author : String) (baseline environment fail_on : Option String)
        (allow_lossy native : Bool) (created_at logged_at : String) (log : List Entry) {plan : Plan}
        {extended : List Entry}
        → create_plan hash_content world files state unified_diff sha256 str_value policy target
            author baseline environment fail_on allow_lossy native created_at logged_at log
          ≡ returned (plan, extended)
        → (content : Content) × (plan ≡ new_plan hash_content content)
    unfolding create_plan
    create_plan_new policy target author baseline environment fail_on allow_lossy native created_at
          logged_at log h =
        let ((check, rendered), _, h₁) =
          >>=-returned
            (check_and_render world files policy target baseline environment fail_on native) _ h in
        let (contents, _, h₂) = >>=-returned (or_raise crashed (get policy files)) _ h₁ in
        let (changes, _, h₃) =
          >>=-returned
            (policy_changes_of world files (state.deployed_policy check.controls.environment target)
              check)
            _ h₂ in
        let content : Content =
          plan_content hash_content world files state unified_diff sha256 str_value check rendered
            changes (record { path = policy; sha256 = world.sha256 contents }) created_at author
            target fail_on allow_lossy native in
        let (extended, _, h₄) =
          >>=-returned
            (or_raise crashed (
              append_event sha256 str_value log logged_at "plan" author (
                plan_details hash_content world files state unified_diff sha256 str_value
                  (new_plan hash_content content))))
            _ h₃ in
        (content, ground (arith, h₄))

    module _ (hmac : String → String → String) (approval_key : String) where
      -- The plans that come from create_plan by approvals and by saving and loading, with the names
      -- of those who approved, in their order.
      pub data Reached : Plan → List String → Type 0 where
        planned :
            (policy target author : String) (baseline environment fail_on : Option String)
            (allow_lossy native : Bool) (created_at logged_at : String) (log : List Entry)
            (plan : Plan) (extended : List Entry)
            → create_plan hash_content world files state unified_diff sha256 str_value policy target
                author baseline environment fail_on allow_lossy native created_at logged_at log
              ≡ returned (plan, extended)
            → Reached plan []
        approved :
            (plan : Plan) (names : List String) (approver comment at logged_at : String)
            (log : List Entry) (next : Plan) (extended : List Entry)
            → Reached plan names
            → approve_plan hmac approval_key sha256 str_value plan approver comment at logged_at log
              ≡ returned (next, extended)
            → Reached next (names ++ approver ∷ [])
        reloaded :
            (plan : Plan) (names : List String) (next : Plan)
            → Reached plan names
            → load_plan hash_content (some (saved plan)) ≡ returned next
            → Reached next names

      Reached_counts :
          IsHexDigest hmac
          → (plan : Plan) (names : List String) → Reached plan names
          → (plan.plan_id ≡ hash_content plan.content)
            × (valid_approvers hmac approval_key plan ≡ some names)
      unfolding valid_approvers
      Reached_counts hex plan names
            (planned policy target author baseline environment fail_on allow_lossy native created_at
              logged_at log _ extended h) =
          let (content, e) =
            create_plan_new policy target author baseline environment fail_on allow_lossy native
              created_at logged_at log h in
          rw e (refl, refl)
      Reached_counts hex _ _
            (approved plan names approver comment at logged_at log next extended before h) =
          let (sealed, counted) = Reached_counts hex plan names before in
          let (identity, content, more) =
            approve_plan-valid_approvers hmac approval_key sha256 str_value hex plan approver
              comment at logged_at log h counted in
          (identity ∙ (sealed ∙ ap hash_content (sym content)), more)
      Reached_counts hex _ names (reloaded plan _ next before h) =
          let (sealed, counted) = Reached_counts hex plan names before in
          let (_, kept) = load_plan_sealed plan next h in rw kept (sealed, counted)

      -- When the HMAC is a hexadecimal text, every plan that comes from create_plan by approvals
      -- and by saving and loading counts all who approved it, in their order; they are distinct,
      -- the author is not among them, and the plan, once saved, is loaded back as it is.
      pub Reached-valid_approvers :
          IsHexDigest hmac
          → (plan : Plan) (names : List String) → Reached plan names
          → (valid_approvers hmac approval_key plan ≡ some names)
            × (distinct names ≡ true)
            × (elem plan.content.author names ≡ false)
            × (load_plan hash_content (some (saved plan)) ≡ returned plan)
      Reached-valid_approvers hex plan names reached =
          let (sealed, counted) = Reached_counts hex plan names reached in
          let (once, known) = valid_approvers-entitled hmac approval_key plan names counted in
          (
            counted,
            once,
            known plan.content.author
                ∙ ground (arith, eq_iff plan.content.author plan.content.author),
            load_plan-saved plan sealed,
          )
