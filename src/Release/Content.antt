-- ===== src/Release/Content.antt =====
-- The plan of py2fw/release/plan.py as data: `content` as create_plan writes it, and `approvals`.
use py2fw.Common.{ℕ, String, Bool, Option, List, some, String_eq}
use py2fw.Verify.Regression.{FlowTestResult}
use py2fw.Verify.Config.{ConfigCheck}

-- A file and its hash, `{"path": ..., "sha256": ...}`.
pub record FileRef : Type 0 where
  pub path : String
  pub sha256 : String

-- `{"sha256": ..., "text": ...}`
pub record ConfigText : Type 0 where
  pub sha256 : String
  pub text : String

pub record WaivedItem : Type 0 where
  pub rule : Option String
  pub finding : String
  pub note : String

pub record GateSummary : Type 0 where
  pub passed : Bool
  pub fail_on : String
  pub violations : List String
  pub waived_items : List WaivedItem
  pub warnings : ℕ
  pub tests : List FlowTestResult

pub record Content : Type 0 where
  pub created_at : String
  pub author : String
  pub environment : String
  pub target : String
  pub policy : FileRef
  pub baseline : Option FileRef
  pub fail_on : Option String
  pub allow_lossy : Bool
  pub native_syntax : Bool
  pub required_approvals : ℕ
  pub sign_approvals : Bool
  pub gate : GateSummary
  pub verification : List ConfigCheck
  pub lossy : List String
  pub deployable : Bool
  pub blockers : List String
  pub policy_changes : List String
  pub config_diff : String
  pub config : ConfigText

-- An element of `plan["approvals"]`, each field as `approval.get` gives it.
pub record Approval : Type 0 where
  pub by : Option String
  pub at : Option String
  pub comment : Option String
  pub signature : Option String

pub record Plan : Type 0 where
  pub plan_id : String
  pub content : Content
  pub approvals : List Approval

-- A plan file as JSON: `plan.get` of each field.
pub record PlanFile : Type 0 where
  pub format : Option String
  pub plan_id : Option String
  pub content : Option Content
  pub approvals : List Approval

abbrev pub plan_format : String
plan_format = "py2fw-plan/1"

-- What save_plan writes.
abbrev pub saved : Plan → PlanFile
saved plan = record {
  format = some plan_format;
  plan_id = some plan.plan_id;
  content = some plan.content;
  approvals = plan.approvals;
}
