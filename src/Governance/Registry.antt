-- ===== src/Governance/Registry.antt =====
-- governance/registry.py: the risk classes, the code-reviewed catalogues and the classification of
-- an action. Risk classes that a caller names arrive as text and are looked up in `RISK_RANK`.
pub mod Classify
use foundora_ai.Base.Fallible.{◌>>=◌}
use foundora_ai.Base.{
  ℕ, String, Bool, true, Option, none, some, List, [], ◌∷◌, ◌++◌, Result, ok, err, ltb, ◌==◌,
  string_eq, if◌then◌else◌, find,
}

pub data RiskClass : Type 0 where
  r0 r1 r2 r3 r4 r5 : RiskClass

-- RISK_RANK
abbrev pub risk_rank : RiskClass → ℕ
risk_rank r0 = 0
risk_rank r1 = 1
risk_rank r2 = 2
risk_rank r3 = 3
risk_rank r4 = 4
risk_rank r5 = 5

abbrev pub risk_text : RiskClass → String
risk_text r0 = "R0"
risk_text r1 = "R1"
risk_text r2 = "R2"
risk_text r3 = "R3"
risk_text r4 = "R4"
risk_text r5 = "R5"

-- RISK_CLASSES
abbrev pub risk_classes : List RiskClass
risk_classes = r0 ∷ r1 ∷ r2 ∷ r3 ∷ r4 ∷ r5 ∷ []

-- The member of `RISK_RANK` that a text names.
unfoldable pub risk_of_text : String → Option RiskClass
risk_of_text name = find (λ r. risk_text r == name) risk_classes

pub record ActionDescriptor : Type 0 where
  pub action_type : String
  pub display_name : String
  pub risk_class : RiskClass
  pub description : String

pub record ToolDescriptor : Type 0 where
  pub tool_id : String
  pub display_name : String
  pub risk_class : RiskClass
  pub internal : Bool

abbrev action : String → String → RiskClass → String → ActionDescriptor
action t n r d = record { action_type = t; display_name = n; risk_class = r; description = d }

abbrev tool : String → String → RiskClass → Bool → ToolDescriptor
tool t n r i = record { tool_id = t; display_name = n; risk_class = r; internal = i }

unfoldable pub action_catalog : List ActionDescriptor
action_catalog =
    action "internal.analysis" "Internal analysis" r0 "Read-only internal analysis."
    ∷ action "internal.content.create" "Internal content creation" r1
        "Creates an internal draft without external publication."
    ∷ action "internal.code.execute" "Isolated code execution" r2
        "Executes approved generated code in the isolated sandbox runtime."
    ∷ action "external.reversible" "Reversible external action" r2
        "A reversible external change such as a preview."
    ∷ action "external.communication" "External communication" r3
        "Sends a message outside Foundora."
    ∷ action "external.publication" "Public publication" r3
        "Publishes content to a public audience."
    ∷ action "financial.spend" "Financial spend" r4 "Commits money or changes a paid resource."
    ∷ action "destructive.delete" "Destructive deletion" r4
        "Deletes durable business or customer data."
    ∷ action "privileged.configuration" "Privileged configuration" r4
        "Changes credentials, billing, security, or production configuration."
    ∷ action "security.bypass" "Security bypass" r5
        "Attempts to bypass a security or governance control."
    ∷ action "workflow.checkpoint" "Workflow owner checkpoint" r0
        "A workflow-defined manual owner checkpoint."
    ∷ []

unfoldable pub tool_catalog : List ToolDescriptor
tool_catalog =
    tool "foundora.internal.echo" "Internal echo" r0 true
    ∷ tool "foundora.internal.fail" "Internal deterministic failure" r0 true
    ∷ tool "foundora.internal.discard" "Internal discard" r0 true
    ∷ tool "foundora.repository.website" "Controlled website repository" r1 true
    ∷ tool "foundora.filesystem.website" "Controlled website filesystem" r1 true
    ∷ tool "foundora.dependencies.website" "Reviewed website dependencies" r1 true
    ∷ tool "foundora.checks.website" "Website build checks" r1 true
    ∷ tool "foundora.sandbox.website" "Isolated website sandbox" r2 true
    ∷ []

unfoldable pub find_action : String → Option ActionDescriptor
find_action name = find (λ d. d.action_type == name) action_catalog

unfoldable pub find_tool : String → Option ToolDescriptor
find_tool name = find (λ d. d.tool_id == name) tool_catalog

pub data ClassificationError : Type 0 where
  unknown_action unknown_tool invalid_minimum : ClassificationError

-- The risks that each optional part of the request adds to the list.
unfoldable pub tool_risks : Option String → Result ClassificationError (List RiskClass)
tool_risks none = ok []
tool_risks (some tool_id) = elim (find_tool tool_id) [
  | none ↦ err unknown_tool
  | some t ↦ ok (t.risk_class ∷ [])
]

unfoldable pub spend_risks : ℕ → List RiskClass
spend_risks requested = if ltb 0 requested then r4 ∷ [] else []

unfoldable pub minimum_risks : Option String → Result ClassificationError (List RiskClass)
minimum_risks none = ok []
minimum_risks (some name) = elim (risk_of_text name) [
  | none ↦ err invalid_minimum
  | some r ↦ ok (r ∷ [])
]

-- `max(risks, key=RISK_RANK.__getitem__)`: the first risk of the highest rank.
unfoldable pub better : RiskClass → RiskClass → RiskClass
better best r = if ltb (risk_rank best) (risk_rank r) then r else best

unfoldable pub highest : RiskClass → List RiskClass → RiskClass
unfolding better
highest best [] = best
highest best (r ∷ rs) = highest (better best r) rs

unfoldable pub classify_action :
    (action_type : String) (tool_id : Option String) (requested_spend : ℕ)
    (minimum_risk_class : Option String)
    → Result ClassificationError RiskClass
unfolding tool_risks spend_risks minimum_risks highest
classify_action action_type tool_id requested_spend minimum = elim (find_action action_type) [
  | none ↦ err unknown_action
  | some d ↦ do
    by_tool ← tool_risks tool_id
    by_minimum ← minimum_risks minimum
    ok (highest d.risk_class (by_tool ++ spend_risks requested_spend ++ by_minimum))
]
