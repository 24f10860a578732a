-- ===== src/Events/Contracts/Website.antt =====
-- events/contracts.py: the contracts on approved proposals, websites and sandbox executions.
use foundora_ai.Base.{
  [], ◌∷◌, type_is, pattern_is, const, max_length, minimum, maximum, text, number,
}
use foundora_ai.Events.Contracts.Schema.{
  EventContract, contract, schema, uuid_string, digest, integer_from, one_of,
}

unfoldable pub strategy_approved : EventContract
strategy_approved =
    contract "strategy.approved" 1 "business_strategy"
      "A validated proposed strategy received explicit founder approval."
      (schema
        (("business_id", uuid_string)
          ∷ ("strategy_version", integer_from 1)
          ∷ ("source_agent_run_id", uuid_string)
          ∷ ("context_id", digest)
          ∷ [])
        ("business_id" ∷ "strategy_version" ∷ "source_agent_run_id" ∷ "context_id" ∷ []))

unfoldable pub product_offer_approved : EventContract
product_offer_approved =
    contract "product_offer.approved" 1 "product_offer_portfolio"
      "A validated product and offer proposal received explicit founder approval."
      (schema
        (("business_id", uuid_string)
          ∷ ("portfolio_id", uuid_string)
          ∷ ("portfolio_version", integer_from 1)
          ∷ ("source_agent_run_id", uuid_string)
          ∷ ("source_strategy_version", integer_from 1)
          ∷ ("context_id", digest)
          ∷ [])
        ("business_id" ∷ "portfolio_id" ∷ "portfolio_version" ∷ "source_agent_run_id"
          ∷ "source_strategy_version" ∷ "context_id" ∷ []))

unfoldable pub brand_approved : EventContract
brand_approved =
    contract "brand.approved" 1 "brand_system"
      "A validated brand-system proposal received explicit founder approval."
      (schema
        (("business_id", uuid_string)
          ∷ ("brand_system_id", uuid_string)
          ∷ ("brand_version", integer_from 1)
          ∷ ("source_agent_run_id", uuid_string)
          ∷ ("source_strategy_version", integer_from 1)
          ∷ ("source_product_offer_id", uuid_string)
          ∷ ("source_product_offer_version", integer_from 1)
          ∷ ("context_id", digest)
          ∷ [])
        ("business_id" ∷ "brand_system_id" ∷ "brand_version" ∷ "source_agent_run_id"
          ∷ "source_strategy_version" ∷ "source_product_offer_id" ∷ "source_product_offer_version"
          ∷ "context_id" ∷ []))

unfoldable pub website_specification_approved : EventContract
website_specification_approved =
    contract "website_specification.approved" 1 "website_specification"
      "A complete website specification received explicit founder approval."
      (schema
        (("business_id", uuid_string)
          ∷ ("website_specification_id", uuid_string)
          ∷ ("website_specification_version", integer_from 1)
          ∷ ("source_agent_run_id", uuid_string)
          ∷ ("source_strategy_version", integer_from 1)
          ∷ ("source_product_offer_id", uuid_string)
          ∷ ("source_product_offer_version", integer_from 1)
          ∷ ("source_brand_system_id", uuid_string)
          ∷ ("source_brand_version", integer_from 1)
          ∷ ("context_id", digest)
          ∷ [])
        ("business_id" ∷ "website_specification_id" ∷ "website_specification_version"
          ∷ "source_agent_run_id" ∷ "source_strategy_version" ∷ "source_product_offer_id"
          ∷ "source_product_offer_version" ∷ "source_brand_system_id" ∷ "source_brand_version"
          ∷ "context_id" ∷ []))

unfoldable pub website_project_built : EventContract
website_project_built =
    contract "website_project.built" 1 "website_project"
      "A controlled website source tree was materialized and every required check passed."
      (schema
        (("business_id", uuid_string)
          ∷ ("website_project_id", uuid_string)
          ∷ ("website_project_version", integer_from 1)
          ∷ ("operation", one_of ("generate" ∷ "modify" ∷ []))
          ∷ ("source_agent_run_id", uuid_string)
          ∷ ("source_website_specification_id", uuid_string)
          ∷ ("source_website_specification_version", integer_from 1)
          ∷ ("source_digest", digest)
          ∷ ("build_digest", digest)
          ∷ ("build_status", const (text "passed") ∷ [])
          ∷ ("check_status", const (text "passed") ∷ [])
          ∷ [])
        ("business_id" ∷ "website_project_id" ∷ "website_project_version" ∷ "operation"
          ∷ "source_agent_run_id" ∷ "source_website_specification_id"
          ∷ "source_website_specification_version" ∷ "source_digest" ∷ "build_digest"
          ∷ "build_status" ∷ "check_status" ∷ []))

unfoldable pub sandbox_execution_finished : EventContract
sandbox_execution_finished =
    contract "sandbox.execution.finished" 1 "sandbox_execution"
      "An isolated website execution reached a durable terminal outcome with terminal cleanup evidence."
      (schema
        (("business_id", uuid_string)
          ∷ ("sandbox_execution_id", uuid_string)
          ∷ ("website_project_id", uuid_string)
          ∷ ("website_project_version", integer_from 1)
          ∷ ("profile_id", const (text "static-website") ∷ [])
          ∷ ("profile_version", const (number 1) ∷ [])
          ∷ (
            "outcome",
            one_of (
                "succeeded" ∷ "failed" ∷ "cancelled" ∷ "timed_out" ∷ "resource_exhausted"
                ∷ "infrastructure_failed" ∷ "cleanup_failed" ∷ []),
          )
          ∷ ("termination_reason", type_is ("string" ∷ "null" ∷ []) ∷ max_length 120 ∷ [])
          ∷ ("duration_ms", type_is ("integer" ∷ "null" ∷ []) ∷ minimum 0 ∷ maximum 120000 ∷ [])
          ∷ (
            "runtime_image_id",
            type_is ("string" ∷ "null" ∷ []) ∷ pattern_is "^sha256:[a-f0-9]{64}$" ∷ [],
          )
          ∷ (
            "effective_limits_digest",
            type_is ("string" ∷ "null" ∷ []) ∷ pattern_is "^[a-f0-9]{64}$" ∷ [],
          )
          ∷ ("cleanup_status", one_of ("verified" ∷ "failed" ∷ []))
          ∷ ("cleanup_attempts", type_is ("integer" ∷ []) ∷ minimum 1 ∷ maximum 10 ∷ [])
          ∷ ("final_labeled_resource_count", integer_from 0)
          ∷ ("cleanup_receipt_digest", digest)
          ∷ ("governance_action_id", uuid_string)
          ∷ ("policy_version_id", uuid_string)
          ∷ ("request_digest", digest)
          ∷ ("worker_recovery_count", type_is ("integer" ∷ []) ∷ minimum 0 ∷ maximum 3 ∷ [])
          ∷ [])
        ("business_id" ∷ "sandbox_execution_id" ∷ "website_project_id" ∷ "website_project_version"
          ∷ "profile_id" ∷ "profile_version" ∷ "outcome" ∷ "termination_reason" ∷ "duration_ms"
          ∷ "runtime_image_id" ∷ "effective_limits_digest" ∷ "cleanup_status" ∷ "cleanup_attempts"
          ∷ "final_labeled_resource_count" ∷ "cleanup_receipt_digest" ∷ "governance_action_id"
          ∷ "policy_version_id" ∷ "request_digest" ∷ "worker_recovery_count" ∷ []))
