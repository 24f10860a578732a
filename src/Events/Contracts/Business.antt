-- ===== src/Events/Contracts/Business.antt =====
-- events/contracts.py: the contracts on businesses, goals, tasks, approvals, knowledge and memory.
use foundora_ai.Base.{[], ◌∷◌, type_is, max_length}
use foundora_ai.Events.Contracts.Schema.{
  EventContract, contract, schema, uuid_string, bounded_string, digest, integer_from, one_of,
}

unfoldable pub business_created : EventContract
business_created =
    contract "business.created" 1 "business" "A new owner business workspace was committed." (
      schema (("business_id", uuid_string) ∷ ("name", bounded_string 1 120) ∷ [])
        ("business_id" ∷ "name" ∷ []))

unfoldable pub goal_created : EventContract
goal_created = contract "goal.created" 1 "goal" "A selected-business goal was committed." (
    schema (("goal_id", uuid_string) ∷ ("title", bounded_string 1 200) ∷ [])
      ("goal_id" ∷ "title" ∷ []))

unfoldable pub task_completed : EventContract
task_completed = contract "task.completed" 1 "task" "A task entered its completed terminal state." (
    schema (("task_id", uuid_string) ∷ ("previous_status", bounded_string 1 24) ∷ [])
      ("task_id" ∷ "previous_status" ∷ []))

unfoldable pub task_failed : EventContract
task_failed = contract "task.failed" 1 "task" "A task entered its failed terminal state." (
    schema
      (("task_id", uuid_string)
        ∷ ("previous_status", bounded_string 1 24)
        ∷ ("error", type_is ("string" ∷ "null" ∷ []) ∷ max_length 500 ∷ [])
        ∷ [])
      ("task_id" ∷ "previous_status" ∷ "error" ∷ []))

unfoldable pub approval_requested : EventContract
approval_requested =
    contract "approval.requested" 1 "approval_request"
      "Governance committed a new owner approval request."
      (schema
        (("approval_request_id", uuid_string)
          ∷ ("action_id", uuid_string)
          ∷ ("action_type", bounded_string 1 120)
          ∷ ("risk_class", one_of ("R0" ∷ "R1" ∷ "R2" ∷ "R3" ∷ "R4" ∷ "R5" ∷ []))
          ∷ [])
        ("approval_request_id" ∷ "action_id" ∷ "action_type" ∷ "risk_class" ∷ []))

unfoldable pub knowledge_source_registered : EventContract
knowledge_source_registered =
    contract "knowledge.source_registered" 1 "knowledge_source"
      "A selected-business knowledge source was registered."
      (schema
        (("source_id", uuid_string)
          ∷ ("source_type", one_of ("upload" ∷ "reference" ∷ []))
          ∷ ("title", bounded_string 1 200)
          ∷ [])
        ("source_id" ∷ "source_type" ∷ "title" ∷ []))

unfoldable pub knowledge_document_indexed : EventContract
knowledge_document_indexed =
    contract "knowledge.document_indexed" 1 "knowledge_document"
      "An uploaded knowledge document was extracted, chunked, and indexed."
      (schema
        (("source_id", uuid_string)
          ∷ ("document_id", uuid_string)
          ∷ ("filename", bounded_string 1 255)
          ∷ ("content_sha256", digest)
          ∷ ("chunk_count", integer_from 1)
          ∷ [])
        ("source_id" ∷ "document_id" ∷ "filename" ∷ "content_sha256" ∷ "chunk_count" ∷ []))

unfoldable pub knowledge_source_invalidated : EventContract
knowledge_source_invalidated =
    contract "knowledge.source_invalidated" 1 "knowledge_source"
      "A source and its currently indexed documents were invalidated."
      (schema
        (("source_id", uuid_string)
          ∷ ("revision", integer_from 2)
          ∷ ("invalidated_document_count", integer_from 0)
          ∷ [])
        ("source_id" ∷ "revision" ∷ "invalidated_document_count" ∷ []))

unfoldable pub knowledge_document_invalidated : EventContract
knowledge_document_invalidated =
    contract "knowledge.document_invalidated" 1 "knowledge_document"
      "One indexed knowledge document was invalidated."
      (schema
        (("source_id", uuid_string)
          ∷ ("document_id", uuid_string)
          ∷ ("revision", integer_from 2)
          ∷ [])
        ("source_id" ∷ "document_id" ∷ "revision" ∷ []))

unfoldable pub memory_proposed : EventContract
memory_proposed =
    contract "memory.proposed" 1 "memory_proposal"
      "The curator committed a selected-business memory proposal."
      (schema
        (("proposal_id", uuid_string)
          ∷ (
            "memory_type",
            one_of (
                "working" ∷ "episodic" ∷ "semantic" ∷ "decision" ∷ "preference" ∷ "workflow"
                ∷ "evaluation" ∷ []),
          )
          ∷ (
            "epistemic_status",
            one_of (
                "observation" ∷ "assumption" ∷ "fact" ∷ "decision" ∷ "preference" ∷ "procedure"
                ∷ "evaluation" ∷ []),
          )
          ∷ ("acceptance_route", one_of ("founder" ∷ "automatic" ∷ []))
          ∷ [])
        ("proposal_id" ∷ "memory_type" ∷ "epistemic_status" ∷ "acceptance_route" ∷ []))

unfoldable pub memory_accepted : EventContract
memory_accepted =
    contract "memory.accepted" 1 "memory_record"
      "A curated proposal became durable selected-business memory."
      (schema
        (("proposal_id", uuid_string)
          ∷ ("memory_id", uuid_string)
          ∷ ("memory_type", bounded_string 1 24)
          ∷ ("epistemic_status", bounded_string 1 24)
          ∷ ("revision", integer_from 1)
          ∷ ("accepted_via", one_of ("founder" ∷ "automatic" ∷ []))
          ∷ [])
        ("proposal_id" ∷ "memory_id" ∷ "memory_type" ∷ "epistemic_status" ∷ "revision"
          ∷ "accepted_via" ∷ []))

unfoldable pub memory_merged : EventContract
memory_merged =
    contract "memory.merged" 1 "memory_record"
      "An accepted exact duplicate merged into revisioned memory provenance."
      (schema
        (("proposal_id", uuid_string)
          ∷ ("memory_id", uuid_string)
          ∷ ("memory_type", bounded_string 1 24)
          ∷ ("epistemic_status", bounded_string 1 24)
          ∷ ("revision", integer_from 2)
          ∷ ("accepted_via", one_of ("founder" ∷ "automatic" ∷ []))
          ∷ [])
        ("proposal_id" ∷ "memory_id" ∷ "memory_type" ∷ "epistemic_status" ∷ "revision"
          ∷ "accepted_via" ∷ []))

unfoldable pub memory_invalidated : EventContract
memory_invalidated =
    contract "memory.invalidated" 1 "memory_record"
      "A stale selected-business memory was explicitly invalidated."
      (schema
        (("memory_id", uuid_string)
          ∷ ("memory_type", bounded_string 1 24)
          ∷ ("revision", integer_from 2)
          ∷ [])
        ("memory_id" ∷ "memory_type" ∷ "revision" ∷ []))
