-- ===== src/Memory/Session.antt =====
-- The parts that the operations of memory/service.py share.
use foundora_ai.Base.{
  suc, List, Tx, Result, ok, err, or_raise, ◌>>=◌, ◌>>◌, pure, gets, modify, ◌==◌, nat_eq,
  string_eq, put, Uuid, Datetime,
}
use foundora_ai.Business.{Business, AuthContext, resolve_selected_business}
use foundora_ai.Events.Contracts.{EventConsumer}
use foundora_ai.Events.Publish.{Request, publish_event}
use foundora_ai.Memory.Model.{
  MemoryStore, MemoryError, MemoryProposal, MemoryRecord, no_selected_business, unpublished,
}
use foundora_ai.Memory.Text.{Libraries}

abbrev pub Work : Type 0 → Type 0
Work A = Tx MemoryError MemoryStore A

-- `_now`
abbrev pub now : Work Datetime
now s = ok (s.clock s.ticks, record s { ticks = suc s.ticks })

-- `uuid.uuid4()`
abbrev pub new_uuid : Work Uuid
new_uuid s =
    let o = s.outbox in
    ok (o.next_uuid, record s { outbox = record o { next_uuid = suc o.next_uuid } })

-- A check that reads no table, in an operation.
abbrev pub lift : {A : Type 0} → Result MemoryError A → Work A
lift (ok a) s = ok (a, s)
lift (err e) s = err e

unfoldable pub selected_business : AuthContext → Work Business
selected_business context = do
  directory ← gets (λ s. s.directory)
  or_raise no_selected_business (resolve_selected_business directory context)

abbrev pub write_proposal : MemoryProposal → Work (Unit {0})
write_proposal p = modify (λ s. record s { proposals = put (λ x. x.id == p.id) p s.proposals })

abbrev pub write_record : MemoryRecord → Work (Unit {0})
write_record r = modify (λ s. record s { records = put (λ x. x.id == r.id) r s.records })

-- `publish_event` in the session, with its own reading of the clock.
unfoldable pub publish : Libraries → List EventConsumer → Request → Work (Unit {0})
publish lib consumers r = do
  at ← now
  λ s. elim (publish_event lib.external consumers r at s.outbox) [
    | err e ↦ err (unpublished e)
    | ok (event, o) ↦ ok (tt, record s { outbox = o })
  ]

-- The end of an operation that publishes and returns a row.
unfoldable pub announce : {A : Type 0} → Libraries → List EventConsumer → Request → A → Work A
announce lib consumers r a = do publish lib consumers r; pure a
