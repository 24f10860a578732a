-- ===== src/Tasks/Lifecycle.antt =====
-- The life of a task: what a transition and a retry do.
use foundora_ai.Base.{
  ℕ, suc, ◌+◌, ◌≤◌, ◌<◌, ◌≡◌, ◌≢◌, ◌⊎◌, inl, inr, refl, sym, ap, subst, ◌∙◌, arith, String, true,
  false, Option, none, some, List, [], ◌∷◌, ◌++◌, ok, Result-cases, Option-cases, Bool-cases,
  ok-injective, External, Uuid, Datetime, find, put, ◌==◌, ◌&&◌, nat_eq, pure, leb, is_nil, eq_self,
  number, find-append_last, find-put_scoped, string_eq,
}
use foundora_ai.Business.{AuthContext, Business, resolve_selected_business}
use foundora_ai.Events.Contracts.{EventConsumer}
use foundora_ai.Tasks.Model.{
  Task, TaskStatus, TaskEvent, queued, failed, Workspace, status_of_text, may_become, is_gated,
}
use foundora_ai.Tasks.Service.{
  selected_business, find_task, add_event, blockers_among, ensure_dependencies_complete,
  ensure_transition, check_gate, publish, publish_outcome, announce, moved, move, transition,
  retried, retry_task, write_retry, is_failed, json_text, is_retry_of, retry,
}

nil_is : (xs : List Uuid) → is_nil xs ≡ true → xs ≡ []
nil_is [] e = refl
nil_is (y ∷ ys) e = absurd (ground arith)

publish_outcome-keeps :
    (ext : External) (consumers : List EventConsumer) (business_id : Uuid) (t : Task)
    (status : TaskStatus) (error : Option String) (at : Datetime) (s s' : Workspace)
    → publish_outcome ext consumers business_id t status error at s ≡ ok (tt, s')
    → s'.tasks ≡ s.tasks
unfolding publish_outcome publish
publish_outcome-keeps ext consumers business_id t status error at s s' h = ground arith

announced :
    (ext : External) (consumers : List EventConsumer) (business_id : Uuid) (t : Task)
    (status : TaskStatus) (error : Option String) (at : Datetime) (s s' : Workspace) (x : Task)
    → announce ext consumers business_id t status error at s ≡ ok (x, s')
    → (x ≡ moved t status error at) × (s'.tasks ≡ s.tasks)
unfolding announce
announced ext consumers business_id t status error at s s' x h =
    elim (Result-cases (publish_outcome ext consumers business_id t status error at s)) [
      | inr (e, bad) ↦ absurd (ground arith)
      | inl ((u, s1), good) ↦
          let keeps = publish_outcome-keeps ext consumers business_id t status error at s s1 good in
          let (result, state) =
            ok-injective (pure (moved t status error at) s1) refl (rw good at h) in
          (sym result, ap (λ (w : Workspace). w.tasks) (sym state) ∙ keeps)
    ]

-- What a run of the checked part of `transition` writes.
record Moved (t : Task) (status : TaskStatus) (s s' : Workspace) (x : Task) : Type 0 where
  status_is : x.status ≡ status
  same_id : x.id ≡ t.id
  written : s'.tasks ≡ put (λ y. y.id == t.id) x s.tasks

Moved-of_move :
    (ext : External) (consumers : List EventConsumer) (context : AuthContext) (business_id : Uuid)
    (t : Task) (status : TaskStatus) (error : Option String) (s s' : Workspace) (x : Task)
    → move ext consumers context business_id t status error s ≡ ok (x, s')
    → Moved t status s s' x
unfolding move add_event moved
Moved-of_move ext consumers context business_id t status error s s' x h =
    let (result, tasks) = announced ext consumers business_id t status error _ _ s' x h in
    record {
      status_is = ap (λ (y : Task). y.status) result;
      same_id = ap (λ (y : Task). y.id) result;
      written = tasks ∙ ap (λ y. put (λ z. z.id == t.id) y s.tasks) (sym result);
    }

unblocked :
    (s : Workspace) (status : TaskStatus) (task_id : Uuid) (s' : Workspace)
    → check_gate status task_id s ≡ ok (tt, s')
    → (s' ≡ s) × ((is_gated status ≡ false) ⊎ (blockers_among s.tasks task_id s.dependencies ≡ []))
unfolding check_gate ensure_dependencies_complete
unblocked s status task_id s' h = elim (Bool-cases (is_gated status)) [
  | inr f ↦ ground arith
  | inl g ↦ elim (Bool-cases (is_nil (blockers_among s.tasks task_id s.dependencies))) [
    | inl n ↦
        let (result, state) = ok-injective (pure tt s) refl (rw (g, n) at h) in
        (sym state, inr (nil_is _ n))
    | inr n ↦ absurd (ground arith)
  ]
]

-- A transition that succeeds ends in the requested status, which the table allows after the task's
-- own; a task that is queued or run waits for no dependency; and the task's row alone is written to
-- the table of tasks.
pub transition_allowed :
    (ext : External) (consumers : List EventConsumer) (context : AuthContext) (task_id : Uuid)
    (requested : String) (error : Option String) (s s' : Workspace) (b : Business) (t x : Task)
    → resolve_selected_business s.directory context ≡ some b
    → find (λ y. y.id == task_id && y.business_id == b.id) s.tasks ≡ some t
    → transition ext consumers context task_id requested error s ≡ ok (x, s')
    → (status_of_text requested ≡ some x.status)
      × (may_become t.status x.status ≡ true)
      × ((is_gated x.status ≡ false) ⊎ (blockers_among s.tasks t.id s.dependencies ≡ []))
      × (s'.tasks ≡ put (λ y. y.id == t.id) x s.tasks)
unfolding transition selected_business find_task ensure_transition
transition_allowed ext consumers context task_id requested error s s' b t x known found h =
    elim (Option-cases (status_of_text requested)) [
      | inl unknown ↦ absurd (ground arith)
      | inr (status, named) ↦ elim (Bool-cases (may_become t.status status)) [
        | inr refused ↦ absurd (ground arith)
        | inl allowed ↦ elim (Result-cases (check_gate status t.id s)) [
          | inr (e, bad) ↦ absurd (ground arith)
          | inl ((u, s1), good) ↦
              let (same, free) = unblocked s status t.id s1 good in
              let m : Moved t status s s' x =
                Moved-of_move ext consumers context b.id t status error s s' x
                  (rw same at (rw (known, found, named, allowed, good) at h)) in
              (
                named ∙ ap some (sym m.status_is),
                ap (may_become t.status) m.status_is ∙ allowed,
                subst
                    (λ k. (is_gated k ≡ false) ⊎ (blockers_among s.tasks t.id s.dependencies ≡ []))
                    (sym m.status_is) free,
                m.written,
              )
        ]
      ]
    ]

-- What a new retry finds and writes.
record Retried (t : Task) (key : String) (s s' : Workspace) (x : Task) : Type 0 where
  was_failed : t.status ≡ failed
  had_retry : t.retry_count < t.max_retries
  unblocked_by : blockers_among s.tasks t.id s.dependencies ≡ []
  at : Datetime
  result : x ≡ retried t at
  tasks : s'.tasks ≡ put (λ y. y.id == t.id) (retried t at) s.tasks
  same_directory : s'.directory ≡ s.directory
  event : TaskEvent
  of_retry : is_retry_of t.id key event ≡ true
  events : s'.task_events ≡ s.task_events ++ event ∷ []

Retried-of_write :
    (context : AuthContext) (t : Task) (key : String) (s s' : Workspace) (x : Task)
    → t.status ≡ failed
    → t.retry_count < t.max_retries
    → blockers_among s.tasks t.id s.dependencies ≡ []
    → write_retry context t key s ≡ ok (x, s')
    → Retried t key s s' x
unfolding write_retry add_event retried
Retried-of_write context t key s s' x was_failed had_retry free h =
    let (result, state) = ok-injective (write_retry context t key s) refl h in
    record {
      was_failed = was_failed;
      had_retry = had_retry;
      unblocked_by = free;
      at = s.clock s.ticks;
      result = sym result;
      tasks = ap (λ (w : Workspace). w.tasks) (sym state);
      same_directory = ap (λ (w : Workspace). w.directory) (sym state);
      event = record {
        id = s.outbox.next_uuid;
        task_id = t.id;
        event_type = "retried";
        from_status = some failed;
        to_status = some queued;
        actor_owner_id = context.owner_id;
        idempotency_key = some key;
        details =
            ("retry_count", number (t.retry_count + 1))
            ∷ ("previous_error", json_text t.last_error)
            ∷ [];
        created_at = s.clock (suc s.ticks);
      };
      of_retry = rw (eq_self t.id) (eq_self key);
      events = ap (λ (w : Workspace). w.task_events) (sym state);
    }

Retried-of_task :
    (context : AuthContext) (t : Task) (key : String) (s s' : Workspace) (x : Task)
    → retry_task context t key s ≡ ok (x, s')
    → Retried t key s s' x
unfolding retry_task ensure_dependencies_complete
Retried-of_task context t key s s' x h = elim (Bool-cases (is_failed t.status)) [
  | inr alive ↦ absurd (ground arith)
  | inl dead ↦ elim (Bool-cases (leb t.max_retries t.retry_count)) [
    | inl used ↦ absurd (ground arith)
    | inr left ↦ elim (Bool-cases (is_nil (blockers_among s.tasks t.id s.dependencies))) [
      | inr waits ↦ absurd (ground arith)
      | inl free ↦
          Retried-of_write context t key s s' x (failed_is t.status dead)
            (below t.retry_count t.max_retries left)
            (nil_is (blockers_among s.tasks t.id s.dependencies) free) (rw (dead, left, free) at h)
    ]
  ]
]
  where
    failed_is : (k : TaskStatus) → is_failed k ≡ true → k ≡ failed
    failed_is failed e = refl
    failed_is _ e = absurd (ground arith)

    below : (a b : ℕ) → leb b a ≡ false → a < b
    below a b e = ground arith

retry_known :
    (context : AuthContext) (task_id : Uuid) (key : String) (s : Workspace) (b : Business)
    (x : Task)
    → resolve_selected_business s.directory context ≡ some b
    → find (λ y. y.id == task_id && y.business_id == b.id) s.tasks ≡ some x
    → find (is_retry_of x.id key) s.task_events ≢ none
    → retry context task_id key s ≡ ok (x, s)
unfolding retry selected_business find_task
retry_known context task_id key s b x known found again =
    elim (Option-cases (find (is_retry_of x.id key) s.task_events)) [
      | inl none_yet ↦ absurd (again none_yet)
      | inr (e, there) ↦ rw (known, found, there) refl
    ]

retried-found :
    (task_id business_id : Uuid) (t : Task) (at : Datetime) (tasks : List Task)
    → find (λ y. y.id == task_id && y.business_id == business_id) tasks ≡ some t
    → find
        (λ y. y.id == task_id && y.business_id == business_id)
        (put (λ y. y.id == t.id) (retried t at) tasks)
      ≡ some (retried t at)
unfolding retried
retried-found task_id business_id t at tasks found =
    find-put_scoped (λ (y : Task). y.id) (λ (y : Task). y.business_id) task_id business_id
      (retried t at) tasks t refl refl found

-- A retry under a key that no earlier retry of the task has succeeds for a failed task with retries
-- left and no dependency to wait for. It queues the task and counts the retry, within the maximum. The
-- same retry again, under the same key, returns the same task and writes nothing.
pub retry_counted :
    (context : AuthContext) (task_id : Uuid) (key : String) (s s' : Workspace) (b : Business)
    (t x : Task)
    → resolve_selected_business s.directory context ≡ some b
    → find (λ y. y.id == task_id && y.business_id == b.id) s.tasks ≡ some t
    → find (is_retry_of t.id key) s.task_events ≡ none
    → retry context task_id key s ≡ ok (x, s')
    → (t.status ≡ failed)
      × (x.status ≡ queued)
      × (x.retry_count ≡ t.retry_count + 1)
      × (x.retry_count ≤ x.max_retries)
      × (blockers_among s.tasks t.id s.dependencies ≡ [])
      × (retry context task_id key s' ≡ ok (x, s'))
unfolding retry selected_business find_task retried
retry_counted context task_id key s s' b t x known found new h =
    let r = Retried-of_task context t key s s' x (rw (known, found, new) at h) in
    (
      r.was_failed,
      ap (λ (y : Task). y.status) r.result,
      ap (λ (y : Task). y.retry_count) r.result,
      subst (λ (y : Task). y.retry_count ≤ y.max_retries) (sym r.result)
          (omega (arith, r.had_retry)),
      r.unblocked_by,
      retry_known context task_id key s' b x
          (ap (λ d. resolve_selected_business d context) r.same_directory ∙ known)
          (ap (find (λ y. y.id == task_id && y.business_id == b.id)) r.tasks
            ∙ retried-found task_id b.id t r.at s.tasks found
            ∙ ap some (sym r.result))
          (subst (λ (y : Task). find (is_retry_of y.id key) s'.task_events ≢ none) (sym r.result)
            (subst (λ es. find (is_retry_of t.id key) es ≢ none) (sym r.events)
              (find-append_last (is_retry_of t.id key) s.task_events r.event r.of_retry))),
    )
