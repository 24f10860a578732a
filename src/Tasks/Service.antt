-- ===== src/Tasks/Service.antt =====
-- `TaskService` of tasks/service.py: the operations that write. Each returns the task; the record
-- that the source returns also lists the task's dependencies and events, which it reads afterwards.
mod Session
mod Create
mod Link
mod Transition
mod Retry
unfoldable pub use Session.*
unfoldable pub use Create.*
unfoldable pub use Link.*
unfoldable pub use Transition.*
unfoldable pub use Retry.*
