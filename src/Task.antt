-- ===== src/Task.antt =====
-- modules/executor/src/task/header.rs and the types of task/storage.rs: a task and its storage.
-- A `TaskRef` is the number of its task; the waker of a task (task/waker.rs) is its `TaskRef`.
pub mod State
use rt_async.Base.{ℕ, Bool, false, Option, none}

-- `poll_fn`: `TaskStorage::poll`, or the no-op that replaces it.
pub data PollFn : Type 0 where
  task_poll poll_exited : PollFn

-- `TaskInfo`, `JoinState` and the future cell of a `TaskStorage`. An executor is named by its
-- priority. `future` says whether the cell holds a future that is not dropped, and `cell` is what that
-- future keeps between its polls, 0 when it is new: only the future itself reads and writes it.
pub record Task (Out : Type 0) : Type 0 where
  pub state : ℕ
  pub executor_ptr : Option ℕ
  pub poll_fn : Option PollFn
  pub result : Option Out
  pub waker : Option ℕ
  pub future : Bool
  pub cell : ℕ

-- `TaskStorage::new`
unfoldable pub new_task : (Out : Type 0) → Task Out
new_task Out = record {
  state = 0;
  executor_ptr = none;
  poll_fn = none;
  result = none;
  waker = none;
  future = false;
  cell = 0;
}
