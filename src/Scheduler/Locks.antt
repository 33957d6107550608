-- ===== src/Scheduler/Locks.antt =====
-- scheduler/locks.rs: the lock that a task needs on its directory
use opendaemon.Prelude.{
  String, Bool, true, false, List, Option, any, if◌then◌else◌, ◌≡◌, ◌↔◌, ◌⊎◌, arith,
}
use opendaemon.Security.{
  DirectoryCapability, read, write, shell, git, DirectoryLockPolicy, is_no_lock,
}
use opendaemon.Task.Model.{Task}

pub data LockMode : Type 0 where
  exclusive shared none : LockMode

abbrev pub is_exclusive : LockMode → Bool
is_exclusive exclusive = true
is_exclusive _ = false

-- the `status` column of a lock
pub data LockStatus : Type 0 where
  held released : LockStatus

abbrev pub is_held : LockStatus → Bool
is_held held = true
is_held released = false

pub record DirectoryLock : Type 0 where
  pub directory_id : String
  pub task_id : String
  pub mode : LockMode
  pub status : LockStatus
  pub created_at : String
  pub released_at : Option String

pub record LockRequest : Type 0 where
  pub directory_id : String
  pub task_id : String
  pub mode : LockMode

pub data LockDecision : Type 0 where
  acquired waiting not_required : LockDecision

abbrev pub changes_files : DirectoryCapability → Bool
changes_files write = true
changes_files shell = true
changes_files git = true
changes_files read = false

abbrev mode_of_policy : DirectoryLockPolicy → LockMode
mode_of_policy DirectoryLockPolicy.exclusive = LockMode.exclusive
mode_of_policy DirectoryLockPolicy.shared = LockMode.shared
mode_of_policy DirectoryLockPolicy.none = LockMode.none

unfoldable pub mode_for_capabilities : List DirectoryCapability → DirectoryLockPolicy → LockMode
mode_for_capabilities capabilities policy =
    if is_no_lock policy
    then LockMode.none
    else if any changes_files capabilities
    then LockMode.exclusive
    else mode_of_policy policy

-- `LockRequest::from_task`
unfoldable pub from_task : Task → LockRequest
unfolding mode_for_capabilities
from_task task = record {
  directory_id = task.directory_id;
  task_id = task.id;
  mode = mode_for_capabilities task.required_capabilities DirectoryLockPolicy.exclusive;
}

-- Under any policy but `none`, a task that may change files gets an exclusive lock; under
-- `none`, and only there, it gets no lock.
pub mode_for_capabilities_safe :
    (capabilities : List DirectoryCapability) (policy : DirectoryLockPolicy)
    → ((mode_for_capabilities capabilities policy ≡ LockMode.none)
        ↔ (policy ≡ DirectoryLockPolicy.none))
      × ((any changes_files capabilities ≡ false)
          ⊎ (policy ≡ DirectoryLockPolicy.none)
          ⊎ (mode_for_capabilities capabilities policy ≡ LockMode.exclusive))
unfolding mode_for_capabilities
mode_for_capabilities_safe capabilities policy =
    ((λ h. ground arith, λ h. ground arith), ground arith)
