-- ===== src/Authorization/Capabilities.antt =====
-- application/auth/capabilities.rs: the permissions, each with its published identifier, the scope in
-- which it is assigned and the kinds of resources on which it can be asked for; the resources are
-- those of application/auth.rs. Descriptions are left out, and a UUID is a number.
use Prim.Native.String.{String}
use text.Mathlib.Text.{◌==◌ as str_eq}
use crono.Prelude.{ℕ, Bool, Option, none, some, List, [], ◌∷◌, any, ◌==◌, if◌then◌else◌}

pub data PermissionScope : Type 0 where
  global namespace : PermissionScope

pub data ResourceScope : Type 0 where
  control_plane : ResourceScope
  namespace queue job target target_set schedule workflow workflow_run run : ℕ → ResourceScope

pub data ResourceKind : Type 0 where
  control_plane namespace queue job target target_set schedule workflow workflow_run run :
      ResourceKind

unfoldable pub kind : ResourceScope → ResourceKind
kind ResourceScope.control_plane = ResourceKind.control_plane
kind (ResourceScope.namespace id) = ResourceKind.namespace
kind (ResourceScope.queue id) = ResourceKind.queue
kind (ResourceScope.job id) = ResourceKind.job
kind (ResourceScope.target id) = ResourceKind.target
kind (ResourceScope.target_set id) = ResourceKind.target_set
kind (ResourceScope.schedule id) = ResourceKind.schedule
kind (ResourceScope.workflow id) = ResourceKind.workflow
kind (ResourceScope.workflow_run id) = ResourceKind.workflow_run
kind (ResourceScope.run id) = ResourceKind.run

-- the discriminant of a kind, by which `==` compares
abbrev kind_number : ResourceKind → ℕ
kind_number ResourceKind.control_plane = 0
kind_number ResourceKind.namespace = 1
kind_number ResourceKind.queue = 2
kind_number ResourceKind.job = 3
kind_number ResourceKind.target = 4
kind_number ResourceKind.target_set = 5
kind_number ResourceKind.schedule = 6
kind_number ResourceKind.workflow = 7
kind_number ResourceKind.workflow_run = 8
kind_number ResourceKind.run = 9

pub data Capability : Type 0 where
  namespace_create namespace_read namespace_delete queue_create queue_read : Capability
  queue_update queue_delete job_create job_read job_update : Capability
  job_execute target_create target_read target_update target_delete : Capability
  target_use target_set_create target_set_read target_set_update target_set_use : Capability
  schedule_create schedule_read schedule_update workflow_create workflow_read : Capability
  workflow_update workflow_delete workflow_execute workflow_run_read workflow_run_cancel :
      Capability
  run_create run_read worker_read monitor_read overview_read : Capability

abbrev pub all_capabilities : List Capability
all_capabilities =
    Capability.namespace_create ∷ Capability.namespace_read ∷ Capability.namespace_delete
    ∷ Capability.queue_create ∷ Capability.queue_read ∷ Capability.queue_update
    ∷ Capability.queue_delete ∷ Capability.job_create ∷ Capability.job_read ∷ Capability.job_update
    ∷ Capability.job_execute ∷ Capability.target_create ∷ Capability.target_read
    ∷ Capability.target_update ∷ Capability.target_delete ∷ Capability.target_use
    ∷ Capability.target_set_create ∷ Capability.target_set_read ∷ Capability.target_set_update
    ∷ Capability.target_set_use ∷ Capability.schedule_create ∷ Capability.schedule_read
    ∷ Capability.schedule_update ∷ Capability.workflow_create ∷ Capability.workflow_read
    ∷ Capability.workflow_update ∷ Capability.workflow_delete ∷ Capability.workflow_execute
    ∷ Capability.workflow_run_read ∷ Capability.workflow_run_cancel ∷ Capability.run_create
    ∷ Capability.run_read ∷ Capability.worker_read ∷ Capability.monitor_read
    ∷ Capability.overview_read ∷ []

-- the discriminant of a capability
abbrev pub number : Capability → ℕ
number Capability.namespace_create = 0
number Capability.namespace_read = 1
number Capability.namespace_delete = 2
number Capability.queue_create = 3
number Capability.queue_read = 4
number Capability.queue_update = 5
number Capability.queue_delete = 6
number Capability.job_create = 7
number Capability.job_read = 8
number Capability.job_update = 9
number Capability.job_execute = 10
number Capability.target_create = 11
number Capability.target_read = 12
number Capability.target_update = 13
number Capability.target_delete = 14
number Capability.target_use = 15
number Capability.target_set_create = 16
number Capability.target_set_read = 17
number Capability.target_set_update = 18
number Capability.target_set_use = 19
number Capability.schedule_create = 20
number Capability.schedule_read = 21
number Capability.schedule_update = 22
number Capability.workflow_create = 23
number Capability.workflow_read = 24
number Capability.workflow_update = 25
number Capability.workflow_delete = 26
number Capability.workflow_execute = 27
number Capability.workflow_run_read = 28
number Capability.workflow_run_cancel = 29
number Capability.run_create = 30
number Capability.run_read = 31
number Capability.worker_read = 32
number Capability.monitor_read = 33
number Capability.overview_read = 34

-- `==` of capabilities
abbrev pub same_capability : Capability → Capability → Bool
same_capability a b = number a == number b

unfoldable pub identifier : Capability → String
identifier Capability.namespace_create = "crono.namespace.create"
identifier Capability.namespace_read = "crono.namespace.read"
identifier Capability.namespace_delete = "crono.namespace.delete"
identifier Capability.queue_create = "crono.queue.create"
identifier Capability.queue_read = "crono.queue.read"
identifier Capability.queue_update = "crono.queue.update"
identifier Capability.queue_delete = "crono.queue.delete"
identifier Capability.job_create = "crono.job.create"
identifier Capability.job_read = "crono.job.read"
identifier Capability.job_update = "crono.job.update"
identifier Capability.job_execute = "crono.job.execute"
identifier Capability.target_create = "crono.target.create"
identifier Capability.target_read = "crono.target.read"
identifier Capability.target_update = "crono.target.update"
identifier Capability.target_delete = "crono.target.delete"
identifier Capability.target_use = "crono.target.use"
identifier Capability.target_set_create = "crono.target_set.create"
identifier Capability.target_set_read = "crono.target_set.read"
identifier Capability.target_set_update = "crono.target_set.update"
identifier Capability.target_set_use = "crono.target_set.use"
identifier Capability.schedule_create = "crono.schedule.create"
identifier Capability.schedule_read = "crono.schedule.read"
identifier Capability.schedule_update = "crono.schedule.update"
identifier Capability.workflow_create = "crono.workflow.create"
identifier Capability.workflow_read = "crono.workflow.read"
identifier Capability.workflow_update = "crono.workflow.update"
identifier Capability.workflow_delete = "crono.workflow.delete"
identifier Capability.workflow_execute = "crono.workflow.execute"
identifier Capability.workflow_run_read = "crono.workflow_run.read"
identifier Capability.workflow_run_cancel = "crono.workflow_run.cancel"
identifier Capability.run_create = "crono.run.create"
identifier Capability.run_read = "crono.run.read"
identifier Capability.worker_read = "crono.worker.read"
identifier Capability.monitor_read = "crono.monitor.read"
identifier Capability.overview_read = "crono.overview.read"

abbrev pub permission_scope : Capability → PermissionScope
permission_scope Capability.namespace_create = PermissionScope.global
permission_scope Capability.queue_create = PermissionScope.global
permission_scope Capability.queue_read = PermissionScope.global
permission_scope Capability.queue_update = PermissionScope.global
permission_scope Capability.queue_delete = PermissionScope.global
permission_scope Capability.worker_read = PermissionScope.global
permission_scope Capability.monitor_read = PermissionScope.global
permission_scope _ = PermissionScope.namespace

unfoldable pub resources : Capability → List ResourceKind
resources Capability.namespace_create = ResourceKind.control_plane ∷ []
resources Capability.namespace_read = ResourceKind.namespace ∷ []
resources Capability.namespace_delete = ResourceKind.namespace ∷ []
resources Capability.queue_create = ResourceKind.control_plane ∷ []
resources Capability.queue_read = ResourceKind.control_plane ∷ ResourceKind.queue ∷ []
resources Capability.queue_update = ResourceKind.queue ∷ []
resources Capability.queue_delete = ResourceKind.queue ∷ []
resources Capability.job_create = ResourceKind.namespace ∷ []
resources Capability.job_read = ResourceKind.namespace ∷ ResourceKind.job ∷ []
resources Capability.job_update = ResourceKind.job ∷ []
resources Capability.job_execute = ResourceKind.job ∷ []
resources Capability.target_create = ResourceKind.namespace ∷ []
resources Capability.target_read = ResourceKind.namespace ∷ ResourceKind.target ∷ []
resources Capability.target_update = ResourceKind.target ∷ []
resources Capability.target_delete = ResourceKind.target ∷ []
resources Capability.target_use = ResourceKind.target ∷ []
resources Capability.target_set_create = ResourceKind.namespace ∷ []
resources Capability.target_set_read = ResourceKind.namespace ∷ ResourceKind.target_set ∷ []
resources Capability.target_set_update = ResourceKind.target_set ∷ []
resources Capability.target_set_use = ResourceKind.target_set ∷ []
resources Capability.schedule_create = ResourceKind.namespace ∷ []
resources Capability.schedule_read = ResourceKind.namespace ∷ ResourceKind.schedule ∷ []
resources Capability.schedule_update = ResourceKind.schedule ∷ []
resources Capability.workflow_create = ResourceKind.namespace ∷ []
resources Capability.workflow_read = ResourceKind.namespace ∷ ResourceKind.workflow ∷ []
resources Capability.workflow_update = ResourceKind.workflow ∷ []
resources Capability.workflow_delete = ResourceKind.workflow ∷ []
resources Capability.workflow_execute = ResourceKind.workflow ∷ []
resources Capability.workflow_run_read = ResourceKind.workflow ∷ ResourceKind.workflow_run ∷ []
resources Capability.workflow_run_cancel = ResourceKind.workflow_run ∷ []
resources Capability.run_create = ResourceKind.namespace ∷ []
resources Capability.run_read = ResourceKind.run ∷ []
resources Capability.worker_read = ResourceKind.control_plane ∷ []
resources Capability.monitor_read = ResourceKind.control_plane ∷ []
resources Capability.overview_read = ResourceKind.namespace ∷ []

unfoldable pub find_permission : String → List Capability → Option Capability
unfolding identifier
find_permission text [] = none
find_permission text (capability ∷ rest) =
    if str_eq (identifier capability) text then some capability else find_permission text rest

unfoldable pub from_permission_id : String → Option Capability
unfolding find_permission
from_permission_id text = find_permission text all_capabilities

unfoldable pub accepts_resource : Capability → ResourceScope → Bool
unfolding resources kind
accepts_resource capability resource =
    any (λ k. kind_number k == kind_number (kind resource)) (resources capability)
