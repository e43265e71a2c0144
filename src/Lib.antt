-- ===== src/Lib.antt =====
-- Verification of the core of the sandbox service: the life of pools, allocation units, requests and
-- their stages, of the jobs that work on them, of the locks of sandboxes, of the NetBird objects, of
-- definitions and inventories, of the runners of Ansible, and of the users and their tokens.
--
-- The program. A pool (`Pool`) holds allocation units (`SandboxAllocationUnit`); a unit has a sandbox,
-- an allocation request and a cleanup request, and a request has three stages. The web thread creates
-- the units of a build and enqueues their allocation (crczp/sandbox_instance_app/lib/pools.py and
-- requests.py); a job makes the stages of a request and enqueues one job for each, in a chain, with a
-- finalizing job at its end (lib/request_handlers.py); each of these jobs runs the handler of its stage
-- (lib/stage_handlers.py). A cleanup goes the same way, and its last job takes the unit off the pool.
--
-- Files and code.
--   Models: the rows of crczp/sandbox_instance_app/models.py. A one-to-one field is an `Option` in its
--     owner, since `hasattr` asks for it; a timestamp is a reading of a clock, an error message the
--     exception whose text it is, a UUID its number.
--   Errors: exceptions as values, and code that may raise as functions from a state to a result and a
--     state: what was written before a raise stays written, but for `atomic`.
--   Groups: SandboxRequestGroup and its mails.
--   StageHandler, StackStages, AnsibleStages, Stages: lib/stage_handlers.py, with the stage object in
--     memory beside its row. `run_stage` and `cancel_stage` select the method of the class.
--     Stages/Races is a run and a cancellation of one stage at the same time, each with its own copy.
--   StageStates: the functions of lib/requests.py that report states.
--   Handlers, Queue: cancellation, creation of stages and jobs of lib/request_handlers.py; Handlers/
--     JobFailures is the handler of exceptions that the queue calls.
--   Requests: the cleanup requests of lib/requests.py, on one unit.
--   Pools: creation, building, the end of a cleanup, locks and deletion of lib/pools.py.
--   Locks: `get_unlocked_sandbox`, `lock_sandbox` and `SandboxGetAndLockView.get` of views.py.
--   Uuids: `generate_new_sandbox_uuid` of lib/sandboxes.py.
--   Netbird: the teardown of lib/netbird.py over crczp/sandbox_common_lib/netbird_client.py.
--   Provision: the provisioning of lib/netbird.py, over the creating requests and the rows; its teardown
--     at the end runs Netbird's definitions.
--   Definitions: crczp/sandbox_definition_app/lib/definitions.py and definition_providers.py, and
--     crczp/sandbox_common_lib/git_config.py.
--   Inventory: crczp/sandbox_ansible_app/lib/inventory.py and group_builders.py, and the setup keys of
--     lib/ansible.py; it uses the containers of Definitions.
--   Runners: crczp/sandbox_ansible_app/lib/container.py; Runners/Launch is the start of a container or
--     a job, the rest follows it and collects its outputs.
--   Nodes: crczp/sandbox_instance_app/lib/nodes.py and topology.py; the cache of console URLs with its
--     clock, and the job that fills it.
--   SshConfig: lib/sshconfig.py. SshAccess: the archives and the cache of topology instances of
--     lib/sandboxes.py and pools.py. RunnerFiles: crczp/sandbox_ansible_app/lib/ansible.py, the directory of
--     containers. Outputs: crczp/sandbox_common_lib/log_output_mixin.py.
--   Tokens: crczp/sandbox_uag/oidc_jwt.py and permissions.py.
--   Users: `get_or_create_user` of crczp/sandbox_uag/auth.py.
--   Prelude: lists, tests and integers. Examples: runs on concrete data.
--
-- What is assumed. Terraform, the container runner, the mail server, the cloud client, NetBird,
-- the queue, git servers, Kubernetes, Docker and the token libraries are records of answers
-- (`World`, `Smtp`, `Cloud`, `Service`, `Uag`, `Platform`, `Kube`, `Engine`, `Oidc`, `NodeClient`,
-- `Disk`, `Creation`, `Instances`), one answer for each question of a run, so that the theorems
-- hold for all of them. The cloud library's StackCreationFailed and InvalidTopologyDefinition
-- descend from its CrczpException. A one-to-one field and a foreign key are enforced by the
-- database, and the rows of a deleted sandbox go with it. The queries of the NetBird teardown do
-- not fail, and the lengths of text columns are not enforced. A request that NetBird refuses (4xx)
-- makes nothing; any other call without a readable answer may have made an object. Recursion is on
-- lists, texts and numbers, but for the loop that follows the log of a pod, which runs on a number
-- of passes: it need not end, and a theorem says how many passes are enough; and but for the loop
-- that looks for a new identifier, which runs on a number of rounds: one round more than there are
-- sandboxes is enough where no identifier comes twice.
--
-- What is not modelled: texts of logs and of messages, and configuration files; the variables of
-- monitored targets and of interfaces in inventories, whose addresses and masks the standard
-- library reads; the keys that the runners copy; the decoding of tokens and the lifetime of cached
-- claims and definitions; and the interleaving of jobs other than a run and a cancellation of the
-- same stage.
pub mod Prelude
pub mod Errors
pub mod Models
pub mod Groups
pub mod StageHandler
pub mod StackStages
pub mod AnsibleStages
pub mod Stages
pub mod StageStates
pub mod Handlers
pub mod Queue
pub mod Requests
pub mod Pools
pub mod Locks
pub mod Uuids
pub mod Netbird
pub mod Provision
pub mod Definitions
pub mod Nodes
pub mod Inventory
pub mod Runners
pub mod RunnerFiles
pub mod Outputs
pub mod SshConfig
pub mod SshAccess
pub mod Tokens
pub mod Users
pub mod Examples
