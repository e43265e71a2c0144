-- ===== src/Nodes.antt =====
-- The nodes of a sandbox and the URLs of their consoles, which a job fetches into the cache of the
-- service: crczp/sandbox_instance_app/lib/nodes.py.
use backend_sandbox_service.Prelude.{
  ℕ, ◌+◌, Bool, true, false, not, Option, none, some, List, [], ◌∷◌, ◌++◌, String, str_eq,
  str_append, ltb, if◌then◌else◌,
}
use backend_sandbox_service.Errors.{
  Done, Exec, Result, ok, err, pure, gets, lift, modify, ◌>>=◌, ◌>>◌, validation_error,
}
pub mod Access
pub mod Console
pub mod Topology

-- What the code stores in the cache.
pub data CacheValue : Type 0 where
  url : String → CacheValue
  flag : Bool → CacheValue

-- `if value`
unfoldable pub is_truthy : CacheValue → Bool
is_truthy (url text) = not (str_eq text "")
is_truthy (flag b) = b

-- An entry of the cache, with the second at which it is no longer there.
pub record CacheEntry : Type 0 where
  pub key : String
  pub value : CacheValue
  pub expires : ℕ

-- A call of get_console_url_job in the queue.
pub record ConsoleJob : Type 0 where
  pub stack_name : String
  pub node_name : String
  pub console_cache_name : String
  pub job_cache_id_running : String

pub record ConsoleState : Type 0 where
  pub now : ℕ
  pub cache : List CacheEntry
  pub jobs : List ConsoleJob

-- A sandbox with the name of the stack of its unit.
pub record NodeSandbox : Type 0 where
  pub id : String
  pub stack_name : String

-- The client of Terraform.
pub record NodeClient : Type 0 where
  pub get_console_url : (stack_name node_name : String) → Result String
  pub resume_node : (stack_name node_name : String) → Result Done
  pub reboot_node : (stack_name node_name : String) → Result Done

abbrev pub cache_console_timeout : ℕ
cache_console_timeout = 7200

abbrev pub cache_job_worker_time : ℕ
cache_job_worker_time = 300

unfoldable pub console_cache_name : NodeSandbox → String → String
console_cache_name sandbox node_name =
    str_append "console-" (str_append sandbox.id (str_append "-" node_name))

unfoldable pub job_cache_id_running : NodeSandbox → String → String
job_cache_id_running sandbox node_name =
    str_append "console-" (str_append sandbox.id (str_append "-" (str_append node_name "-running")))

-- `cache.get`: what was set last under the key, while it has not expired.
unfoldable pub cache_get : ℕ → String → List CacheEntry → Option CacheValue
cache_get now key [] = none
cache_get now key (entry ∷ cache) =
    let rest = cache_get now key cache in
    if str_eq entry.key key
    then (if ltb now entry.expires then some entry.value else none)
    else rest

unfoldable pub cache_drop : String → List CacheEntry → List CacheEntry
cache_drop key [] = []
cache_drop key (entry ∷ cache) =
    let rest = cache_drop key cache in if str_eq entry.key key then rest else entry ∷ rest

abbrev pub cache_set : String → CacheValue → ℕ → Exec ConsoleState Done
cache_set key value timeout = modify (λ s. record s {
  cache = record { key = key; value = value; expires = s.now + timeout } ∷ s.cache;
})

abbrev pub cache_delete : String → Exec ConsoleState Done
cache_delete key = modify (λ s. record s { cache = cache_drop key s.cache })

-- Whether a job for the node has been put in the queue and has neither ended nor timed out.
unfoldable pub job_running : Option CacheValue → Bool
unfolding is_truthy
job_running none = false
job_running (some value) = is_truthy value

-- The call that is put in the queue for a node.
abbrev pub console_job : NodeSandbox → String → ConsoleJob
console_job sandbox node_name = record {
  stack_name = sandbox.stack_name;
  node_name = node_name;
  console_cache_name = console_cache_name sandbox node_name;
  job_cache_id_running = job_cache_id_running sandbox node_name;
}

unfoldable pub enqueue_console_job : NodeSandbox → String → Exec ConsoleState Done
enqueue_console_job sandbox node_name =
    cache_set (job_cache_id_running sandbox node_name) (flag true) cache_job_worker_time
    >> modify (λ s. record s { jobs = s.jobs ++ (console_job sandbox node_name ∷ []) })

unfoldable pub get_console_url : NodeSandbox → String → Exec ConsoleState CacheValue
unfolding job_running enqueue_console_job cache_get is_truthy console_cache_name
    job_cache_id_running
get_console_url sandbox node_name s =
    let console_url = cache_get s.now (console_cache_name sandbox node_name) s.cache in
    let running = job_running (cache_get s.now (job_cache_id_running sandbox node_name) s.cache) in
    elim (job_running console_url) [
      | true ↦ elim console_url [ some value ↦ (ok value, s) | none ↦ (ok (url ""), s) ]
      | false ↦ elim running [
        | true ↦ (ok (url ""), s)
        | false ↦ (enqueue_console_job sandbox node_name >> pure (url "")) s
      ]
    ]

unfoldable pub get_console_url_job : NodeClient → ConsoleJob → Exec ConsoleState Done
unfolding cache_drop
get_console_url_job client job = do
  console_url ← lift (client.get_console_url job.stack_name job.node_name)
  cache_set job.console_cache_name (url console_url) cache_console_timeout
  cache_delete job.job_cache_id_running

-- An action that is neither of the two is refused.
unfoldable pub node_action : NodeClient → NodeSandbox → String → String → Result Done
node_action client sandbox node_name action =
    if str_eq action "resume"
    then client.resume_node sandbox.stack_name node_name
    else if str_eq action "reboot"
    then client.reboot_node sandbox.stack_name node_name
    else err validation_error
