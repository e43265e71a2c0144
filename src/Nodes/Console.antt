-- ===== src/Nodes/Console.antt =====
-- How often the URL of a console is fetched, and what is given meanwhile.
use backend_sandbox_service.Prelude.{
  ℕ, ◌+◌, ◌≡◌, ◌<◌, refl, false, some, List, [], ◌∷◌, String, eq_refl, str_append, str_eq, arith,
  Bool-cases, inl, inr, ap, eq_iff,
}
use text.Mathlib.TextPositions.{len-append}
use Prim.Native.String.{len}
use backend_sandbox_service.Errors.{ok, ◌>>◌, pure}
use backend_sandbox_service.Nodes.{
  url, ConsoleState, NodeSandbox, NodeClient, CacheEntry, cache_drop, console_job,
  get_console_url_job, get_console_url, enqueue_console_job, cache_get, is_truthy, job_running,
  console_cache_name, job_cache_id_running,
}

-- Time passes.
unfoldable pub wait : ℕ → ConsoleState → ConsoleState
wait seconds s = record s { now = s.now + seconds }

len-job_cache_id_running :
    (sandbox : NodeSandbox) (node_name : String)
    → len (job_cache_id_running sandbox node_name) ≡ len (console_cache_name sandbox node_name) + 8
unfolding job_cache_id_running console_cache_name
len-job_cache_id_running sandbox node_name = omega (
  arith,
  len-append "console-" (str_append sandbox.id (str_append "-" node_name)),
  len-append "console-" (str_append sandbox.id (str_append "-" (str_append node_name "-running"))),
  len-append sandbox.id (str_append "-" node_name),
  len-append sandbox.id (str_append "-" (str_append node_name "-running")),
  len-append "-" node_name,
  len-append "-" (str_append node_name "-running"),
  len-append node_name "-running",
)

job_cache_id_running-console_cache_name :
    (sandbox : NodeSandbox) (node_name : String)
    → str_eq (job_cache_id_running sandbox node_name) (console_cache_name sandbox node_name) ≡ false
job_cache_id_running-console_cache_name sandbox node_name =
    elim (Bool-cases
      (str_eq (job_cache_id_running sandbox node_name) (console_cache_name sandbox node_name))) [
        | inr differ ↦ differ
        | inl same ↦
            ground (arith, len-job_cache_id_running sandbox node_name, ap len ((eq_iff _ _).0 same))
      ]

-- What has expired stays so.
cache_get-later :
    (now seconds : ℕ) (key : String) (cache : List CacheEntry)
    → job_running (cache_get now key cache) ≡ false
    → job_running (cache_get (now + seconds) key cache) ≡ false
unfolding cache_get job_running
cache_get-later now seconds key [] h = refl
cache_get-later now seconds key (entry ∷ cache) h =
    ground (arith, cache_get-later now seconds key cache)

-- Where no URL is cached and no job runs, asking puts one job in the queue and gives no URL, and
-- for the five minutes that follow, while no job ends, asking again puts no further one.
pub get_console_url-waits :
    (sandbox : NodeSandbox) (node_name : String) (s : ConsoleState) (seconds : ℕ)
    → job_running (cache_get s.now (console_cache_name sandbox node_name) s.cache) ≡ false
    → job_running (cache_get s.now (job_cache_id_running sandbox node_name) s.cache) ≡ false
    → seconds < 300
    → (get_console_url sandbox node_name s
        ≡ (enqueue_console_job sandbox node_name >> pure (url "")) s)
      × (get_console_url sandbox node_name (wait seconds (get_console_url sandbox node_name s).1)
          ≡ (ok (url ""), wait seconds (get_console_url sandbox node_name s).1))
unfolding get_console_url enqueue_console_job cache_get wait job_running is_truthy
get_console_url-waits sandbox node_name s seconds unknown idle soon = ground (
  arith,
  eq_refl (job_cache_id_running sandbox node_name),
  job_cache_id_running-console_cache_name sandbox node_name,
  cache_get-later s.now seconds (console_cache_name sandbox node_name) s.cache unknown,
)

cache_get-cache_drop :
    (now : ℕ) (dropped key : String) (cache : List CacheEntry)
    → str_eq dropped key ≡ false
    → cache_get now key (cache_drop dropped cache) ≡ cache_get now key cache
unfolding cache_get cache_drop
cache_get-cache_drop now dropped key [] h = refl
cache_get-cache_drop now dropped key (entry ∷ cache) h = ground (
  arith,
  cache_get-cache_drop now dropped key cache h,
  eq_iff entry.key dropped,
  eq_iff entry.key key,
)

-- Once the job that was put in the queue for a node has fetched a URL that is not empty, that URL
-- is given for the two hours that follow, and asking for it changes nothing.
get_console_url-fetched :
    (client : NodeClient) (sandbox : NodeSandbox) (node_name console_url : String)
    (s : ConsoleState) (seconds : ℕ)
    → client.get_console_url sandbox.stack_name node_name ≡ ok console_url
    → str_eq console_url "" ≡ false
    → seconds < 7200
    → get_console_url sandbox node_name
        (wait seconds (get_console_url_job client (console_job sandbox node_name) s).1)
      ≡ (
        ok (url console_url),
        wait seconds (get_console_url_job client (console_job sandbox node_name) s).1,
      )
unfolding get_console_url get_console_url_job cache_get cache_drop wait job_running is_truthy
get_console_url-fetched client sandbox node_name console_url s seconds fetched given soon = ground (
  arith,
  fetched,
  eq_refl (console_cache_name sandbox node_name),
  job_cache_id_running-console_cache_name sandbox node_name,
  eq_iff (console_cache_name sandbox node_name) (job_cache_id_running sandbox node_name),
)

-- While the URL of a node `x-running` is cached, no job is put in the queue for the console of the
-- node `x` of the same sandbox, whose own URL is not cached, and no URL is given for it.
pub get_console_url-running :
    (sandbox : NodeSandbox) (node_name console_url : String) (s : ConsoleState)
    → cache_get s.now (console_cache_name sandbox (str_append node_name "-running")) s.cache
      ≡ some (url console_url)
    → str_eq console_url "" ≡ false
    → job_running (cache_get s.now (console_cache_name sandbox node_name) s.cache) ≡ false
    → get_console_url sandbox node_name s ≡ (ok (url ""), s)
unfolding get_console_url console_cache_name job_cache_id_running job_running is_truthy
get_console_url-running sandbox node_name console_url s other given unknown = ground arith
