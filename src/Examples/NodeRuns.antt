-- ===== src/Examples/NodeRuns.antt =====
-- The console and the address of a web server.
use backend_sandbox_service.Prelude.{all, ◌&&◌, ◌≡◌, refl, arith, true, none, some, List, [], ◌∷◌}
use backend_sandbox_service.Errors.{is_ok, err, validation_error, ok, pure, ◌>>◌}
use backend_sandbox_service.Definitions.{Node}
use backend_sandbox_service.Nodes.{
  ConsoleState, NodeSandbox, url, get_console_url, enqueue_console_job, cache_get, job_running,
}
use backend_sandbox_service.Nodes.Console.{wait, get_console_url-waits}
use backend_sandbox_service.Nodes.Topology.{ShownRouter, ShownInstance, build_topology}
use backend_sandbox_service.Nodes.Topology.Images.{
  has_image, network_has_images, is_ok-build_topology,
}
use backend_sandbox_service.Nodes.Access.{Image, NodeTopology}

abbrev sandbox : NodeSandbox
sandbox = record { id = "5f1c"; stack_name = "pool-1-sandbox-1" }

abbrev idle : ConsoleState
idle = record { now = 1000; cache = []; jobs = [] }

get_console_url-waits_example :
    (get_console_url sandbox "web" idle ≡ (enqueue_console_job sandbox "web" >> pure (url "")) idle)
    × (get_console_url sandbox "web" (wait 60 (get_console_url sandbox "web" idle).1)
        ≡ (ok (url ""), wait 60 (get_console_url sandbox "web" idle).1))
unfolding cache_get job_running
get_console_url-waits_example = get_console_url-waits sandbox "web" idle 60 refl refl (omega arith)

abbrev web : Node
web = record { name = "web"; flavor = "small"; image = "debian" }

abbrev images : List Image
images = record { name = "debian"; os_type = "linux"; owner_specified = [] } ∷ []

abbrev shown : ShownInstance
shown = record {
  visible_networks =
      record {
        name = "lan";
        cidr = "192.168.1.0/24";
        accessible_by_user = true;
        host_links = (web, some "192.168.1.5") ∷ [];
      }
      ∷ [];
  visible_routers =
      record {
        node = record web { name = "router" };
        networks = "lan" ∷ [];
        wan_link = some (some "10.0.0.2");
      }
      ∷ [];
}

is_ok-build_topology_example : is_ok (build_topology (ok images) shown) ≡ (
    all (network_has_images images) shown.visible_networks
    && all (λ (router : ShownRouter). has_image images router.node) shown.visible_routers)
is_ok-build_topology_example = is_ok-build_topology images shown

-- One node without an image.
hidden :
    build_topology (ok images) (record shown {
      visible_routers =
          record { node = record web { image = "kali" }; networks = []; wan_link = none } ∷ [];
    })
    ≡ err validation_error
unfolding build_topology
hidden = refl

abbrev topology_instance : NodeTopology
topology_instance = record {
  ip = "10.0.0.1";
  router_links = λ _. record { accessible_by_user = none; ip = none } ∷ [];
  host_links = λ _. record { accessible_by_user = some true; ip = some "192.168.1.5" } ∷ [];
}
