-- ===== src/SshConfig/Chains.antt =====
-- The configuration of the organizers, whose jumps lead to earlier entries.
use backend_sandbox_service.Prelude.{
  ℕ, ◌==◌, ◌≡◌, refl, false, none, some, List, [], ◌∷◌, String, str_eq, str_append, arith,
  Bool-cases, inl, inr,
}
use backend_sandbox_service.SshConfig.{
  SshHost, SshNode, SshTopology, add_host, destination, add_management_nodes, mgmt_config,
}
use backend_sandbox_service.SshConfig.Jumps.{
  Destination, Leads, Led, Knows, add_host-Led, add_host-Knows, add_host-alias, add_host-host_name,
}

-- A jump through the proxy is one to the proxy's host.
destination-Destination :
    (user host : String) (port : ℕ) → Destination host (destination user host port)
unfolding destination
destination-Destination user host port = elim (Bool-cases (port == 22)) [
  | inl usual ↦ Destination.with_user user (ground (arith, usual))
  | inr other ↦ Destination.with_user_and_port user port (ground (arith, other))
]

-- The entries of the proxy and of MAN, from which both configurations start.
unfoldable pub start :
    (proxy_host proxy_user proxy_key : String)
    → ℕ
    → (ip man_user man_key man_name : String) → List SshHost
start proxy_host proxy_user proxy_key proxy_port ip man_user man_key man_name =
    add_host ip man_user man_key (some (destination proxy_user proxy_host proxy_port))
      (some man_name) none []
      (add_host proxy_host proxy_user proxy_key none none (some proxy_port) [] [])

pub start-Led :
    (proxy_host proxy_user proxy_key : String) (proxy_port : ℕ)
    (ip man_user man_key man_name : String)
    → Led [] (start proxy_host proxy_user proxy_key proxy_port ip man_user man_key man_name)
unfolding start
start-Led proxy_host proxy_user proxy_key proxy_port ip man_user man_key man_name =
    add_host-Led ip man_user man_key (some man_name) none
      (some (destination proxy_user proxy_host proxy_port)) _
      (add_host-Led proxy_host proxy_user proxy_key none (some proxy_port) none [] tt tt)
      (
        proxy_host,
        add_host-host_name proxy_host proxy_user proxy_key none (some proxy_port) [],
        destination-Destination proxy_user proxy_host proxy_port,
      )

pub start-Knows :
    (proxy_host proxy_user proxy_key : String) (proxy_port : ℕ)
    (ip man_user man_key man_name : String)
    → str_eq man_name "" ≡ false
    → Knows man_name (start proxy_host proxy_user proxy_key proxy_port ip man_user man_key man_name)
unfolding start
start-Knows proxy_host proxy_user proxy_key proxy_port ip man_user man_key man_name named =
    add_host-alias ip man_user man_key man_name _ none _ named

-- A node that is reached through MAN.
module _ (man_user man_name : String) where
  abbrev pub through_man : String
  through_man = str_append man_user (str_append "@" man_name)

  pub through_man-Leads :
      (hosts : List SshHost) → Knows man_name hosts → Leads hosts (some through_man)
  through_man-Leads hosts h = (man_name, h, Destination.with_user man_user refl)

  add_management_nodes-Led :
      (key : String) (nodes : List SshNode) (hosts : List SshHost)
      → Led [] hosts
      → Knows man_name hosts
      → Led [] (add_management_nodes key through_man nodes hosts)
  unfolding add_management_nodes
  add_management_nodes-Led key [] hosts led knows = led
  add_management_nodes-Led key (node ∷ nodes) hosts led knows =
      add_management_nodes-Led key nodes _
        (add_host-Led node.ip node.mgmt_user key (some node.name) none (some through_man) hosts led
          (through_man-Leads hosts knows))
        (add_host-Knows node.ip node.mgmt_user key (some node.name) none man_name (some through_man)
          hosts knows)

module _ (top_ins : SshTopology) (proxy_host proxy_user : String) (proxy_port : ℕ) where
  -- Where MAN has a name, every jump of the organizers' configuration, and so of the one that
  -- Ansible is given, leads to an entry that stands before it.
  pub mgmt_config-Led :
      (pool_key proxy_key : String)
      → str_eq top_ins.man_name "" ≡ false
      → Led [] (mgmt_config top_ins proxy_host proxy_user proxy_port pool_key proxy_key)
  unfolding mgmt_config start
  mgmt_config-Led pool_key proxy_key named =
      add_management_nodes-Led top_ins.man_mgmt_user top_ins.man_name pool_key
        top_ins.management_nodes _
        (start-Led proxy_host proxy_user proxy_key proxy_port top_ins.ip top_ins.man_mgmt_user
          pool_key top_ins.man_name)
        (start-Knows proxy_host proxy_user proxy_key proxy_port top_ins.ip top_ins.man_mgmt_user
          pool_key top_ins.man_name named)
