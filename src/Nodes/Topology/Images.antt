-- ===== src/Nodes/Topology/Images.antt =====
-- When a topology can be shown, and which hosts are.
use backend_sandbox_service.Prelude.{
  ◌≡◌, refl, ◌∙◌, Bool, ◌&&◌, ◌||◌, Option, List, [], ◌∷◌, String, str_eq, all, any, arith,
  Bool-cases, inl, inr,
}
use backend_sandbox_service.Errors.{Result, ok, is_ok, Result-cases}
use backend_sandbox_service.Definitions.{Node}
use backend_sandbox_service.Nodes.Access.{Image, find_image_for_node}
use backend_sandbox_service.Nodes.Topology.{
  ShownNetwork, ShownRouter, ShownInstance, Subnet, is_wan_network, each, host_node,
  get_hosts_for_network, put_subnet, create_subnets, router_node, build_topology,
}

-- There is an image of the node's name.
abbrev pub has_image : List Image → Node → Bool
has_image images node = any (λ (image : Image). str_eq image.name node.image) images

is_ok-find_image_for_node :
    (node : Node) (images : List Image)
    → is_ok (find_image_for_node node images) ≡ has_image images node
unfolding find_image_for_node
is_ok-find_image_for_node node [] = refl
is_ok-find_image_for_node node (image ∷ images) =
    ground (arith, is_ok-find_image_for_node node images)

is_ok-each :
    {A B : Type 0} (f : A → Result B) (xs : List A) → is_ok (each f xs) ≡ all (λ x. is_ok (f x)) xs
unfolding each
is_ok-each f [] = refl
is_ok-each f (x ∷ xs) = ground (arith, is_ok-each f xs)

-- The hosts of a network have images, or it is a WAN, which is not shown.
abbrev pub network_has_images : List Image → ShownNetwork → Bool
network_has_images images network =
    is_wan_network network.name || all (λ link. has_image images link.0) network.host_links

all-hosts :
    (images : List Image) (accessible : Bool) (links : List (Node × Option String))
    → all (λ link. is_ok (host_node images accessible link)) links
      ≡ all (λ link. has_image images link.0) links
unfolding host_node
all-hosts images accessible [] = refl
all-hosts images accessible ((node, ip) ∷ links) =
    ground (arith, all-hosts images accessible links, is_ok-find_image_for_node node images)

is_ok-get_hosts_for_network :
    (images : List Image) (network : ShownNetwork)
    → is_ok (get_hosts_for_network images network)
      ≡ all (λ link. has_image images link.0) network.host_links
unfolding get_hosts_for_network
is_ok-get_hosts_for_network images network =
    is_ok-each (host_node images network.accessible_by_user) network.host_links
    ∙ all-hosts images network.accessible_by_user network.host_links

is_ok-create_subnets :
    (images : List Image) (networks : List ShownNetwork) (subnets : List Subnet)
    → is_ok (create_subnets images networks subnets) ≡ all (network_has_images images) networks
unfolding create_subnets
is_ok-create_subnets images [] subnets = refl
is_ok-create_subnets images (network ∷ networks) subnets =
    elim (Bool-cases (is_wan_network network.name)) [
      | inl wan ↦ ground (arith, wan, is_ok-create_subnets images networks subnets)
      | inr shown ↦ elim (Result-cases (get_hosts_for_network images network)) [
        | inr (e, failed) ↦
            ground (arith, shown, failed, is_ok-get_hosts_for_network images network)
        | inl (hosts, found) ↦ ground (
          arith,
          shown,
          found,
          is_ok-get_hosts_for_network images network,
          is_ok-create_subnets images networks (
              put_subnet (record { name = network.name; cidr = network.cidr; hosts = hosts })
                subnets),
        )
      ]
    ]

all-routers :
    (images : List Image) (subnets : List Subnet) (routers : List ShownRouter)
    → all (λ router. is_ok (router_node images subnets router)) routers
      ≡ all (λ (router : ShownRouter). has_image images router.node) routers
unfolding router_node
all-routers images subnets [] = refl
all-routers images subnets (router ∷ routers) =
    ground (arith, all-routers images subnets routers, is_ok-find_image_for_node router.node images)

-- Where the images are listed, the topology of a sandbox is shown just if there is an image for each
-- visible router, and for each visible host of a visible network that is not called WAN. One node
-- without an image hides the whole topology.
pub is_ok-build_topology :
    (images : List Image) (top_inst : ShownInstance)
    → is_ok (build_topology (ok images) top_inst) ≡ (
        all (network_has_images images) top_inst.visible_networks
        && all (λ (router : ShownRouter). has_image images router.node) top_inst.visible_routers)
unfolding build_topology
is_ok-build_topology images top_inst =
    elim (Result-cases (create_subnets images top_inst.visible_networks [])) [
      | inr (e, failed) ↦
          ground (arith, failed, is_ok-create_subnets images top_inst.visible_networks [])
      | inl (subnets, created) ↦ ground (
        arith,
        created,
        is_ok-create_subnets images top_inst.visible_networks [],
        is_ok-each (router_node images subnets) top_inst.visible_routers,
        all-routers images subnets top_inst.visible_routers,
      )
    ]
