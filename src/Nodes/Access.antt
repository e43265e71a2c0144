-- ===== src/Nodes/Access.antt =====
-- How a node is reached: its address and its protocols.
use backend_sandbox_service.Prelude.{
  ℕ, ◌≡◌, ◌↔◌, Bool, true, false, not, ◌&&◌, all, arith, inl, inr, Bool-cases, refl, is_none,
  Option-cases, ap, ◌∙◌, Option, none, some, List, [], ◌∷◌, ◌++◌, String, str_eq, if◌then◌else◌,
}
use backend_sandbox_service.Errors.{Result, ok, err, validation_error}
use backend_sandbox_service.Definitions.{Node}

pub record NodeProtocol : Type 0 where
  pub name : String
  pub port : ℕ

abbrev pub ssh : NodeProtocol
ssh = record { name = "SSH"; port = 22 }

abbrev pub rdp : NodeProtocol
rdp = record { name = "RDP"; port = 3389 }

abbrev pub vnc : NodeProtocol
vnc = record { name = "VNC"; port = 5900 }

pub record Image : Type 0 where
  pub name : String
  pub os_type : String
  pub owner_specified : List (String × String)

-- A link of a node, with the `accessible_by_user` of its network where that has one.
pub record NodeLink : Type 0 where
  pub accessible_by_user : Option Bool
  pub ip : Option String

-- What the topology instance tells of a node: its links to the networks of hosts, and to the WAN.
pub record NodeTopology : Type 0 where
  pub ip : String
  pub host_links : Node → List NodeLink
  pub router_links : Node → List NodeLink

pub record NodeAccessData : Type 0 where
  pub man_ip : String
  pub man_port : ℕ
  pub host_ip : String
  pub protocols : List NodeProtocol

unfoldable pub find_image_for_node : Node → List Image → Result Image
find_image_for_node node [] = err validation_error
find_image_for_node node (image ∷ images) =
    let rest = find_image_for_node node images in
    if str_eq image.name node.image then ok image else rest

unfoldable pub owner_value : String → List (String × String) → Option String
owner_value key [] = none
owner_value key ((other, value) ∷ values) =
    let rest = owner_value key values in if str_eq other key then some value else rest

unfoldable pub get_node_image_has_gui_access : Image → Bool
unfolding owner_value
get_node_image_has_gui_access image =
    elim (owner_value "owner_specified.openstack.gui_access" image.owner_specified) [
      | none ↦ false
      | some value ↦ str_eq value "true"
    ]

unfoldable pub image_protocols : Image → List NodeProtocol
unfolding get_node_image_has_gui_access
image_protocols image =
    if get_node_image_has_gui_access image
    then (if str_eq image.os_type "linux" then ssh ∷ vnc ∷ [] else ssh ∷ rdp ∷ [])
    else ssh ∷ []

unfoldable pub get_node_available_protocols :
    Result (List Image) → Node → Result (List NodeProtocol)
unfolding find_image_for_node image_protocols
get_node_available_protocols list_images node = elim list_images [
  | err e ↦ err e
  | ok images ↦ elim (find_image_for_node node images) [
    | err e ↦ err e
    | ok image ↦ ok (image_protocols image)
  ]
]

-- Whether the network of a link is hidden from the user.
unfoldable pub is_hidden : NodeLink → Bool
is_hidden link = elim link.accessible_by_user [ none ↦ false | some b ↦ not b ]

-- `if link.ip`
unfoldable pub link_ip : NodeLink → Option String
link_ip link = elim link.ip [ none ↦ none | some ip ↦ if str_eq ip "" then none else some ip ]

unfoldable pub first_ip : List NodeLink → Result String
unfolding is_hidden link_ip
first_ip [] = err validation_error
first_ip (link ∷ links) =
    let rest = first_ip links in
    if is_hidden link
    then err validation_error
    else elim (link_ip link) [ none ↦ rest | some ip ↦ ok ip ]

unfoldable pub get_node_ip : NodeTopology → Node → Result String
unfolding first_ip
get_node_ip topology_instance node =
    first_ip (topology_instance.router_links node ++ topology_instance.host_links node)

unfoldable pub get_node_access_data :
    (man_port : ℕ) → Result (List Image) → Option NodeTopology → Option Node → Result NodeAccessData
unfolding get_node_ip get_node_available_protocols
get_node_access_data man_port list_images none host = err validation_error
get_node_access_data man_port list_images (some topology_instance) none = err validation_error
get_node_access_data man_port list_images (some topology_instance) (some host) =
    elim (get_node_ip topology_instance host) [
      | err e ↦ err e
      | ok host_ip ↦ elim (get_node_available_protocols list_images host) [
        | err e ↦ err e
        | ok protocols ↦ ok (record {
          man_ip = topology_instance.ip;
          man_port = man_port;
          host_ip = host_ip;
          protocols = protocols;
        })
      ]
    ]

-- A link that settles nothing: its network is not hidden, and it has no address.
abbrev pub is_open : NodeLink → Bool
is_open link = not (is_hidden link) && is_none (link_ip link)

-- The address is that of the first link, those to the WAN before those to the networks of hosts,
-- that has one, where no network up to that one is hidden from the user.
abbrev pub Decides : List NodeLink → String → Type 0
Decides links ip =
    (before : List NodeLink) × (link : NodeLink) × (after : List NodeLink) × (links
      ≡ before ++ (link ∷ after))
    × (all is_open before ≡ true)
    × (is_hidden link ≡ false)
    × (link_ip link ≡ some ip)

Decides-cons :
    (link : NodeLink) (links : List NodeLink) (ip : String)
    → is_hidden link ≡ false
    → link_ip link ≡ none
    → Decides links ip
    → Decides (link ∷ links) ip
Decides-cons link links ip shown absent (before, found, after, split, passed, seen, address) = (
  link ∷ before,
  found,
  after,
  ap (λ xs. link ∷ xs) split,
  ground (arith, shown, absent, passed),
  seen,
  address,
)

first_ip-Decides : (links : List NodeLink) (ip : String) → first_ip links ≡ ok ip → Decides links ip
unfolding first_ip
first_ip-Decides [] ip h = ground arith
first_ip-Decides (link ∷ links) ip h = elim (Bool-cases (is_hidden link)) [
  | inl hidden ↦ ground (arith, hidden)
  | inr shown ↦ elim (Option-cases (link_ip link)) [
    | inl absent ↦
        Decides-cons link links ip shown absent
          (first_ip-Decides links ip (ground (arith, shown, absent)))
    | inr (found, address) ↦ ([], link, links, refl, refl, shown, ground (arith, shown, address))
  ]
]

Decides-first_ip :
    (before after : List NodeLink) (link : NodeLink) (ip : String)
    → all is_open before ≡ true
    → is_hidden link ≡ false
    → link_ip link ≡ some ip
    → first_ip (before ++ (link ∷ after)) ≡ ok ip
unfolding first_ip
Decides-first_ip [] after link ip passed shown address = ground arith
Decides-first_ip (other ∷ before) after link ip passed shown address =
    ground (arith, Decides-first_ip before after link ip)

-- A node has an address just where a link decides it, and that is the address.
pub get_node_ip-Decides :
    (topology_instance : NodeTopology) (node : Node) (ip : String)
    → (get_node_ip topology_instance node ≡ ok ip)
      ↔ Decides (topology_instance.router_links node ++ topology_instance.host_links node) ip
unfolding get_node_ip
get_node_ip-Decides topology_instance node ip = (
  first_ip-Decides (topology_instance.router_links node ++ topology_instance.host_links node) ip,
  λ (before, link, after, split, passed, shown, address).
      ap first_ip split ∙ Decides-first_ip before after link ip passed shown address,
)
