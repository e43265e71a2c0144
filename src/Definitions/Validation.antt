-- ===== src/Definitions/Validation.antt =====
-- What the validation of definitions accepts.
use backend_sandbox_service.Prelude.{
  ◌≡◌, refl, Bool, false, not, Option, none, some, List, [], ◌∷◌, ◌++◌, String, str_eq, contains,
  all, ◌&&◌, ◌||◌, if◌then◌else◌, arith,
}
use backend_sandbox_service.Errors.{ok, err, is_ok, validation_error}
use backend_sandbox_service.Definitions.{
  Platform, TopologyDefinition, Container, ContainerMapping, DockerContainers, Node,
  default_hosts_groups, check_each, flavors_of, images_of, names_of, container_names, is_set,
  is_mapped, validate_resources, validate_topology_definition, get_dockerfile, check_dockerfile,
  check_container, check_containers, validate_containers, ◌then◌,
}

-- Every node has an existing flavor and image.
abbrev pub node_exists : List String → List String → Node → Bool
node_exists flavors images node = contains node.flavor flavors && contains node.image images

-- The node's flavor and image are there.
unfoldable pub well_equipped : List String → List String → TopologyDefinition → Bool
well_equipped flavors images top_def =
    all (λ group. not (contains group default_hosts_groups)) top_def.groups
    && (all (node_exists flavors images) top_def.hosts
        && all (node_exists flavors images) top_def.routers)

-- A Dockerfile is named and can be had.
abbrev pub has_dockerfile : (String → Bool) → Option String → Bool
has_dockerfile readable none = false
has_dockerfile readable (some path) = not (str_eq path "") && readable path

-- Exactly one of an image and a Dockerfile is named, and a Dockerfile can be had.
abbrev pub well_built : (String → Bool) → Container → Bool
unfolding is_set
well_built readable container =
    is_set container.image && not (is_set container.dockerfile)
    || not (is_set container.image) && has_dockerfile readable container.dockerfile

check_each_lem :
    {A : Type 0} (accepted : A → Bool) (xs : List A)
    → check_each accepted xs ≡ (if all accepted xs then ok tt else err validation_error)
unfolding check_each
check_each_lem accepted [] = refl
check_each_lem accepted (x ∷ xs) = ground (arith, check_each_lem accepted xs)

all-append :
    {A : Type 0} (p : A → Bool) (xs ys : List A) → all p (xs ++ ys) ≡ (all p xs && all p ys)
all-append p [] ys = refl
all-append p (x ∷ xs) ys = ground (arith, all-append p xs ys)

all-nodes :
    (flavors images : List String) (nodes : List Node)
    → all (node_exists flavors images) nodes ≡ (
        all (λ flavor. contains flavor flavors) (flavors_of nodes)
        && all (λ image. contains image images) (images_of nodes))
unfolding flavors_of images_of
all-nodes flavors images [] = refl
all-nodes flavors images (node ∷ nodes) = ground (arith, all-nodes flavors images nodes)

module _ (platform : Platform) where
  -- Where the cloud gives its flavors and images, the validation of a topology accepts it exactly
  -- if no group of it has the name of a default group and every host and router has a flavor and an
  -- image that exist; it is a ValidationError otherwise.
  pub validate_topology_definition-well_equipped :
      (top_def : TopologyDefinition) (flavors images : List String)
      → platform.flavors ≡ ok flavors
      → platform.images ≡ ok images
      → validate_topology_definition platform top_def
        ≡ (if well_equipped flavors images top_def then ok tt else err validation_error)
  unfolding validate_topology_definition validate_resources well_equipped
  validate_topology_definition-well_equipped top_def flavors images hf hi = ground (
    arith,
    hf,
    hi,
    check_each_lem (λ (group : String). not (contains group default_hosts_groups)) top_def.groups,
    check_each_lem (λ (flavor : String). contains flavor flavors)
        (flavors_of top_def.hosts ++ flavors_of top_def.routers),
    check_each_lem (λ (image : String). contains image images)
        (images_of top_def.hosts ++ images_of top_def.routers),
    all-append (λ (flavor : String). contains flavor flavors) (flavors_of top_def.hosts)
        (flavors_of top_def.routers),
    all-append (λ (image : String). contains image images) (images_of top_def.hosts)
        (images_of top_def.routers),
    all-nodes flavors images top_def.hosts,
    all-nodes flavors images top_def.routers,
  )

  module _ (url rev : String) where
    -- The Dockerfile below a path can be had from the repository.
    unfoldable pub readable : String → Bool
    readable path = is_ok (get_dockerfile platform url rev path)

    check_container_lem :
        (container : Container)
        → is_ok (check_container platform url rev container) ≡ well_built readable container
    unfolding check_container check_dockerfile readable is_set
    check_container_lem container = ground arith

    check_containers_lem :
        (containers : List Container)
        → is_ok (check_containers platform url rev containers)
          ≡ all (well_built readable) containers
    unfolding check_containers
    check_containers_lem [] = refl
    check_containers_lem (container ∷ containers) =
        ground (arith, check_container_lem container, check_containers_lem containers)

    -- Containers are accepted exactly if each names either an image or a Dockerfile that can be had,
    -- but not both, and every mapping is of one of these containers to a host of the topology.
    pub is_ok-validate_containers :
        (top_def : TopologyDefinition) (containers : DockerContainers)
        → is_ok (validate_containers platform url rev top_def containers) ≡ (
            all (well_built readable) containers.containers
            && all
                (λ (m : ContainerMapping).
                  contains m.container (container_names containers.containers)
                  && contains m.host (names_of top_def.hosts))
                containers.container_mappings)
    unfolding validate_containers is_mapped
    is_ok-validate_containers top_def containers = ground (
      arith,
      check_containers_lem containers.containers,
      check_each_lem
          (is_mapped platform (container_names containers.containers) (names_of top_def.hosts))
          containers.container_mappings,
    )
