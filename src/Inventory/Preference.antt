-- ===== src/Inventory/Preference.antt =====
-- The router that a network is reached through is the first one in the order of names.
use backend_sandbox_service.Prelude.{
  ◌≡◌, refl, Bool, true, false, Option, none, some, List, [], ◌∷◌, String, str_eq, if◌then◌else◌,
  all, ◌&&◌, arith,
}
use backend_sandbox_service.Inventory.Routing.{
  RouterMapping, leb_str, insert_mapping, sort_reverse, assign_routers, router_of,
  network_to_router_mapping,
}

leb_str-total : (s t : String) → leb_str s t ≡ false → leb_str t s ≡ true
unfolding leb_str
leb_str-total String.[] t h = ground arith
leb_str-total (String.◌∷◌ c s) String.[] h = refl
leb_str-total (String.◌∷◌ c s) (String.◌∷◌ d t) h = ground (arith, leb_str-total s t)

leb_str_trans : (s t u : String) → leb_str s t ≡ true → leb_str t u ≡ true → leb_str s u ≡ true
unfolding leb_str
leb_str_trans String.[] t u h k = refl
leb_str_trans (String.◌∷◌ c s) String.[] u h k = ground arith
leb_str_trans (String.◌∷◌ c s) (String.◌∷◌ d t) String.[] h k = ground arith
leb_str_trans (String.◌∷◌ c s) (String.◌∷◌ d t) (String.◌∷◌ e u) h k =
    ground (arith, leb_str_trans s t u)

-- The least name among the routers that are mapped to the network, by a plain search.
unfoldable pub smaller : String → Option String → String
smaller router none = router
smaller router (some other) = if leb_str other router then other else router

unfoldable pub first_router : String → List RouterMapping → Option String
first_router network [] = none
first_router network (m ∷ mappings) =
    let rest = first_router network mappings in
    if str_eq m.network network then some (smaller m.router rest) else rest

-- The last router that is mapped to the network.
or_else : Option String → Option String → Option String
or_else (some router) _ = some router
or_else none other = other

last_router : String → List RouterMapping → Option String
unfolding or_else
last_router network [] = none
last_router network (m ∷ mappings) =
    or_else (last_router network mappings)
      (if str_eq m.network network then some m.router else none)

assign_routers-last :
    (network : String) (mappings : List RouterMapping) (net_to_router : List (String × String))
    → router_of network (assign_routers mappings net_to_router)
      ≡ or_else (last_router network mappings) (router_of network net_to_router)
unfolding assign_routers router_of last_router
assign_routers-last network [] net_to_router = refl
assign_routers-last network (m ∷ mappings) net_to_router =
    ground (arith, assign_routers-last network mappings ((m.network, m.router) ∷ net_to_router))

up_to : String → List RouterMapping → Bool
up_to bound mappings = all (λ m. leb_str m.router bound) mappings

descending : List RouterMapping → Bool
unfolding up_to
descending [] = true
descending (m ∷ mappings) = up_to m.router mappings && descending mappings

up_to_trans :
    (low high : String) (mappings : List RouterMapping)
    → leb_str low high ≡ true
    → up_to low mappings ≡ true
    → up_to high mappings ≡ true
unfolding up_to
up_to_trans low high [] h k = refl
up_to_trans low high (m ∷ mappings) h k =
    ground (arith, leb_str_trans m.router low high, up_to_trans low high mappings)

insert_mapping-up_to :
    (bound : String) (m : RouterMapping) (mappings : List RouterMapping)
    → leb_str m.router bound ≡ true
    → up_to bound mappings ≡ true
    → up_to bound (insert_mapping m mappings) ≡ true
unfolding up_to insert_mapping
insert_mapping-up_to bound m [] h k = ground arith
insert_mapping-up_to bound m (n ∷ mappings) h k =
    ground (arith, insert_mapping-up_to bound m mappings)

insert_mapping-descending :
    (m : RouterMapping) (mappings : List RouterMapping)
    → descending mappings ≡ true
    → descending (insert_mapping m mappings) ≡ true
unfolding descending insert_mapping up_to
insert_mapping-descending m [] h = refl
insert_mapping-descending m (n ∷ mappings) h = ground (
  arith,
  up_to_trans n.router m.router mappings,
  leb_str-total n.router m.router,
  insert_mapping-up_to n.router m mappings,
  insert_mapping-descending m mappings,
)

below : String → Option String → Bool
below bound none = true
below bound (some router) = leb_str router bound

last_router-below :
    (network bound : String) (mappings : List RouterMapping)
    → up_to bound mappings ≡ true
    → below bound (last_router network mappings) ≡ true
unfolding below last_router up_to
last_router-below network bound [] h = refl
last_router-below network bound (m ∷ mappings) h =
    ground (arith, last_router-below network bound mappings)

insert_mapping-last :
    (network : String) (m : RouterMapping) (mappings : List RouterMapping)
    → descending mappings ≡ true
    → last_router network (insert_mapping m mappings) ≡ (
        if str_eq m.network network
        then some (smaller m.router (last_router network mappings))
        else last_router network mappings)
unfolding descending insert_mapping last_router smaller up_to below
insert_mapping-last network m [] h = ground arith
insert_mapping-last network m (n ∷ mappings) h = ground (
  arith,
  up_to_trans n.router m.router mappings,
  last_router-below network m.router mappings,
  insert_mapping-last network m mappings,
)

sort_reverse-descending :
    (mappings : List RouterMapping) → descending (sort_reverse mappings) ≡ true
unfolding sort_reverse descending
sort_reverse-descending [] = refl
sort_reverse-descending (m ∷ mappings) =
    insert_mapping-descending m (sort_reverse mappings) (sort_reverse-descending mappings)

sort_reverse-last :
    (network : String) (mappings : List RouterMapping)
    → last_router network (sort_reverse mappings) ≡ first_router network mappings
unfolding sort_reverse first_router last_router
sort_reverse-last network [] = refl
sort_reverse-last network (m ∷ mappings) = ground (
  arith,
  insert_mapping-last network m (sort_reverse mappings) (sort_reverse-descending mappings),
  sort_reverse-last network mappings,
)

-- The router that the sorted assignment gives for a network is the one with the least name among
-- those that are mapped to it, and there is none exactly if none is mapped to it.
pub network_to_router_mapping-first :
    (network : String) (mappings : List RouterMapping)
    → router_of network (network_to_router_mapping mappings) ≡ first_router network mappings
unfolding network_to_router_mapping router_of or_else
network_to_router_mapping-first network mappings = ground (
  arith,
  assign_routers-last network (sort_reverse mappings) [],
  sort_reverse-last network mappings,
)
