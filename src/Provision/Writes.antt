-- ===== src/Provision/Writes.antt =====
-- What each part of the provisioning of an entrypoint writes while the sandbox is there.
mod Lost
unfoldable pub use Lost.*
use backend_sandbox_service.Prelude.{
  ℕ, ◌≡◌, refl, sym, Bool, true, false, not, none, some, List, [], ◌∷◌, ◌++◌, append-nil,
  append_assoc, String, str_eq, str_append, eq_iff, all, arith, ◌⊎◌, inl, inr,
}
use backend_sandbox_service.Errors.{Exc, Result, ok, err, Result-cases}
use backend_sandbox_service.Provision.{
  Resource, put_row, find_row, new_row, join, Service, ProvisionState, Step, Made, CreateCall,
  create, created_id, created_key, key_of, queried, called, create_group, create_setup_key,
  create_policy, create_route, make_network_id, dashed, made_group, made_setup_key, made_route,
  made_policy, made_nameserver_group, unread, unread_of, CreateReply, no_response, response, query,
  save, get_or_create_row, attach_group, attach_key, create_routes, attach_routes, attach_policy,
}
use backend_sandbox_service.Provision.RouteLists.{is_plain}

-- The action fails and writes no row; what its failed call may have made is lost.
abbrev pub Fails :
    {A : Type 0} → (ProvisionState → Result A × ProvisionState) → ProvisionState → Type 0
Fails m s =
    (e : Exc) × (lost : List Made) × (steps : List Step) × (is_lost lost ≡ true)
    × (m s ≡ (err e, record s { made = s.made ++ lost; steps = steps }))

module _ (service : Service) (there : (steps : List Step) → service.exists steps ≡ ok true) where
  save_lem :
      (nbr : Resource) (s : ProvisionState)
      → save service nbr s
        ≡ (ok tt, record s { rows = put_row nbr s.rows; steps = s.steps ++ queried ∷ [] })
  unfolding save query
  save_lem nbr s = ground (arith, there s.steps)

  module _ (stack_name : String) (key_expiry_seconds : ℕ) where
    pub get_or_create_row-others :
        (host_name : String) (s : ProvisionState)
        → others host_name s.rows ≡ true
        → get_or_create_row service stack_name key_expiry_seconds host_name s ≡ (
          ok (new_row host_name),
          record s { rows = s.rows ++ new_row host_name ∷ []; steps = s.steps ++ queried ∷ [] },
        )
    unfolding get_or_create_row query
    get_or_create_row-others host_name s h =
        ground (arith, there s.steps, find_row-others host_name s.rows h)

    module _
        (plain : (steps : List Step) (call : CreateCall)
          → plain_id (created_id (service.reply steps call)) ≡ true)
        (host_name host_group_id access_group_id : String) where
      pub create_routes-cases :
          (routes : List String) (s : ProvisionState)
          → ((e : Exc) × (lost : List Made) × (steps : List Step) × (is_lost lost ≡ true)
              × (create_routes service stack_name key_expiry_seconds host_name host_group_id
                    access_group_id routes s
                  ≡ (err e, record s { made = s.made ++ lost; steps = steps })))
            ⊎ ((ids : List String) × (steps : List Step) × (all is_plain ids ≡ true)
                × (create_routes service stack_name key_expiry_seconds host_name host_group_id
                      access_group_id routes s
                    ≡ (ok ids, record s { made = s.made ++ made_routes ids; steps = steps })))
      unfolding create_routes create made_routes
      create_routes-cases [] s = inr ([], s.steps, refl, ground (arith, append-nil s.made))
      create_routes-cases (cidr ∷ routes) s =
          let call =
            create_route (make_network_id stack_name host_name cidr) cidr (host_group_id ∷ [])
              (access_group_id ∷ []) in
          elim (Result-cases (created_id (service.reply s.steps call))) [
            | inr (e, failed) ↦ inl (
              e,
              unread_of (service.reply s.steps call) call,
              s.steps ++ called call ∷ [],
              unread_of-is_lost (service.reply s.steps call) call,
              ground (arith, failed),
            )
            | inl (id, made) ↦
                elim (create_routes-cases routes (record s {
                  made = s.made ++ made_route id ∷ [];
                  steps = s.steps ++ called call ∷ [];
                })) [
                  | inl (e, lost, steps, is, later) ↦ inl (
                    e,
                    made_route id ∷ lost,
                    steps,
                    is,
                    ground (arith, made, later, append_assoc s.made (made_route id ∷ []) lost),
                  )
                  | inr (ids, steps, plain_ids, later) ↦ inr (
                    id ∷ ids,
                    steps,
                    ground (arith, made, plain s.steps call),
                    ground (
                      arith,
                      made,
                      later,
                      append_assoc s.made (made_route id ∷ []) (made_routes ids),
                    ),
                  )
                ]
          ]

    module _ (rows : List Resource) (nbr : Resource) (s : ProvisionState)
        (h : others nbr.entrypoint_host_name rows ≡ true) (at_end : s.rows ≡ rows ++ nbr ∷ []) where
      -- The row at the end is replaced.
      saved :
          (new : Resource) (t : ProvisionState)
          → new.entrypoint_host_name ≡ nbr.entrypoint_host_name
          → t.rows ≡ s.rows
          → save service new t
            ≡ (ok tt, record t { rows = rows ++ new ∷ []; steps = t.steps ++ queried ∷ [] })
      saved new t same e =
          rw (save_lem new t, e, at_end, put_row-others new nbr rows (rw same h) (sym same)) refl

      -- The state after a call and what it has made.
      made_by : CreateCall → List Made → ProvisionState
      made_by call made = record s { made = s.made ++ made; steps = s.steps ++ called call ∷ [] }

      -- What an action gives that made an object, with the row that it has saved.
      abbrev pub Attaches :
          {A : Type 0}
          → (ProvisionState → Result A × ProvisionState)
          → A
          → Resource
          → List Made
          → Type 0
      Attaches m a new made =
          (steps : List Step) × (m s
            ≡ (ok a, record s { rows = rows ++ new ∷ []; made = s.made ++ made; steps = steps }))

      pub attach_group-cases :
          Fails (attach_group service stack_name key_expiry_seconds nbr) s
          ⊎ ((id : String) × Attaches
                (attach_group service stack_name key_expiry_seconds nbr)
                (id, record nbr { host_group_id = some id })
                (record nbr { host_group_id = some id })
                (made_group id ∷ []))
      unfolding attach_group create made_by
      attach_group-cases =
          let call = create_group (dashed stack_name nbr.entrypoint_host_name) in
          elim (Result-cases (created_id (service.reply s.steps call))) [
            | inr (e, failed) ↦ inl (
              e,
              unread_of (service.reply s.steps call) call,
              s.steps ++ called call ∷ [],
              unread_of-is_lost (service.reply s.steps call) call,
              ground (arith, failed),
            )
            | inl (id, made) ↦
                let new = record nbr { host_group_id = some id } in
                inr (
                  id,
                  (
                    s.steps ++ called call ∷ [] ++ queried ∷ [],
                    ground (arith, made, saved new (made_by call (made_group id ∷ [])) refl refl),
                  ),
                )
          ]

      pub attach_key-cases :
          (host_group_id : String)
          → Fails (attach_key service stack_name key_expiry_seconds host_group_id nbr) s
            ⊎ ((id : String) × (value : String) × Attaches
                  (attach_key service stack_name key_expiry_seconds host_group_id nbr)
                  (record nbr { host_setup_key_id = some id; host_setup_key_value = some value })
                  (record nbr { host_setup_key_id = some id; host_setup_key_value = some value })
                  (made_setup_key id ∷ []))
      unfolding attach_key create made_by key_of
      attach_key-cases host_group_id =
          let call =
            create_setup_key (dashed stack_name (str_append nbr.entrypoint_host_name "-host"))
              (host_group_id ∷ []) key_expiry_seconds in
          elim (Result-cases (created_key (service.reply s.steps call))) [
            | inr (e, failed) ↦ inl (
              e,
              unread_of (service.reply s.steps call) call,
              s.steps ++ called call ∷ [],
              unread_of-is_lost (service.reply s.steps call) call,
              ground (arith, failed),
            )
            | inl ((id, value), made) ↦
                let new = record nbr {
                  host_setup_key_id = some id;
                  host_setup_key_value = some value;
                } in
                inr (
                  id,
                  value,
                  (
                    s.steps ++ called call ∷ [] ++ queried ∷ [],
                    ground
                        (arith, made, saved new (made_by call (made_setup_key id ∷ [])) refl refl),
                  ),
                )
          ]

      pub attach_policy-cases :
          (host_group_id access_group_id : String)
          → Fails
              (attach_policy service stack_name key_expiry_seconds host_group_id access_group_id
                nbr)
              s
            ⊎ ((id : String) × Attaches
                  (attach_policy service stack_name key_expiry_seconds host_group_id access_group_id
                    nbr)
                  (record nbr { policy_id = some id })
                  (record nbr { policy_id = some id })
                  (made_policy id ∷ []))
      unfolding attach_policy create made_by
      attach_policy-cases host_group_id access_group_id =
          let call =
            create_policy (dashed stack_name (str_append nbr.entrypoint_host_name "-policy"))
              (access_group_id ∷ []) (host_group_id ∷ []) in
          elim (Result-cases (created_id (service.reply s.steps call))) [
            | inr (e, failed) ↦ inl (
              e,
              unread_of (service.reply s.steps call) call,
              s.steps ++ called call ∷ [],
              unread_of-is_lost (service.reply s.steps call) call,
              ground (arith, failed),
            )
            | inl (id, made) ↦
                let new = record nbr { policy_id = some id } in
                inr (
                  id,
                  (
                    s.steps ++ called call ∷ [] ++ queried ∷ [],
                    ground (arith, made, saved new (made_by call (made_policy id ∷ [])) refl refl),
                  ),
                )
          ]

      pub attach_routes-cases :
          (plain : (steps : List Step) (call : CreateCall)
            → plain_id (created_id (service.reply steps call)) ≡ true)
          (host_group_id access_group_id : String) (routes : List String)
          → Fails
              (attach_routes service stack_name key_expiry_seconds host_group_id access_group_id
                routes nbr)
              s
            ⊎ ((ids : List String) × (all is_plain ids ≡ true)
                × Attaches
                    (attach_routes service stack_name key_expiry_seconds host_group_id
                      access_group_id routes nbr)
                    (record nbr { route_ids = some (join ids); route_cidrs = some (join routes) })
                    (record nbr { route_ids = some (join ids); route_cidrs = some (join routes) })
                    (made_routes ids))
      unfolding attach_routes
      attach_routes-cases plain host_group_id access_group_id routes =
          elim (create_routes-cases plain nbr.entrypoint_host_name host_group_id access_group_id
            routes s) [
              | inl (e, lost, steps, is, failed) ↦ inl (e, lost, steps, is, ground (arith, failed))
              | inr (ids, steps, plain_ids, made) ↦
                  let new = record nbr {
                    route_ids = some (join ids);
                    route_cidrs = some (join routes);
                  } in
                  let t : ProvisionState = record s {
                    made = s.made ++ made_routes ids;
                    steps = steps;
                  } in
                  inr (
                    ids,
                    plain_ids,
                    (steps ++ queried ∷ [], ground (arith, made, saved new t refl refl)),
                  )
            ]
