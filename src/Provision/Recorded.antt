-- ===== src/Provision/Recorded.antt =====
-- The objects that the provisioning of an entrypoint has made: those that its row names, and those lost.
use mathlib.Core.Path.{subst}
use backend_sandbox_service.Prelude.{
  ℕ, ◌≡◌, refl, sym, Bool, true, false, Option, none, some, List, [], ◌∷◌, ◌++◌, append-nil,
  append_assoc, String, all, arith, inl, inr,
}
use backend_sandbox_service.Errors.{Result, ok, err, ◌>>=◌}
use backend_sandbox_service.Provision.{
  Resource, VpnEntrypoint, new_row, join, get_list, Service, ProvisionState, Step, Made, CreateCall,
  created_id, made_group, made_setup_key, made_policy, queried, provision_single_entrypoint,
  attach_routes, attach_policy,
}
use backend_sandbox_service.Provision.RouteLists.{is_plain, get_list-join}
use backend_sandbox_service.Provision.Writes.{
  others, plain_id, made_routes, is_lost, get_or_create_row-others, attach_group-cases,
  attach_key-cases, attach_routes-cases, attach_policy-cases,
}

abbrev pub named : (String → Made) → Option String → List Made
named made none = []
named made (some id) = made id ∷ []

-- The objects that a row names, in the order in which they are made.
unfoldable pub objects_of : Resource → List Made
unfolding made_routes
objects_of row =
    named made_group row.host_group_id
    ++ named made_setup_key row.host_setup_key_id
    ++ made_routes (get_list row.route_ids)
    ++ named made_policy row.policy_id

-- What is in no row: nothing after a run that returned, and after an exception routes and the object
-- of one call whose reply was not read, at most.
abbrev pub lost_by : {A : Type 0} → Result A → List Made → Bool
lost_by (ok _) [] = true
lost_by (ok _) (_ ∷ _) = false
lost_by (err _) lost = is_lost lost

objects_of-none :
    (row : Resource)
    → row.route_ids ≡ none
    → objects_of row
      ≡ named made_group row.host_group_id
        ++ named made_setup_key row.host_setup_key_id
        ++ named made_policy row.policy_id
unfolding objects_of get_list
objects_of-none row e = ground (
  arith,
  e,
  append-nil (named made_group row.host_group_id ++ named made_setup_key row.host_setup_key_id),
)

objects_of-join :
    (row : Resource) (ids : List String)
    → all is_plain ids ≡ true
    → row.route_ids ≡ some (join ids)
    → objects_of row
      ≡ named made_group row.host_group_id
        ++ named made_setup_key row.host_setup_key_id
        ++ made_routes ids
        ++ named made_policy row.policy_id
unfolding objects_of
objects_of-join row ids h e = rw (e, get_list-join ids h) refl

-- After a run from a state, one row is new, and the new objects are its objects and those lost.
abbrev pub Records : {A : Type 0} → String → Result A × ProvisionState → ProvisionState → Type 0
Records host_name r s =
    (row : Resource) × (lost : List Made) × (row.entrypoint_host_name ≡ host_name)
    × (r.1.rows ≡ s.rows ++ row ∷ [])
    × (r.1.made ≡ s.made ++ (objects_of row ++ lost))
    × (lost_by r.0 lost ≡ true)

module _ (service : Service) (stack_name : String) (key_expiry_seconds : ℕ)
    (there : (steps : List Step) → service.exists steps ≡ ok true)
    (plain : (steps : List Step) (call : CreateCall)
      → plain_id (created_id (service.reply steps call)) ≡ true) where
  module _ (access_group_id : String) (ep : VpnEntrypoint) (s : ProvisionState)
      (h : others ep.name s.rows ≡ true) where
    -- The state after parts that returned, with the row and the objects they left.
    reached : Resource → List Made → List Step → ProvisionState
    reached row made steps = record s { rows = s.rows ++ row ∷ []; made = made; steps = steps }

    row_g : String → Resource
    row_g g = record (new_row ep.name) { host_group_id = some g }

    row_k : String → String → String → Resource
    row_k g k v = record (row_g g) { host_setup_key_id = some k; host_setup_key_value = some v }

    row_r : String → String → String → List String → Resource
    row_r g k v ids = record (row_k g k v) {
      route_ids = some (join ids);
      route_cidrs = some (join ep.routes);
    }

    -- The routes and the policy, once the row has its group and key.
    routed-Records :
        (g k v : String) (steps : List Step)
        → Records ep.name
            ((attach_routes service stack_name key_expiry_seconds g access_group_id ep.routes
                  (row_k g k v)
                >>= attach_policy service stack_name key_expiry_seconds g access_group_id)
              (reached (row_k g k v) (s.made ++ made_group g ∷ [] ++ made_setup_key k ∷ []) steps))
            s
    unfolding new_row reached row_g row_k row_r
    routed-Records g k v steps =
        let made2 = s.made ++ made_group g ∷ [] ++ made_setup_key k ∷ [] in
        let s2 = reached (row_k g k v) made2 steps in
        let group_key = append_assoc s.made (made_group g ∷ []) (made_setup_key k ∷ []) in
        elim (attach_routes-cases service there stack_name key_expiry_seconds s.rows (row_k g k v)
          s2 h refl plain g access_group_id ep.routes) [
            | inl (e, lost, steps3, is, e3) ↦ (
              row_k g k v,
              lost,
              refl,
              ground (arith, e3),
              ground (
                arith,
                e3,
                objects_of-none (row_k g k v) refl,
                group_key,
                append_assoc s.made (made_group g ∷ made_setup_key k ∷ []) lost,
              ),
              ground (arith, e3, is),
            )
            | inr (ids, plain_ids, (steps3, e3)) ↦
                let s3 = reached (row_r g k v ids) (made2 ++ made_routes ids) steps3 in
                elim (attach_policy-cases service there stack_name key_expiry_seconds s.rows
                  (row_r g k v ids) s3 h refl g access_group_id) [
                    | inl (e, lost, steps4, is, e4) ↦ (
                      row_r g k v ids,
                      lost,
                      refl,
                      ground (arith, e3, e4),
                      ground (
                        arith,
                        e3,
                        e4,
                        objects_of-join (row_r g k v ids) ids plain_ids refl,
                        group_key,
                        append_assoc made2 (made_routes ids) lost,
                        append_assoc s.made (made_group g ∷ made_setup_key k ∷ [])
                            (made_routes ids ++ lost),
                        append-nil (made_routes ids),
                      ),
                      ground (arith, e3, e4, is),
                    )
                    | inr (p, (steps4, e4)) ↦ (
                      record (row_r g k v ids) { policy_id = some p },
                      [],
                      refl,
                      ground (arith, e3, e4),
                      ground (
                        arith,
                        e3,
                        e4,
                        objects_of-join (record (row_r g k v ids) { policy_id = some p }) ids
                            plain_ids refl,
                        group_key,
                        append_assoc made2 (made_routes ids) (made_policy p ∷ []),
                        append_assoc s.made (made_group g ∷ made_setup_key k ∷ [])
                            (made_routes ids ++ made_policy p ∷ []),
                        append-nil (made_routes ids ++ made_policy p ∷ []),
                      ),
                      ground (arith, e3, e4),
                    )
                  ]
          ]

    pub provision_single_entrypoint-Records :
        Records ep.name
          (provision_single_entrypoint service stack_name key_expiry_seconds access_group_id ep s)
          s
    unfolding provision_single_entrypoint new_row reached row_g row_k row_r
    provision_single_entrypoint-Records =
        let e0 = get_or_create_row-others service there stack_name key_expiry_seconds ep.name s h in
        let s0 = reached (new_row ep.name) s.made (s.steps ++ queried ∷ []) in
        elim (attach_group-cases service there stack_name key_expiry_seconds s.rows
          (new_row ep.name) s0 h refl) [
            | inl (e, lost, steps, is, e1) ↦ (
              new_row ep.name,
              lost,
              refl,
              ground (arith, e0, e1),
              ground (arith, e0, e1, objects_of-none (new_row ep.name) refl),
              ground (arith, e0, e1, is),
            )
            | inr (g, (steps1, e1)) ↦
                let s1 = reached (row_g g) (s.made ++ made_group g ∷ []) steps1 in
                elim (attach_key-cases service there stack_name key_expiry_seconds s.rows (row_g g)
                  s1 h refl g) [
                    | inl (e, lost, steps, is, e2) ↦ (
                      row_g g,
                      lost,
                      refl,
                      ground (arith, e0, e1, e2),
                      ground (
                        arith,
                        e0,
                        e1,
                        e2,
                        objects_of-none (row_g g) refl,
                        append_assoc s.made (made_group g ∷ []) lost,
                      ),
                      ground (arith, e0, e1, e2, is),
                    )
                    | inr (k, v, (steps2, e2)) ↦
                        let same : provision_single_entrypoint service stack_name key_expiry_seconds
                              access_group_id ep s
                            ≡ (attach_routes service stack_name key_expiry_seconds g access_group_id
                                    ep.routes (row_k g k v)
                                  >>= attach_policy service stack_name key_expiry_seconds g
                                      access_group_id)
                                (reached (row_k g k v)
                                  (s.made ++ made_group g ∷ [] ++ made_setup_key k ∷ []) steps2) =
                          ground (arith, e0, e1, e2) in
                        subst (λ (r : Result Resource × ProvisionState). Records ep.name r s)
                          (sym same) (routed-Records g k v steps2)
                  ]
          ]
