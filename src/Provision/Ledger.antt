-- ===== src/Provision/Ledger.antt =====
-- The rows of all entrypoints, and what they say of the objects that were made.
use backend_sandbox_service.Prelude.{
  ℕ, ◌≡◌, refl, sym, Bool, true, false, not, List, [], ◌∷◌, ◌++◌, append-nil, append_assoc, String,
  str_eq, eq_refl, eq_iff, all, arith, ◌&&◌,
}
use backend_sandbox_service.Errors.{Result, ok, err}
use backend_sandbox_service.Provision.{
  Resource, VpnEntrypoint, Service, ProvisionState, Step, Made, CreateCall, created_id, query,
  provision_single_entrypoint, append_created, pick_partial, provision_entrypoint,
  provision_entrypoints,
}
use backend_sandbox_service.Provision.Writes.{others, plain_id, is_lost}
use backend_sandbox_service.Provision.Recorded.{
  objects_of, lost_by, provision_single_entrypoint-Records,
}

-- The new rows, each with the objects that it does not name.
abbrev pub rows_of : List (Resource × List Made) → List Resource
rows_of [] = []
rows_of ((row, _) ∷ entries) = row ∷ rows_of entries

abbrev pub made_of : List (Resource × List Made) → List Made
made_of [] = []
made_of ((row, lost) ∷ entries) = objects_of row ++ lost ++ made_of entries

-- Each entry has the row of its entrypoint; what is missing in it are routes and, after them, at
-- most one object of a call whose reply was not read.
abbrev pub describe : List VpnEntrypoint → List (Resource × List Made) → Bool
describe [] [] = true
describe [] (_ ∷ _) = false
describe (_ ∷ _) [] = false
describe (ep ∷ eps) ((row, lost) ∷ entries) =
    str_eq row.entrypoint_host_name ep.name && (is_lost lost && describe eps entries)

-- No two entrypoints have one name.
abbrev pub distinct : List VpnEntrypoint → Bool
distinct [] = true
distinct (ep ∷ eps) = all (λ other. not (str_eq ep.name other.name)) eps && distinct eps

abbrev pub all_others : List VpnEntrypoint → List Resource → Bool
all_others eps rows = all (λ ep. others ep.name rows) eps

others-append :
    (name : String) (rows : List Resource) (row : Resource)
    → others name rows ≡ true
    → str_eq row.entrypoint_host_name name ≡ false
    → others name (rows ++ row ∷ []) ≡ true
others-append name [] row h e = ground arith
others-append name (first ∷ rows) row h e = ground (arith, others-append name rows row)

all_others-append :
    (name : String) (eps : List VpnEntrypoint) (rows : List Resource) (row : Resource)
    → all_others eps rows ≡ true
    → all (λ other. not (str_eq name other.name)) eps ≡ true
    → row.entrypoint_host_name ≡ name
    → all_others eps (rows ++ row ∷ []) ≡ true
all_others-append name [] rows row h d e = refl
all_others-append name (ep ∷ eps) rows row h d e = ground (
  arith,
  all_others-append name eps rows row,
  others-append ep.name rows row,
  eq_iff row.entrypoint_host_name ep.name,
  eq_iff name ep.name,
)

lost_by-is_lost :
    {A : Type 0} (r : Result A) (lost : List Made) → lost_by r lost ≡ true → is_lost lost ≡ true
lost_by-is_lost (ok _) [] h = refl
lost_by-is_lost (ok _) (_ ∷ _) h = ground arith
lost_by-is_lost (err _) lost h = h

module _ (service : Service) (stack_name : String) (key_expiry_seconds : ℕ)
    (there : (steps : List Step) → service.exists steps ≡ ok true)
    (plain : (steps : List Step) (call : CreateCall)
      → plain_id (created_id (service.reply steps call)) ≡ true)
    (access_group_id : String) where
  pick_partial-keeps :
      (host_name : String) (s : ProvisionState)
      → ((pick_partial service stack_name key_expiry_seconds host_name s).0 ≡ ok tt)
        × ((pick_partial service stack_name key_expiry_seconds host_name s).1.rows ≡ s.rows)
        × ((pick_partial service stack_name key_expiry_seconds host_name s).1.made ≡ s.made)
  unfolding pick_partial query append_created
  pick_partial-keeps host_name s = ground (arith, there s.steps)

  provision_entrypoint-row :
      (ep : VpnEntrypoint) (s : ProvisionState)
      → others ep.name s.rows ≡ true
      → (row : Resource) × (lost : List Made) × (row.entrypoint_host_name ≡ ep.name)
        × (is_lost lost ≡ true)
        × ((provision_entrypoint service stack_name key_expiry_seconds access_group_id ep s).0
            ≡ ok tt)
        × ((provision_entrypoint service stack_name key_expiry_seconds access_group_id ep s).1.rows
            ≡ s.rows ++ row ∷ [])
        × ((provision_entrypoint service stack_name key_expiry_seconds access_group_id ep s).1.made
            ≡ s.made ++ (objects_of row ++ lost))
  unfolding provision_entrypoint append_created
  provision_entrypoint-row ep s h =
      let (row, lost, name, rows, made, by) =
        provision_single_entrypoint-Records service stack_name key_expiry_seconds there plain
          access_group_id ep s h in
      (
        row,
        lost,
        name,
        lost_by-is_lost
            (provision_single_entrypoint service stack_name key_expiry_seconds access_group_id ep
              s).0
            lost by,
        ground (
          arith,
          pick_partial-keeps ep.name
              (provision_single_entrypoint service stack_name key_expiry_seconds access_group_id ep
                s).1,
        ),
        ground (
          arith,
          rows,
          pick_partial-keeps ep.name
              (provision_single_entrypoint service stack_name key_expiry_seconds access_group_id ep
                s).1,
        ),
        ground (
          arith,
          made,
          pick_partial-keeps ep.name
              (provision_single_entrypoint service stack_name key_expiry_seconds access_group_id ep
                s).1,
        ),
      )

  -- Where the sandbox is there all along, the entrypoints have names of their own and no rows yet,
  -- and the service gives identifiers that are not empty and hold no comma: the loop over the
  -- entrypoints returns, each of them gets one row, and the objects that were made are those that
  -- the rows name, in order, and besides for each entrypoint at most routes and, after them, what one
  -- call may have made whose reply did not come or could not be read, whatever calls fail.
  pub provision_entrypoints-describe :
      (eps : List VpnEntrypoint) (s : ProvisionState)
      → distinct eps ≡ true
      → all_others eps s.rows ≡ true
      → (entries : List (Resource × List Made)) × (describe eps entries ≡ true)
        × ((provision_entrypoints service stack_name key_expiry_seconds access_group_id eps s).0
            ≡ ok tt)
        × ((provision_entrypoints service stack_name key_expiry_seconds access_group_id eps
              s).1.rows
            ≡ s.rows ++ rows_of entries)
        × ((provision_entrypoints service stack_name key_expiry_seconds access_group_id eps
              s).1.made
            ≡ s.made ++ made_of entries)
  unfolding provision_entrypoints
  provision_entrypoints-describe [] s d h =
      ([], refl, refl, sym (append-nil s.rows), sym (append-nil s.made))
  provision_entrypoints-describe (ep ∷ eps) s d h =
      let t = (provision_entrypoint service stack_name key_expiry_seconds access_group_id ep s).1 in
      let (row, lost, name, routes, done, rows, made) =
        provision_entrypoint-row ep s (ground arith) in
      let (entries, described, done', rows', made') =
        provision_entrypoints-describe eps t (ground arith)
          (ground (arith, rows, all_others-append ep.name eps s.rows row)) in
      (
        (row, lost) ∷ entries,
        ground (arith, routes, described, name, eq_refl ep.name),
        ground (arith, done, done'),
        ground (arith, done, rows', rows, append_assoc s.rows (row ∷ []) (rows_of entries)),
        ground (
          arith,
          done,
          made',
          made,
          append_assoc s.made (objects_of row ++ lost) (made_of entries),
        ),
      )
