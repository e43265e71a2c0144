-- ===== src/Outputs.antt =====
-- The outputs of a stage, as they are given out piece by piece:
-- crczp/sandbox_common_lib/log_output_mixin.py.
use backend_sandbox_service.Prelude.{
  ℕ, Bool, true, false, Option, none, some, List, [], ◌∷◌, String, str_append, ltb, leb, ◌==◌, ◌&&◌,
  ◌||◌, filter, if◌then◌else◌,
}
use Prim.Native.Char.{code}
pub mod Polling

-- A row of an output, of Terraform or Ansible.
pub record Output : Type 0 where
  pub id : ℕ
  pub content : String

-- The data of the response.
pub record OutputsResponse : Type 0 where
  pub content : String
  pub rows : ℕ

-- `order_by('id')`
unfoldable pub insert_output : Output → List Output → List Output
insert_output x [] = x ∷ []
insert_output x (y ∷ ys) =
    let rest = insert_output x ys in if leb x.id y.id then x ∷ y ∷ ys else y ∷ rest

unfoldable pub order_outputs : List Output → List Output
unfolding insert_output
order_outputs [] = []
order_outputs (x ∷ xs) = insert_output x (order_outputs xs)

-- `outputs_queryset.filter(id__gt=from_row).order_by('id')`
unfoldable pub outputs_after : ℕ → List Output → List Output
unfolding order_outputs
outputs_after from_row outputs = order_outputs (filter (λ o. ltb from_row o.id) outputs)

-- `'\n'.join(content_lines) if content_lines else ''`
unfoldable pub join_lines : List Output → String
join_lines [] = ""
join_lines (x ∷ []) = x.content
join_lines (x ∷ y ∷ outputs) = str_append x.content (str_append "\n" (join_lines (y ∷ outputs)))

-- The white space of `str.lstrip`, by code points.
unfoldable pub is_space : ℕ → Bool
is_space c =
    (leb 9 c && leb c 13 || leb 28 c && leb c 32)
    || (c == 133 || c == 160 || c == 5760 || leb 8192 c && leb c 8202)
    || (c == 8232 || c == 8233 || c == 8239 || c == 8287 || c == 12288)

unfoldable pub lstrip : String → String
unfolding is_space
lstrip String.[] = ""
lstrip (String.◌∷◌ c s) = let rest = lstrip s in if is_space (code c) then rest else String.◌∷◌ c s

-- `last_output.id`, or what stands for it.
unfoldable pub last_id : ℕ → List Output → ℕ
last_id from_row [] = from_row
last_id from_row (x ∷ outputs) = last_id x.id outputs

-- `create_outputs_response`, before it is compressed.
unfoldable pub create_outputs_response : List Output → ℕ → OutputsResponse
unfolding outputs_after join_lines lstrip last_id
create_outputs_response outputs_queryset from_row =
    let outputs = outputs_after from_row outputs_queryset in
    let content = join_lines outputs in
    record {
      content = if from_row == 0 then lstrip content else content;
      rows = last_id from_row outputs;
    }
