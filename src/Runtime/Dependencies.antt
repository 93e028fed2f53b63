-- ===== src/Runtime/Dependencies.antt =====
-- `RuntimeDependencies` of internal/runtime/spec.go.
pub mod Exact
use Prim.Native.String.{String}
use cloudmeter.Common.{
  ℕ, Bool, true, false, not, Option, none, some, List, [], ◌∷◌, length, ltb, ◌==◌, if◌then◌else◌,
}
use cloudmeter.Runtime.Value.{
  Value, Spec, find, get, as_array, as_object, as_string, as_boolean, member,
}
use cloudmeter.Runtime.Patterns.{is_volume_key, is_uuid, is_service_slug}
use cloudmeter.Runtime.Result.{
  Result, ok, fail, ◌>>=◌, ◌>>◌, refuse, need, dependencies_not_array, dependencies_too_many,
  dependency_shape, dependency_fields, dependency_key, dependency_product, dependency_slug,
  dependency_required, dependency_key_duplicated, dependency_slug_duplicated,
}

pub record Dependency : Type 0 where
  pub key : String
  pub product_id : String
  pub service_slug : String
  pub required : Bool

-- A text that passes the test.
abbrev pub text_where : (String → Bool) → Value → Option String
text_where test v = elim (as_string v) [ none ↦ none | some s ↦ if test s then some s else none ]

-- One entry, before it is compared with the others.
unfoldable pub dependency : Value → Result Dependency
unfolding is_volume_key is_uuid is_service_slug
dependency v = do
  entry ← need (as_object v) dependency_shape
  refuse (not (length entry == 4)) dependency_fields
  key ← need (text_where is_volume_key (get "key" entry)) dependency_key
  product ← need (text_where is_uuid (get "productId" entry)) dependency_product
  slug ← need (text_where is_service_slug (get "serviceSlug" entry)) dependency_slug
  required ← need (as_boolean (get "required" entry)) dependency_required
  ok (record { key = key; product_id = product; service_slug = slug; required = required })

-- The loop: the keys and the services of the entries before are remembered.
unfoldable pub dependencies : List String → List String → List Value → Result (List Dependency)
unfolding dependency
dependencies keys services [] = ok []
dependencies keys services (v ∷ vs) = do
  d ← dependency v
  refuse (member d.key keys) dependency_key_duplicated
  refuse (member d.service_slug services) dependency_slug_duplicated
  ds ← dependencies (d.key ∷ keys) (d.service_slug ∷ services) vs
  ok (d ∷ ds)

unfoldable pub declared_dependencies : Option Value → Result (List Dependency)
unfolding dependencies
declared_dependencies none = ok []
declared_dependencies (some raw) = do
  values ← need (as_array raw) dependencies_not_array
  refuse (ltb 32 (length values)) dependencies_too_many
  dependencies [] [] values

unfoldable pub runtime_dependencies : Spec → Result (List Dependency)
unfolding declared_dependencies
runtime_dependencies spec = declared_dependencies (find "dependencies" spec)
