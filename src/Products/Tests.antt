-- ===== src/Products/Tests.antt =====
-- The results at concrete requests.
use Prim.Native.String.{String, count}
use cloudmeter.Common.{◌≤◌, ◌≡◌, ◌⊎◌, refl, true, false, Option, none, some, [], ◌∷◌}
use cloudmeter.Common.Text.{trim_space, is_empty}
use cloudmeter.Common.Tx.{transact}
use cloudmeter.Products.Access.{
  AccessRequest, AccessPolicy, HashOf, no_password, resolve_app_access_policy_lem,
  resolve_app_access_policy,
}
use cloudmeter.Products.Versions.{
  Store, Found, find_version, tombstoned, delete_product_version, delete_product_version-effect,
}

abbrev bcrypt : String → Option String
bcrypt _ = some "h"

abbrev request : AccessRequest
request = record { password_enabled = true; username = " ann "; password = "long enough" }

abbrev policy : AccessPolicy
policy = record { enabled = true; username = "ann"; hash = "h" }

resolve_app_access_policy_lem_example :
    ((true ≡ false) × (policy ≡ no_password))
    ⊎ ((true ≡ true)
        × (true ≡ true)
        × ("ann" ≡ trim_space " ann ")
        × (is_empty "ann" ≡ false)
        × (count "ann" ≤ 64)
        × (is_empty "h" ≡ false)
        × HashOf bcrypt "long enough" "" "h")
unfolding resolve_app_access_policy
resolve_app_access_policy_lem_example =
    resolve_app_access_policy_lem bcrypt request no_password policy refl

abbrev catalog : Store
catalog = record {
  products = (1, "app") ∷ [];
  versions = (2, record { product = 1; deleted_at = none }) ∷ [];
  releases = (5, 2) ∷ [];
  tests = [];
  audits = [];
}

delete_product_version-effect_example :
    let d' = (transact (delete_product_version true 9 100 1 2) (λ _. false) catalog).1 in
    (d' ≡ catalog)
    ⊎ ((f : Found) × (find_version 1 2 catalog ≡ some f)
        × (f.deleted_at ≡ none)
        × (f.active_tests ≡ 0)
        × (d' ≡ tombstoned 9 100 1 2 f catalog))
delete_product_version-effect_example =
    delete_product_version-effect true 9 100 1 2 (λ _. false) catalog
