-- ===== src/Runtime/Names.antt =====
-- The names of networks, volumes and helper containers, of internal/runtime/spec.go. SHA-256 is not
-- computed here: `digest` stands for the hexadecimal digits of the first five bytes of the digest of a
-- text.
pub mod Apart
use Prim.Native.Char.{Char, code}
use Prim.Native.String.{String, [], ◌∷◌}
use text.Mathlib.Text.{◌==◌ as same}
use cloudmeter.Common.{ℕ, zero, suc, Bool, true, false, not, ◌&&◌, ◌||◌, leb, ◌==◌, if◌then◌else◌}
use cloudmeter.Common.Text.{is_empty, trim_space}
use cloudmeter.Runtime.Patterns.{equal_fold, char_count}
use cloudmeter.Runtime.Patterns.Parts.{append}

-- strings.ReplaceAll(s, "-", "").
unfoldable pub without_dashes : String → String
without_dashes [] = []
without_dashes (c ∷ s) = if code c == b'-' then without_dashes s else c ∷ without_dashes s

-- `s[:n]`, the whole text where it is shorter. An application id is a UUID, one byte a character.
abbrev pub first : ℕ → String → String
first zero s = []
first (suc n) [] = []
first (suc n) (c ∷ s) = c ∷ first n s

-- The id of an application in the names of its volumes: the first 20 digits.
unfoldable pub compact : String → String
unfolding without_dashes
compact app_id = first 20 (without_dashes app_id)

-- strings.HasSuffix.
unfoldable pub has_suffix : String → String → Bool
has_suffix part [] = is_empty part
has_suffix part (c ∷ s) = same part (c ∷ s) || has_suffix part s

unfoldable pub app_volume_name : String → String → String
unfolding compact
app_volume_name app_id key = append "cmv-" (append (compact app_id) (append "-" key))

unfoldable pub uses_legacy_resource_names : String → Bool
unfolding trim_space equal_fold
uses_legacy_resource_names owner =
    let o = trim_space owner in is_empty o || equal_fold o "cloudmeter"

module _ (digest : String → String) where
  unfoldable pub resource_scope_token : String → String
  unfolding trim_space
  resource_scope_token owner =
      let o = trim_space owner in digest (if is_empty o then "cloudmeter" else o)

  unfoldable pub user_network_name : String → String → String
  unfolding uses_legacy_resource_names resource_scope_token
  user_network_name owner user_id =
      if uses_legacy_resource_names owner
      then append "user_net_" user_id
      else append "user_net_" (append (resource_scope_token owner) (append "-" user_id))

  unfoldable pub app_volume_name_for_owner : String → String → String → String
  unfolding uses_legacy_resource_names resource_scope_token compact app_volume_name
  app_volume_name_for_owner owner app_id key =
      if uses_legacy_resource_names owner
      then app_volume_name app_id key
      else append "cmv-" (
          append (resource_scope_token owner)
            (append "-" (append (compact app_id) (append "-" key))))

  unfoldable pub backup_volume_name : String → String → String
  unfolding trim_space uses_legacy_resource_names resource_scope_token has_suffix
  backup_volume_name owner configured =
      let trimmed = trim_space configured in
      let name : String = if is_empty trimmed then "cloudmeter_backup_data" else trimmed in
      let scope = resource_scope_token owner in
      if uses_legacy_resource_names owner
      then name
      else if same name "cloudmeter_backup_data"
      then append "cloudmeter_backup_" scope
      else if has_suffix (append "-" scope) name || has_suffix (append "_" scope) name
      then name
      else append name (append "-" scope)

  unfoldable pub helper_container_name : String → String → String → String
  unfolding trim_space resource_scope_token
  helper_container_name owner kind job_id =
      if is_empty (trim_space owner)
      then append "cm-" (append kind (append "-" job_id))
      else append "cm-"
          (append kind (append "-" (append (resource_scope_token owner) (append "-" job_id))))
