-- ===== src/Products/Access.antt =====
-- `resolveAppAccessPolicy` of internal/httpapi/app_access_policy.go: the password in front of an app.
-- bcrypt is a parameter.
use Prim.Native.String.{String, count, len}
use cloudmeter.Common.{
  ◌≤◌, ◌≡◌, ◌⊎◌, inl, inr, Bool, true, false, ◌||◌, not, Option, none, some, ltb, if◌then◌else◌,
  arith, Option-cases,
}
use cloudmeter.Common.Text.{trim_space, is_empty}

pub record AccessRequest : Type 0 where
  pub password_enabled : Bool
  pub username : String
  pub password : String

pub record AccessPolicy : Type 0 where
  pub enabled : Bool
  pub username : String
  pub hash : String

-- The policy that is stored, or the reason why there is none.
pub data Resolved : Type 0 where
  resolved : AccessPolicy → Resolved
  rejected : (reason : String) → Resolved

abbrev pub no_password : AccessPolicy
no_password = record { enabled = false; username = ""; hash = "" }

module _ (hash_password : String → Option String) where
  -- The hash of a new password, or the one that was stored.
  unfoldable pub choose_hash : String → String → (String → Resolved) → Resolved
  choose_hash password old proceed =
      if is_empty password
      then proceed old
      else if ltb (len password) 8
      then rejected "密码访问的密码至少需要 8 个字符"
      else if ltb 72 (len password)
      then rejected "密码访问的密码不能超过 72 字节"
      else elim (hash_password password) [ none ↦ rejected "bcrypt failed" | some h ↦ proceed h ]

  abbrev pub enable : String → String → Resolved
  enable username hash =
      if is_empty hash
      then rejected "首次开启密码访问时必须设置密码"
      else resolved (record { enabled = true; username = username; hash = hash })

  unfoldable pub resolve_app_access_policy : Option AccessRequest → AccessPolicy → Resolved
  unfolding choose_hash trim_space
  resolve_app_access_policy none current = resolved current
  resolve_app_access_policy (some r) current =
      let username = trim_space r.username in
      if not r.password_enabled
      then resolved no_password
      else if is_empty username || ltb 64 (count username)
      then rejected "密码访问用户名必须为 1 到 64 个字符"
      else choose_hash r.password current.hash (enable username)

  -- The hash of a policy comes from where it should: the old one for an empty password, bcrypt for a
  -- password of 8 to 72 bytes.
  abbrev pub HashOf : String → String → String → Type 0
  HashOf password old hash =
      ((is_empty password ≡ true) × (hash ≡ old))
      ⊎ ((is_empty password ≡ false)
          × (8 ≤ len password)
          × (len password ≤ 72)
          × (hash_password password ≡ some hash))

  -- A request that is accepted turns the password off, or stores a user name of 1 to 64 characters and
  -- a hash that is not empty: the old one where the request has no password, and else the one of a
  -- password of 8 to 72 bytes.
  pub resolve_app_access_policy_lem :
      (r : AccessRequest) (current p : AccessPolicy)
      → resolve_app_access_policy (some r) current ≡ resolved p
      → ((r.password_enabled ≡ false) × (p ≡ no_password))
        ⊎ ((r.password_enabled ≡ true)
            × (p.enabled ≡ true)
            × (p.username ≡ trim_space r.username)
            × (is_empty p.username ≡ false)
            × (count p.username ≤ 64)
            × (is_empty p.hash ≡ false)
            × HashOf r.password current.hash p.hash)
  unfolding resolve_app_access_policy
  resolve_app_access_policy_lem r current p h = elim (Option-cases (hash_password r.password)) [
    | inl e ↦ ground (arith, h, e)
    | inr (x, e) ↦ ground (arith, h, e)
  ]
