-- ===== src/EmailPolicy/Allowed.antt =====
-- The addresses that `validatePolicyEmail` of internal/httpapi/email_policy.go accepts.
use Prim.Native.String.{String}
use text.Mathlib.Text.{◌==◌ as same}
use text.Mathlib.TextEquality.{eq_iff}
use cloudmeter.Common.{
  ◌≡◌, ◌⊎◌, ◌↔◌, refl, sym, ap, ◌∙◌, inl, inr, Bool, true, false, Option, some, List, [], ◌∷◌,
  Bool-cases, Option-cases, arith,
}
use cloudmeter.Common.Text.{trim_space, is_empty, split}
use cloudmeter.Runtime.Patterns.{contains}
use cloudmeter.Runtime.Patterns.Parts.{append}
use cloudmeter.Runtime.Names.{has_suffix}
use cloudmeter.EmailPolicy.{accepted, admits, is_admitted, is_refused, judge, validate_policy_email}

module _ (to_lower : String → String) where
  -- An entry of the whitelist that is the domain or a parent of it.
  pub data Admits (domain : String) : List String → Type 0 where
    here :
        {raw : String} {items : List String}
        → is_empty (to_lower (trim_space raw)) ≡ false
        → (domain ≡ to_lower (trim_space raw))
          ⊎ (has_suffix (append "." (to_lower (trim_space raw))) domain ≡ true)
        → Admits domain (raw ∷ items)
    there : {raw : String} {items : List String} → Admits domain items → Admits domain (raw ∷ items)

  -- The two parts of an address keep to the policy.
  pub record IsWithin (whitelist : List String) (block_aliases : Bool) (user domain : String)
      : Type 0 where
    pub has_user : is_empty user ≡ false
    pub has_domain : is_empty domain ≡ false
    pub no_alias :
        (block_aliases ≡ false) ⊎ ((contains "+" user ≡ false) × (contains "." user ≡ false))
    pub admitted : (whitelist ≡ []) ⊎ Admits domain whitelist

  pub record IsAllowed (parse_address : String → Option String) (raw : String)
      (whitelist : List String) (block_aliases : Bool) (email : String) : Type 0 where
    pub user : String
    pub domain : String
    pub normal : to_lower (trim_space raw) ≡ email
    pub parses : parse_address email ≡ some email
    pub parts : split b'@' email ≡ user ∷ domain ∷ []
    pub within : IsWithin whitelist block_aliases user domain

  is_admitted-Admits :
      (domain : String) (items : List String)
      → is_admitted to_lower domain items ≡ true
      → Admits domain items
  unfolding is_admitted
  is_admitted-Admits domain [] h = cc
  is_admitted-Admits domain (raw ∷ items) h =
      let item = to_lower (trim_space raw) in
      elim (Bool-cases (admits to_lower domain item)) [
        | inr e ↦ Admits.there (is_admitted-Admits domain items (ground arith))
        | inl e ↦ elim (Bool-cases (same domain item)) [
          | inl f ↦ Admits.here (ground arith) (inl (ground (arith, eq_iff domain item)))
          | inr f ↦ Admits.here (ground arith) (inr (ground arith))
        ]
      ]

  Admits-is_admitted :
      (domain : String) (items : List String)
      → Admits domain items
      → is_admitted to_lower domain items ≡ true
  unfolding is_admitted
  Admits-is_admitted domain [] a = elim a [ ]
  Admits-is_admitted domain (raw ∷ items) (Admits.here e (inl f)) =
      ground (arith, e, f, eq_iff domain (to_lower (trim_space raw)))
  Admits-is_admitted domain (raw ∷ items) (Admits.here e (inr f)) = ground (arith, e, f)
  Admits-is_admitted domain (raw ∷ items) (Admits.there a) =
      ground (arith, Admits-is_admitted domain items a)

  is_refused_iff :
      (domain : String) (whitelist : List String)
      → (is_refused to_lower domain whitelist ≡ false)
        ↔ ((whitelist ≡ []) ⊎ Admits domain whitelist)
  is_refused_iff domain [] = ((λ _. inl refl), (λ _. refl))
  is_refused_iff domain (item ∷ items) = (
    (λ h. inr (is_admitted-Admits domain (item ∷ items) (ground arith))),
    (λ h. elim h [
      | inl e ↦ cc
      | inr a ↦ ground (arith, Admits-is_admitted domain (item ∷ items) a)
    ]),
  )

  module _ (whitelist : List String) (block_aliases : Bool) where
    judge_parts :
        (email user domain : String)
        → judge to_lower whitelist block_aliases email (user ∷ domain ∷ []) ≡ accepted email
        → IsWithin whitelist block_aliases user domain
    unfolding judge
    judge_parts email user domain h = record {
      has_user = ground arith;
      has_domain = ground arith;
      no_alias = elim (Bool-cases block_aliases) [
        | inl b ↦ inr (ground arith, ground arith)
        | inr b ↦ inl b
      ];
      admitted = (is_refused_iff domain whitelist).0 (ground arith);
    }

    IsWithin-judge :
        (email user domain : String)
        → IsWithin whitelist block_aliases user domain
        → judge to_lower whitelist block_aliases email (user ∷ domain ∷ []) ≡ accepted email
    unfolding judge
    IsWithin-judge email user domain w =
        let passes = (is_refused_iff domain whitelist).1 w.admitted in
        ground (arith, w.has_user, w.has_domain, w.no_alias, passes)

    judge-accepted :
        (email : String) (parts : List String) (e : String)
        → judge to_lower whitelist block_aliases email parts ≡ accepted e
        → (email ≡ e)
          × (user : String) × (domain : String) × (parts ≡ user ∷ domain ∷ [])
          × IsWithin whitelist block_aliases user domain
    unfolding judge
    judge-accepted email [] e h = cc
    judge-accepted email (user ∷ []) e h = cc
    judge-accepted email (user ∷ domain ∷ []) e h =
        (ground arith, user, domain, refl, judge_parts email user domain (ground arith))
    judge-accepted email (user ∷ domain ∷ more ∷ rest) e h = cc

  module _ (parse_address : String → Option String) (raw : String) (whitelist : List String)
      (block_aliases : Bool) (email : String) where
    accepted-IsAllowed :
        validate_policy_email to_lower parse_address raw whitelist block_aliases ≡ accepted email
        → IsAllowed parse_address raw whitelist block_aliases email
    unfolding validate_policy_email
    accepted-IsAllowed h =
        let mail = to_lower (trim_space raw) in
        elim (Option-cases (parse_address mail)) [
          | inl e ↦ ground arith
          | inr (address, e) ↦ elim (Bool-cases (same address mail)) [
            | inr f ↦ ground arith
            | inl f ↦
                let (normal, user, domain, parts, within) =
                  judge-accepted whitelist block_aliases mail (split b'@' mail) email
                    (ground arith) in
                record {
                  user = user;
                  domain = domain;
                  normal = normal;
                  parses = ground (arith, eq_iff address mail);
                  parts = ap (split b'@') (sym normal) ∙ parts;
                  within = within;
                }
          ]
        ]

    IsAllowed-accepted :
        IsAllowed parse_address raw whitelist block_aliases email
        → validate_policy_email to_lower parse_address raw whitelist block_aliases ≡ accepted email
    unfolding validate_policy_email
    IsAllowed-accepted a =
        let judged = IsWithin-judge whitelist block_aliases email a.user a.domain a.within in
        ground (arith, a.normal, a.parses, a.parts, judged, eq_iff email email)

    -- An address is accepted exactly when it is the trimmed text in small letters, it is the address
    -- that it parses to, it has one @ with text on both sides, its user has neither + nor . where
    -- aliases are blocked, and a whitelist that is not empty has its domain or a parent of it.
    pub validate_policy_email_iff :
        (validate_policy_email to_lower parse_address raw whitelist block_aliases ≡ accepted email)
        ↔ IsAllowed parse_address raw whitelist block_aliases email
    validate_policy_email_iff = (accepted-IsAllowed, IsAllowed-accepted)
