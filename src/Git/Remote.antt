-- ===== src/Git/Remote.antt =====
-- internal/gitbackend/git.go: `ValidateRemote`. The SCP pattern and url.Parse are parameters.
use git2imap.Base.{
  ℕ, ◌≡◌, ◌≢◌, ◌⊎◌, inl, inr, refl, Bool, true, false, not, ◌||◌, Option, none, some, [], ◌∷◌, Text,
  codes, beq, beq_iff, has_prefix, contains_any, trim_space, to_lower, arith, if◌then◌else◌,
  Bool-cases,
}

-- What the code reads of a url.URL; `user` tells whether there is user information.
pub record Url : Type 0 where
  pub scheme : Text
  pub host : Text
  pub user : Bool

pub data RemoteError : Type 0 where
  required invalid unsupported_syntax no_host credentials_in_url no_user_or_host : RemoteError
  unsupported_scheme : Text → RemoteError

module _ (unicode : ℕ → ℕ) (scp_pattern : Text → Bool) (parse : Text → Option Url) where
  abbrev is_http : Url → Bool
  is_http u =
      beq (to_lower unicode u.scheme) (codes "http")
      || beq (to_lower unicode u.scheme) (codes "https")

  abbrev is_ssh : Url → Bool
  is_ssh u = beq (to_lower unicode u.scheme) (codes "ssh")

  unfoldable pub validate_url : Option Url → Option RemoteError
  validate_url none = some unsupported_syntax
  validate_url (some u) =
      if beq u.scheme []
      then some unsupported_syntax
      else if is_http u
      then (if beq u.host []
          then some no_host
          else if u.user
          then some credentials_in_url
          else none)
      else if is_ssh u
      then (if beq u.host [] || not u.user then some no_user_or_host else none)
      else some (unsupported_scheme u.scheme)

  -- ValidateRemote; the result is the error.
  unfoldable pub validate_remote : Text → Option RemoteError
  validate_remote raw =
      let s = trim_space raw in
      if beq s []
      then some required
      else if has_prefix s (codes "-") || contains_any s (13 ∷ 10 ∷ 0 ∷ [])
      then some invalid
      else if scp_pattern s
      then none
      else validate_url (parse s)

  -- A remote that git may be given: a URL of one of three schemes with a host, and with user
  -- information only for SSH.
  abbrev pub Allowed : Url → Type 0
  Allowed u =
      (u.host ≢ [])
      × (((is_http u ≡ true) × (u.user ≡ false)) ⊎ ((is_ssh u ≡ true) × (u.user ≡ true)))

  validate_url_lem : (o : Option Url) → validate_url o ≡ none → (u : Url) × (o ≡ some u) × Allowed u
  unfolding validate_url
  validate_url_lem none h = cc
  validate_url_lem (some u) h =
      (u, refl, (ground (arith, beq_iff u.host []), ground (arith, beq_iff u.host [])))

  -- A remote that is accepted, once the white space around it is trimmed, cannot be read as an
  -- option of git and holds no line break and no NUL; and it matches the SCP pattern, or is an HTTP
  -- URL with a host and without credentials, or an SSH URL with a host and a user.
  pub validate_remote_lem :
      (raw : Text)
      → validate_remote raw ≡ none
      → (has_prefix (trim_space raw) (codes "-") ≡ false)
        × (contains_any (trim_space raw) (13 ∷ 10 ∷ 0 ∷ []) ≡ false)
        × ((scp_pattern (trim_space raw) ≡ true)
            ⊎ ((u : Url) × (parse (trim_space raw) ≡ some u) × Allowed u))
  unfolding validate_remote
  validate_remote_lem raw h =
      let s = trim_space raw in
      (
        ground (arith, h),
        ground (arith, h),
        elim (Bool-cases (scp_pattern s)) [
          | inl e ↦ inl e
          | inr e ↦ inr (validate_url_lem (parse s) (ground (arith, h, e)))
        ],
      )
