-- ===== src/Service/Address.antt =====
-- internal/service/repository.go: `availableMailAddress`. `equal_fold` is strings.EqualFold.
use git2imap.Base.{
  ℕ, ◌-◌, ◌≤◌, ◌≡◌, ◌⊎◌, inl, inr, refl, Bool, true, false, not, List, [], ◌∷◌, ◌++◌, Text, codes,
  select, any, arith, length, take, length-append, length-take-le, ltb, ◌==◌, if◌then◌else◌,
  to_lower, Bool-cases, All,
}
use git2imap.Store.{Repository, Db}
use git2imap.Store.Repositories.{list_repositories}
use git2imap.Service.Slug.{project_slug, project_slug_lem}

abbrev pub mail_prefix : Text
mail_prefix = codes "git2imap+"

-- "-" and the first eight characters of the id without their dashes.
unfoldable pub suffix : Text → Text
suffix id = b'-' ∷ select (λ c. not (c == b'-')) (take 8 id)

-- The local part and the domain.
abbrev pub joined : Text → Text → Text
joined user host = user ++ b'@' ∷ host

abbrev clipped : ℕ → Text → Text
clipped n slug = if ltb n (length slug) then take n slug else slug

-- The local part of the address, given whether the plain one is taken.
unfoldable pub local_part : Bool → Text → Text → Text
local_part false slug id = mail_prefix ++ slug
local_part true slug id = mail_prefix ++ clipped (64 - 9 - length (suffix id)) slug ++ suffix id

module _ (unicode : ℕ → ℕ) (equal_fold : Text → Text → Bool) (host : Text) where
  unfoldable pub taken : Text → List Repository → Bool
  taken address repositories = any (λ r. equal_fold r.mail_username address) repositories

  -- availableMailAddress
  unfoldable pub available_mail_address : Text → Text → Db → Text
  available_mail_address name id db =
      let slug = project_slug unicode name in
      let low = to_lower unicode host in
      let used = taken (joined (mail_prefix ++ slug) low) (list_repositories db) in
      joined (local_part used slug id) low

length-select-le : (p : ℕ → Bool) (xs : Text) → length (select p xs) ≤ length xs
unfolding select
length-select-le p [] = omega arith
length-select-le p (x ∷ xs) = ground (arith, length-select-le p xs)

suffix-length : (id : Text) → length (suffix id) ≤ 9
unfolding suffix
suffix-length id =
    omega (arith, length-select-le (λ c. not (c == b'-')) (take 8 id), length-take-le 8 id)

clipped-length : (n : ℕ) (slug : Text) → length (clipped n slug) ≤ n
clipped-length n slug = ground (arith, length-take-le n slug)

local_part-length :
    (used : Bool) (slug id : Text) → length slug ≤ 48 → length (local_part used slug id) ≤ 64
unfolding local_part
local_part-length false slug id short = omega (arith, length-append mail_prefix slug)
local_part-length true slug id short =
    let n = 64 - 9 - length (suffix id) in
    omega (
      arith,
      length-append mail_prefix (clipped n slug ++ suffix id),
      length-append (clipped n slug) (suffix id),
      clipped-length n slug,
      suffix-length id,
    )

any-All :
    (p : Repository → Bool) (rs : List Repository) → any p rs ≡ false → All (λ r. p r ≡ false) rs
unfolding any
any-All p [] h = tt
any-All p (r ∷ rs) h = (ground arith, any-All p rs (ground arith))

module _ (unicode : ℕ → ℕ) (equal_fold : Text → Text → Bool) (host : Text) where
  -- The address for a new repository is at the configured host in lower case, and its local part
  -- has at most 64 characters. Either it is the plain address of the project and equals the address
  -- of no repository up to case, or the plain address is taken and it has the suffix of the id.
  pub available_mail_address_lem :
      (name id : Text) (db : Db)
      → let slug = project_slug unicode name in
        let low = to_lower unicode host in
        let plain = joined (mail_prefix ++ slug) low in
        let address = available_mail_address unicode equal_fold host name id db in
        (user : Text) × (address ≡ joined user low)
        × (length user ≤ 64)
        × (((address ≡ plain)
              × All (λ r. equal_fold r.mail_username address ≡ false) (list_repositories db))
            ⊎ ((any (λ r. equal_fold r.mail_username plain) (list_repositories db) ≡ true)
                × (user ≡ local_part true slug id)))
  unfolding available_mail_address taken
  available_mail_address_lem name id db =
      let slug = project_slug unicode name in
      let low = to_lower unicode host in
      let plain = joined (mail_prefix ++ slug) low in
      let same = λ (r : Repository). equal_fold r.mail_username plain in
      let (_, short, _) = project_slug_lem unicode name in
      elim (Bool-cases (any same (list_repositories db))) [
        | inl e ↦ (
          local_part true slug id,
          rw e refl,
          local_part-length true slug id short,
          inr (e, refl),
        )
        | inr e ↦ (
          local_part false slug id,
          rw e refl,
          local_part-length false slug id short,
          inl (
            rw e (unfold local_part in refl),
            rw e (unfold local_part in any-All same (list_repositories db) e),
          ),
        )
      ]
