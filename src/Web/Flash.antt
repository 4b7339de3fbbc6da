-- ===== src/Web/Flash.antt =====
-- internal/web/server.go: `setFlash` and `popFlash`, messages that are shown once.
use git2imap.Base.{
  ℕ, ◌+◌, ◌*◌, ◌≡◌, ◌≢◌, Bool, Option, none, some, Text, beq, beq_iff, beq_refl, ltb, if◌then◌else◌,
  arith,
}
use git2imap.Store.{Db}
use git2imap.Web.{FlashData, Request, Server, second}
use git2imap.Web.Access.{session}

abbrev pub lifetime : ℕ
lifetime = 300 * second

abbrev expired : ℕ → FlashData → Bool
expired now f = ltb f.expires_at now

-- The loop over the map: what has expired is deleted.
abbrev pub keep_fresh : ℕ → Option FlashData → Option FlashData
keep_fresh now none = none
keep_fresh now (some f) = if expired now f then none else some f

unfoldable pub put_flash : ℕ → Text → FlashData → Server → Server
put_flash now key flash s = record s {
  flashes = λ k.
      if beq k key
      then some (record flash { expires_at = now + lifetime })
      else keep_fresh now (s.flashes k);
}

abbrev pub unless_expired : ℕ → Option FlashData → Option FlashData
unless_expired now none = none
unless_expired now (some f) = if expired now f then none else some f

unfoldable pub take_flash : ℕ → Text → Server → Option FlashData × Server
take_flash now key s = (
  unless_expired now (s.flashes key),
  record s { flashes = λ k. if beq k key then none else s.flashes k },
)

module _ (token_hash : Text → Text) where
  -- setFlash
  unfoldable pub set_flash : ℕ → Request → FlashData → Db → Server → Server
  unfolding put_flash session
  set_flash now r flash db s = elim (session token_hash now r db) [
    | none ↦ s
    | some sess ↦ put_flash now sess.id flash s
  ]

  -- popFlash
  unfoldable pub pop_flash : ℕ → Request → Db → Server → Option FlashData × Server
  unfolding take_flash session
  pop_flash now r db s = elim (session token_hash now r db) [
    | none ↦ (none, s)
    | some sess ↦ take_flash now sess.id s
  ]

-- A flash is shown to the session that it was set for, within five minutes of the server's clock
-- and once only, and no other session is shown it.
pub take_flash-put_flash :
    (set_at now later : ℕ) (key other : Text) (flash : FlashData) (s : Server)
    → other ≢ key
    → let s₁ = put_flash set_at key flash s in
      let s₂ = (take_flash now key s₁).1 in
      ((take_flash now key s₁).0 ≡ (
        if ltb (set_at + lifetime) now
        then none
        else some (record flash { expires_at = set_at + lifetime })))
      × ((take_flash later key s₂).0 ≡ none)
      × ((take_flash later other s₂).0 ≡ unless_expired later (keep_fresh set_at (s.flashes other)))
unfolding put_flash take_flash
take_flash-put_flash set_at now later key other flash s ne =
    (rw (beq_refl key), rw (beq_refl key), ground (arith, beq_iff other key))
