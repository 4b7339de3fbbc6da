-- ===== src/Web/Limit.antt =====
-- internal/web/server.go: `rateLimited` and `recordAttempt`, the limit on failed logins.
use git2imap.Base.{
  ℕ, ◌+◌, ◌*◌, ◌≤◌, ◌≡◌, refl, Bool, false, List, [], ◌∷◌, ◌++◌, Text, beq, beq_iff, select, length,
  length-append, ltb, leb, if◌then◌else◌, arith, Bool-cases, inl, inr,
}
use git2imap.Web.{Server, second}

abbrev pub window : ℕ
window = 600 * second

-- attempt.After(now - 10 minutes)
abbrev pub in_window : ℕ → ℕ → Bool
in_window now attempt = ltb now (attempt + window)

-- s.attempts[ip] = …
unfoldable pub set_attempts : Text → List ℕ → Server → Server
set_attempts ip times s = record s {
  attempts = λ key. if beq key ip then times else s.attempts key;
}

unfoldable pub rate_limited : ℕ → Text → Server → Bool × Server
unfolding set_attempts select
rate_limited now ip s =
    let recent = select (in_window now) (s.attempts ip) in
    (leb 5 (length recent), set_attempts ip recent s)

unfoldable pub record_attempt : ℕ → Text → Server → Server
unfolding set_attempts
record_attempt now ip s = set_attempts ip (s.attempts ip ++ now ∷ []) s

length-select : (p : ℕ → Bool) (xs : List ℕ) → length (select p xs) ≤ length xs
unfolding select
length-select p [] = omega arith
length-select p (x ∷ xs) = ground (arith, length-select p xs)

-- No address has more than five attempts on record.
abbrev pub Bounded : Server → Type 0
Bounded s = (ip : Text) → length (s.attempts ip) ≤ 5

pub rate_limited-Bounded :
    (now : ℕ) (ip : Text) (s : Server) → Bounded s → Bounded (rate_limited now ip s).1
unfolding rate_limited set_attempts
rate_limited-Bounded now ip s h key = elim (Bool-cases (beq key ip)) [
  | inl e ↦ rw e (omega (arith, length-select (in_window now) (s.attempts ip), h ip))
  | inr e ↦ rw e (h key)
]

-- An attempt that the limit lets through keeps the bound when it is recorded.
pub record_attempt-Bounded :
    (now later : ℕ) (ip : Text) (s : Server)
    → Bounded s
    → (rate_limited now ip s).0 ≡ false
    → Bounded (record_attempt later ip (rate_limited now ip s).1)
unfolding rate_limited record_attempt set_attempts
record_attempt-Bounded now later ip s h free key = elim (Bool-cases (beq key ip)) [
  | inl e ↦
      let recent = select (in_window now) (s.attempts ip) in
      rw (e, (beq_iff ip ip).1 refl) (ground (arith, length-append recent (later ∷ [])))
  | inr e ↦ rw e (h key)
]
