-- ===== src/Git/Runs/Retry.antt =====
-- internal/gitbackend/git.go: how often `renameWithRetry` tries, and when it succeeds.
use git2imap.Base.{
  ℕ, zero, suc, ◌+◌, ◌≤◌, ◌<◌, ◌≡◌, ◌≢◌, ◌↔◌, sym, subst, ◌∙◌, Option, none, some, Text, arith,
  Option-cases, Bool-cases, ◌==◌, inl, inr,
}
use git2imap.Git.Runs.{System, rename_from, rename_with_retry}

none≢some : {e : Text} → none ≢ some e
none≢some = cc

module _ (s : System) where
  -- Attempt `k` fails, and the context has not ended when its wait is over.
  abbrev pub Waits : ℕ → Type 0
  Waits k = ((e : Text) × (s.rename k ≡ some e)) × (s.cancelled k ≡ none)

  -- The attempt `k` is made, and succeeds.
  abbrev pub SucceedsAt : ℕ → ℕ → Type 0
  SucceedsAt n k = (n ≤ k) × (s.rename k ≡ none) × ((j : ℕ) → n ≤ j → j < k → Waits j)

  rename_from-stop :
      (left n : ℕ) (last : Option Text) → s.rename n ≡ none → rename_from s (suc left) n last ≡ none
  unfolding rename_from
  rename_from-stop left n last h = ground (arith, h)

  rename_from-cancelled :
      (left n : ℕ) (last : Option Text) {e c : Text}
      → s.rename n ≡ some e
      → s.cancelled n ≡ some c
      → rename_from s (suc left) n last ≡ some c
  unfolding rename_from
  rename_from-cancelled left n last h k = ground (arith, h, k)

  rename_from-again :
      (left n : ℕ) (last : Option Text) {e : Text}
      → s.rename n ≡ some e
      → s.cancelled n ≡ none
      → rename_from s (suc left) n last ≡ rename_from s left (suc n) (some e)
  unfolding rename_from
  rename_from-again left n last h k = ground (arith, h, k)

  rename_from-none :
      (left n : ℕ) (e : Text)
      → rename_from s left n (some e) ≡ none
      → (k : ℕ) × (k < n + left) × SucceedsAt n k
  unfolding rename_from
  rename_from-none zero n e h = cc
  rename_from-none (suc left) n e h = elim (Option-cases (s.rename n)) [
    | inl t ↦ (n, omega arith, (omega arith, t, (λ j le lt. ground (arith, le, lt))))
    | inr (p, t) ↦ elim (Option-cases (s.cancelled n)) [
      | inr (c, u) ↦ absurd (none≢some (sym h ∙ rename_from-cancelled left n (some e) t u))
      | inl u ↦
          let next : rename_from s left (suc n) (some p) ≡ none =
            sym (rename_from-again left n (some e) t u) ∙ h in
          let (k, lt, (le, at, before)) = rename_from-none left (suc n) p next in
          (
            k,
            omega (arith, lt),
            (
              omega (arith, le),
              at,
              (λ j n_le lt'. elim (Bool-cases (n == j)) [
                | inl i ↦ let same : n ≡ j = ground arith in subst Waits same ((p, t), u)
                | inr i ↦ before j (ground (arith, n_le)) lt'
              ]),
            ),
          )
    ]
  ]

  rename_from-succeeds :
      (left n k : ℕ) (last : Option Text)
      → k < n + left
      → SucceedsAt n k
      → rename_from s left n last ≡ none
  unfolding rename_from
  rename_from-succeeds zero n k last lt (le, at, before) = absurd (omega (arith, lt, le))
  rename_from-succeeds (suc left) n k last lt (le, at, before) = elim (Bool-cases (n == k)) [
    | inl i ↦
        let same : k ≡ n = ground arith in
        rename_from-stop left n last (subst (λ j. s.rename j ≡ none) same at)
    | inr i ↦
        let ((e, t), u) = before n (omega arith) (ground (arith, le)) in
        rename_from-again left n last t u
        ∙ rename_from-succeeds left (suc n) k (some e) (omega (arith, lt))
            (ground (arith, le), at, (λ j n_le. before j (omega (arith, n_le))))
  ]

-- `renameWithRetry` succeeds exactly if one of its first twenty attempts does, where each attempt
-- before that one fails and the context has not ended behind it.
pub rename_with_retry_lem :
    (s : System) → (rename_with_retry s ≡ none) ↔ ((k : ℕ) × (k < 20) × SucceedsAt s 0 k)
unfolding rename_with_retry rename_from
rename_with_retry_lem s = (
  (λ h. elim (Option-cases (s.rename 0)) [
    | inl t ↦ (0, omega arith, (omega arith, t, (λ j le lt. ground (arith, le, lt))))
    | inr (p, t) ↦ rename_from-none s 20 0 p (ground (arith, t, h))
  ]),
  (λ (k, lt, at). rename_from-succeeds s 20 0 k none lt at),
)
