-- ===== src/Store/Replace/Names.antt =====
-- internal/store/store.go: the names that `ReplaceMailboxes` gives to mailboxes never clash.
use mathlib.Core.Bool.{false≢true}
use git2imap.Base.{
  Bool, ℕ, zero, suc, ◌+◌, ◌*◌, ◌-◌, ◌/◌, ◌%◌, ◌≤◌, ◌≡◌, ◌≢◌, sym, ap, ◌∙◌, false, [], ◌∷◌, Text,
  beq, beq_iff, arith, drop, Bool-cases, inl, inr, ◌==◌,
}
use git2imap.Store.Replace.{digits, decimal, updating_name, mailbox_name}

-- The number that decimal digits write, behind the digits of `n`.
value : ℕ → Text → ℕ
value n [] = n
value n (c ∷ cs) = value (10 * n + (c - b'0')) cs

value-digits : (fuel n : ℕ) (out : Text) → n ≤ fuel → value 0 (digits fuel n out) ≡ value n out
unfolding digits value
value-digits zero n out le = ap (λ k. value k out) (let e : 0 ≡ n = omega arith in e)
value-digits (suc fuel) n out le = elim (Bool-cases (n == 0)) [
  | inl e ↦ rw e (ap (λ k. value k out) (let z : 0 ≡ n = ground arith in z))
  | inr e ↦
      let ne : n ≢ 0 = ground arith in
      rw e (
        value-digits fuel (n / 10) ((b'0' + n % 10) ∷ out) (omega arith)
        ∙ ap (λ k. value k out)
            (let k : 10 * (n / 10) + (b'0' + n % 10 - b'0') ≡ n = omega arith in k))
]

value-decimal : (n : ℕ) → value 0 (decimal n) ≡ n
unfolding decimal value
value-decimal n = elim (Bool-cases (n == 0)) [
  | inl e ↦ rw e (let z : 0 ≡ n = ground arith in z)
  | inr e ↦ rw e (value-digits n n [] (omega arith))
]

-- Two rows with different ids are set aside under different names.
pub updating_name-injective : (i j : ℕ) → updating_name i ≡ updating_name j → i ≡ j
unfolding updating_name
updating_name-injective i j h =
    sym (value-decimal i) ∙ ap (λ t. value 0 (drop 13 t)) h ∙ value-decimal j

-- A test on the first character tells the three kinds of name apart.
starts : ℕ → Text → Bool
starts c [] = false
starts c (d ∷ t) = c == d

pub mailbox_name-≢-updating_name :
    (default x : Text) (i : ℕ) → mailbox_name default x ≢ updating_name i
unfolding mailbox_name updating_name starts
mailbox_name-≢-updating_name default x i h = elim (Bool-cases (beq x default)) [
  | inl e ↦ false≢true (ap (starts b'_') (rw e at h))
  | inr e ↦ false≢true (ap (starts b'_') (rw e at h))
]

-- Two branches of one repository never have the same mailbox name.
pub mailbox_name-injective :
    (default x y : Text) → mailbox_name default x ≡ mailbox_name default y → x ≡ y
unfolding mailbox_name starts
mailbox_name-injective default x y h = elim (Bool-cases (beq x default)) [
  | inl e ↦ elim (Bool-cases (beq y default)) [
    | inl k ↦ (beq_iff x default).0 e ∙ sym ((beq_iff y default).0 k)
    | inr k ↦ absurd (false≢true (sym (ap (starts b'I') (rw (e, k) at h))))
  ]
  | inr e ↦ elim (Bool-cases (beq y default)) [
    | inl k ↦ absurd (false≢true (ap (starts b'I') (rw (e, k) at h)))
    | inr k ↦ ap (drop 9) (rw (e, k) at h)
  ]
]
