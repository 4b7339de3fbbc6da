-- ===== src/Base/Lists.antt =====
-- Lists measured by native numbers, selection by a Boolean test, and predicates by recursion.
use Prim.Native.Nat.{ℕ, zero, suc, ◌+◌, ◌≤◌}
use mathlib.Core.Path.{◌≡◌, refl, sym, ◌∙◌}
use mathlib.Core.Logic.{inl, inr}
use mathlib.Core.Bool.{false≢true, Bool, true, false, ◌||◌}
use mathlib.Core.List.{List, [], ◌∷◌, ◌++◌, map}
use mathlib.Core.Option.{Option, none, some}
use native.Mathlib.Omega.{arith}
use git2imap.Base.Tests.{if◌then◌else◌, Bool-cases}

module _ {ℓ} {A : Type ℓ} where
  abbrev pub length : List A → ℕ
  length [] = 0
  length (x ∷ xs) = suc (length xs)

  abbrev pub take : ℕ → List A → List A
  take zero xs = []
  take (suc n) [] = []
  take (suc n) (x ∷ xs) = x ∷ take n xs

  abbrev pub drop : ℕ → List A → List A
  drop zero xs = xs
  drop (suc n) [] = []
  drop (suc n) (x ∷ xs) = drop n xs

  pub length-append : (xs ys : List A) → length (xs ++ ys) ≡ length xs + length ys
  length-append [] ys = omega arith
  length-append (x ∷ xs) ys = omega (arith, length-append xs ys)

  pub length-take-le : (n : ℕ) (xs : List A) → length (take n xs) ≤ n
  length-take-le zero xs = omega arith
  length-take-le (suc n) [] = omega arith
  length-take-le (suc n) (x ∷ xs) = omega (arith, length-take-le n xs)

  pub take-append : (xs ys : List A) → take (length xs) (xs ++ ys) ≡ xs
  take-append [] ys = refl
  take-append (x ∷ xs) ys = rw (take-append xs ys)

  pub drop-append : (xs ys : List A) → drop (length xs) (xs ++ ys) ≡ ys
  drop-append [] ys = refl
  drop-append (x ∷ xs) ys = drop-append xs ys

  -- The rows for which a test holds, in order.
  unfoldable pub select : (A → Bool) → List A → List A
  select p [] = []
  select p (x ∷ xs) = let rest = select p xs in if p x then x ∷ rest else rest

  unfoldable pub any : (A → Bool) → List A → Bool
  any p [] = false
  any p (x ∷ xs) = p x || any p xs

  -- The first row for which a test holds.
  unfoldable pub find : (A → Bool) → List A → Option A
  find p [] = none
  find p (x ∷ xs) = if p x then some x else find p xs

  pub select-append :
      (p : A → Bool) (xs ys : List A) → select p (xs ++ ys) ≡ select p xs ++ select p ys
  unfolding select
  select-append p [] ys = refl
  select-append p (x ∷ xs) ys = ground (arith, select-append p xs ys)

  pub any-append : (p : A → Bool) (xs ys : List A) → any p (xs ++ ys) ≡ (any p xs || any p ys)
  unfolding any
  any-append p [] ys = refl
  any-append p (x ∷ xs) ys = ground (arith, any-append p xs ys)

  pub any-map :
      (p : A → Bool) (f : A → A) (xs : List A)
      → ((x : A) → p (f x) ≡ p x)
      → any p (map f xs) ≡ any p xs
  unfolding any
  any-map p f [] h = refl
  any-map p f (x ∷ xs) h = rw (h x, any-map p f xs h) refl

  pub any-select :
      (p q : A → Bool) (xs : List A)
      → ((x : A) → p x ≡ true → q x ≡ true)
      → any p (select q xs) ≡ any p xs
  unfolding any select
  any-select p q [] h = refl
  any-select p q (x ∷ xs) h = ground (arith, any-select p q xs h, h x)

  -- A selection that no row of another fails is not changed by that other one.
  pub select-select :
      (p q : A → Bool) (xs : List A)
      → ((x : A) → p x ≡ true → q x ≡ true)
      → select p (select q xs) ≡ select p xs
  unfolding select
  select-select p q [] h = refl
  select-select p q (x ∷ xs) h = ground (arith, select-select p q xs h, h x)

  pub select-select_none :
      (p q : A → Bool) (xs : List A)
      → ((x : A) → p x ≡ true → q x ≡ false)
      → select p (select q xs) ≡ []
  unfolding select
  select-select_none p q [] h = refl
  select-select_none p q (x ∷ xs) h = ground (arith, select-select_none p q xs h, h x)

  pub select-map :
      (p : A → Bool) (f : A → A) (xs : List A)
      → ((x : A) → p x ≡ true → f x ≡ x)
      → ((x : A) → p (f x) ≡ p x)
      → select p (map f xs) ≡ select p xs
  unfolding select
  select-map p f [] h k = refl
  select-map p f (x ∷ xs) h k = ground (arith, select-map p f xs h k, h x, k x)

module _ {ℓ κ} {A : Type ℓ} (P : A → Type κ) where
  abbrev pub All : List A → Type κ
  All [] = Unit
  All (x ∷ xs) = P x × All xs

  pub All-append : (xs ys : List A) → All xs → All ys → All (xs ++ ys)
  All-append [] ys hx hy = hy
  All-append (x ∷ xs) ys (px, hx) hy = (px, All-append xs ys hx hy)

  pub All-select : (p : A → Bool) (xs : List A) → All xs → All (select p xs)
  unfolding select
  All-select p [] h = tt
  All-select p (x ∷ xs) (px, h) = ground (arith, All-select p xs h)

module _ {ℓ κ ι} {A : Type ℓ} (P : A → Type κ) (Q : A → Type ι) where
  pub All-implies : (xs : List A) → All P xs → ((x : A) → P x → Q x) → All Q xs
  All-implies [] h f = tt
  All-implies (x ∷ xs) (px, h) f = (f x px, All-implies xs h f)

  pub All-both : (xs : List A) → All P xs → All Q xs → All (λ x. P x × Q x) xs
  All-both [] h k = tt
  All-both (x ∷ xs) (px, h) (qx, k) = ((px, qx), All-both xs h k)

  -- What is selected has passed the test.
  pub All-select-implies :
      (p : A → Bool) (xs : List A)
      → All P xs
      → ((x : A) → P x → p x ≡ true → Q x)
      → All Q (select p xs)
  unfolding select
  All-select-implies p [] h k = tt
  All-select-implies p (x ∷ xs) (px, h) k = elim (Bool-cases (p x)) [
    | inl e ↦ rw e (k x px e, All-select-implies p xs h k)
    | inr e ↦ rw e (All-select-implies p xs h k)
  ]

  pub All-map : (f : A → A) (xs : List A) → All P xs → ((x : A) → P x → Q (f x)) → All Q (map f xs)
  All-map f [] h k = tt
  All-map f (x ∷ xs) (px, h) k = (k x px, All-map f xs h k)

pub any-none {ℓ} :
    {A : Type ℓ} (p : A → Bool) (xs : List A) → All (λ x. p x ≡ false) xs → any p xs ≡ false
unfolding any
any-none p [] h = refl
any-none p (x ∷ xs) (h, hs) = rw (h, any-none p xs hs) refl

pub All-none {ℓ} :
    {A : Type ℓ} (p : A → Bool) (xs : List A) → any p xs ≡ false → All (λ x. p x ≡ false) xs
unfolding any
All-none p [] h = tt
All-none p (x ∷ xs) h = elim (Bool-cases (p x)) [
  | inl e ↦ absurd (false≢true (sym h ∙ rw e refl))
  | inr e ↦ (e, All-none p xs (rw e at h))
]

-- Each element is related to all that follow it.
module _ {ℓ κ} {A : Type ℓ} (R : A → A → Type κ) where
  abbrev pub AllPairs : List A → Type κ
  AllPairs [] = Unit
  AllPairs (x ∷ xs) = All (R x) xs × AllPairs xs

  pub AllPairs-append :
      (xs : List A) (y : A) → AllPairs xs → All (λ x. R x y) xs → AllPairs (xs ++ y ∷ [])
  AllPairs-append [] y h k = (tt, tt)
  AllPairs-append (x ∷ xs) y (h, hs) (k, ks) =
      (All-append (R x) xs (y ∷ []) h (k, tt), AllPairs-append xs y hs ks)

  pub AllPairs-select : (p : A → Bool) (xs : List A) → AllPairs xs → AllPairs (select p xs)
  unfolding select
  AllPairs-select p [] h = tt
  AllPairs-select p (x ∷ xs) (h, hs) = elim (Bool-cases (p x)) [
    | inl e ↦ rw e (All-select (R x) p xs h, AllPairs-select p xs hs)
    | inr e ↦ rw e (AllPairs-select p xs hs)
  ]

  pub AllPairs-map :
      (f : A → A) (xs : List A)
      → ((x y : A) → R x y → R (f x) (f y))
      → AllPairs xs
      → AllPairs (map f xs)
  AllPairs-map f [] k h = tt
  AllPairs-map f (x ∷ xs) k (h, hs) = (All-map (R x) (R (f x)) f xs h (k x), AllPairs-map f xs k hs)
