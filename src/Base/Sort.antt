-- ===== src/Base/Sort.antt =====
-- ORDER BY: a stable insertion sort, and the order of texts.
use mathlib.Core.List.Perm
use mathlib.Core.List.{List, [], ◌∷◌, Perm}
use mathlib.Core.Path.{◌≡◌, refl, ap, ◌∙◌}
use mathlib.Core.Option.{some}
use mathlib.Core.Logic.{inl, inr}
use mathlib.Core.Bool.{Bool, true, false, ◌&&◌, ◌||◌}
use native.Mathlib.Omega.{arith}
use git2imap.Base.Tests.{Bool-cases, ltb, ◌==◌, if◌then◌else◌}
use git2imap.Base.Lists.{All, any, find}
use git2imap.Base.Strings.{Text}

-- The order of code points is the order of the bytes of their UTF-8 encodings.
unfoldable pub text_le : Text → Text → Bool
text_le [] t = true
text_le (c ∷ s) [] = false
text_le (c ∷ s) (d ∷ t) = ltb c d || (c == d) && text_le s t

module _ {ℓ} {A : Type ℓ} (le : A → A → Bool) where
  unfoldable pub insert_by : A → List A → List A
  insert_by x [] = x ∷ []
  insert_by x (y ∷ ys) = let rest = insert_by x ys in if le x y then x ∷ y ∷ ys else y ∷ rest

  unfoldable pub sort_by : List A → List A
  unfolding insert_by
  sort_by [] = []
  sort_by (x ∷ xs) = insert_by x (sort_by xs)

  if_perm :
      (b : Bool) {xs ys zs : List A} → Perm xs zs → Perm ys zs → Perm (if b then xs else ys) zs
  if_perm true h k = h
  if_perm false h k = k

  pub insert_by-perm : (x : A) (ys : List A) → Perm (insert_by x ys) (x ∷ ys)
  unfolding insert_by
  insert_by-perm x [] = Perm.refl (x ∷ [])
  insert_by-perm x (y ∷ ys) =
      if_perm (le x y) (Perm.refl (x ∷ y ∷ ys))
        (Perm.trans (Perm.cons y (insert_by-perm x ys)) (Perm.swap x y ys))

  pub sort_by-perm : (xs : List A) → Perm (sort_by xs) xs
  unfolding sort_by
  sort_by-perm [] = Perm.refl []
  sort_by-perm (x ∷ xs) = Perm.trans (insert_by-perm x (sort_by xs)) (Perm.cons x (sort_by-perm xs))

  abbrev pub Ascending : List A → Type 0
  Ascending [] = Unit
  Ascending (x ∷ xs) = All (λ y. le x y ≡ true) xs × Ascending xs

  insert_by_head : (x : A) (ys : List A) → All (λ y. le x y ≡ true) ys → insert_by x ys ≡ x ∷ ys
  unfolding insert_by
  insert_by_head x [] h = refl
  insert_by_head x (y ∷ ys) (h, _) = ground arith

  -- What is in order already stays as it is.
  pub sort_by-Ascending : (xs : List A) → Ascending xs → sort_by xs ≡ xs
  unfolding sort_by
  sort_by-Ascending [] h = refl
  sort_by-Ascending (x ∷ xs) (h, k) = rw (sort_by-Ascending xs k) (insert_by_head x xs h)

  module _ (p : A → Bool) where
    any-insert_by : (x : A) (ys : List A) → any p (insert_by x ys) ≡ (p x || any p ys)
    unfolding any insert_by
    any-insert_by x [] = refl
    any-insert_by x (y ∷ ys) = elim (Bool-cases (le x y)) [
      | inl t ↦ rw t
      | inr t ↦ ground (arith, t, any-insert_by x ys)
    ]

    any-sort_by : (xs : List A) → any p (sort_by xs) ≡ any p xs
    unfolding any sort_by
    any-sort_by [] = refl
    any-sort_by (x ∷ xs) = ground (arith, any-insert_by x (sort_by xs), any-sort_by xs)

    module _ (m : A) where
      abbrev Only : List A → Type ℓ
      Only = All (λ o. p o ≡ true → o ≡ m)

      insert_by-Only :
          (x : A) (ys : List A) → (p x ≡ true → x ≡ m) → Only ys → Only (insert_by x ys)
      unfolding insert_by
      insert_by-Only x [] h hs = (h, tt)
      insert_by-Only x (y ∷ ys) h (k, hs) = elim (Bool-cases (le x y)) [
        | inl t ↦ rw t (h, (k, hs))
        | inr t ↦ rw t (k, insert_by-Only x ys h hs)
      ]

      sort_by-Only : (xs : List A) → Only xs → Only (sort_by xs)
      unfolding sort_by
      sort_by-Only [] h = tt
      sort_by-Only (x ∷ xs) (h, hs) = insert_by-Only x (sort_by xs) h (sort_by-Only xs hs)

      find-Only : (xs : List A) → Only xs → any p xs ≡ true → find p xs ≡ some m
      unfolding find any
      find-Only [] h e = cc
      find-Only (x ∷ xs) (h, hs) e = elim (Bool-cases (p x)) [
        | inl t ↦ rw t (ap some (h t))
        | inr t ↦ rw t (find-Only xs hs (rw t at e))
      ]

      -- The only element that passes is found in the sorted list too.
      pub find-sort_by : (xs : List A) → Only xs → any p xs ≡ true → find p (sort_by xs) ≡ some m
      find-sort_by xs h e = find-Only (sort_by xs) (sort_by-Only xs h) (any-sort_by xs ∙ e)
