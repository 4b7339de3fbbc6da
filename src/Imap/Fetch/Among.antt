-- ===== src/Imap/Fetch/Among.antt =====
-- internal/imapserver/server.go: which items are among those that FETCH writes, option by option.
use git2imap.Base.{ℕ, ◌≡◌, refl, sym, ap, subst, Bool, true, false, List, [], ◌∷◌, ◌++◌, map}
use git2imap.Imap.Fetch.{Item, is_set, when}

pub data Among {A : Type 0} (x : A) : List A → Type 0 where
  here : {y : A} {ys : List A} → x ≡ y → Among x (y ∷ ys)
  later : {y : A} {ys : List A} → Among x ys → Among x (y ∷ ys)

module _ {A : Type 0} where
  pub first : {x : A} (xs ys : List A) → Among x xs → Among x (xs ++ ys)
  first (z ∷ xs) ys (here e) = here e
  first (z ∷ xs) ys (later h) = later (first xs ys h)
  first [] ys h = elim h [ ]

  pub second : {x : A} (xs ys : List A) → Among x ys → Among x (xs ++ ys)
  second [] ys h = h
  second (z ∷ xs) ys h = later (second xs ys h)

  pub either :
      {x : A} (P : A → Type 0) (xs ys : List A)
      → (Among x xs → P x)
      → (Among x ys → P x)
      → Among x (xs ++ ys)
      → P x
  either P [] ys f g h = g h
  either P (z ∷ xs) ys f g (here e) = f (here e)
  either P (z ∷ xs) ys f g (later h) = either P xs ys (λ a. f (later a)) g h

pub when_only :
    {i : Item} (P : Item → Type 0) (b : Bool) (x : Item)
    → (b ≡ true → P x)
    → Among i (when b x)
    → P i
when_only P true x f (here e) = subst P (sym e) (f refl)
when_only P true x f (later h) = elim h [ ]
when_only P false x f h = elim h [ ]

pub map_only :
    {i : Item} (P : Item → Type 0) (f : ℕ → Item) (xs : List ℕ)
    → ((s : ℕ) → Among s xs → P (f s))
    → Among i (map f xs)
    → P i
map_only P f [] g h = elim h [ ]
map_only P f (x ∷ xs) g (here e) = subst P (sym e) (g x (here refl))
map_only P f (x ∷ xs) g (later h) = map_only P f xs (λ s a. g s (later a)) h

pub when_has : {b : Bool} (x : Item) → b ≡ true → Among x (when b x)
when_has x h = rw h (here refl)

pub map_has : {s : ℕ} {xs : List ℕ} (f : ℕ → Item) → Among s xs → Among (f s) (map f xs)
map_has f (here e) = here (ap f e)
map_has f (later h) = later (map_has f h)

pub is_set_lem : {s : ℕ} {xs : List ℕ} → Among s xs → is_set xs ≡ true
is_set_lem (here e) = refl
is_set_lem (later h) = refl
