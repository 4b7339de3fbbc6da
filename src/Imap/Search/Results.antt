-- ===== src/Imap/Search/Results.antt =====
-- internal/imapserver/server.go: the data of SEARCH against the meaning of its criteria.
use git2imap.Base.{
  ℕ, suc, ◌≤◌, ◌<◌, ◌≡◌, refl, ap, true, Option, some, List, [], ◌∷◌, ◌++◌, append_assoc,
  append-nil, Text, arith, length, ◌==◌, if◌then◌else◌, Bool-cases, inl, inr, All, length-append,
  All-append, any, any-append, ◌⊎◌,
}
use git2imap.Store.{Message}
use git2imap.Imap.{Criteria}
use git2imap.Imap.Search.{matches}
use git2imap.Imap.Search.Meaning.{holds, matches-holds}
use git2imap.Imap.Search.Command.{
  Kind, kind_seq, kind_uid, SearchData, no_data, note, number, last_uid, search_from,
  search_messages, hits,
}

-- The smallest and the largest number are among them, or there is none and both are 0.
abbrev Reached : SearchData → List ℕ → Type 0
Reached d ns =
    ((ns ≡ []) × (d.min ≡ 0) × (d.max ≡ 0))
    ⊎ ((0 < d.min) × (any (λ n. n == d.min) ns ≡ true) × (any (λ n. n == d.max) ns ≡ true))

-- The data are about the numbers that were noted: all of them, how many, the smallest, the largest.
pub record Describes (d : SearchData) (ns : List ℕ) : Type 0 where
  pub all : d.all ≡ ns
  pub count : d.count ≡ length ns
  pub least : All (λ n. d.min ≤ n) ns
  pub greatest : All (λ n. n ≤ d.max) ns
  pub reached : Reached d ns

All-lower : (a b : ℕ) (ns : List ℕ) → b ≤ a → All (λ n. a ≤ n) ns → All (λ n. b ≤ n) ns
All-lower a b [] h k = tt
All-lower a b (n ∷ ns) h (k, ks) = (omega arith, All-lower a b ns h ks)

All-raise : (a b : ℕ) (ns : List ℕ) → a ≤ b → All (λ n. n ≤ a) ns → All (λ n. n ≤ b) ns
All-raise a b [] h k = tt
All-raise a b (n ∷ ns) h (k, ks) = (omega arith, All-raise a b ns h ks)

note_bounds :
    (d : SearchData) (n : ℕ)
    → ((note d n).min ≤ n) × (n ≤ (note d n).max) × (d.max ≤ (note d n).max)
unfolding note
note_bounds d n = ground arith

note_min : (d : SearchData) (n : ℕ) → ((note d n).min ≡ n) ⊎ ((note d n).min ≡ d.min)
unfolding note
note_min d n = ground arith

note_max : (d : SearchData) (n : ℕ) → ((note d n).max ≡ n) ⊎ ((note d n).max ≡ d.max)
unfolding note
note_max d n = ground arith

-- `x` is among the numbers.
abbrev Holds : ℕ → List ℕ → Type 0
Holds x ns = any (λ k. k == x) ns ≡ true

-- A number that is the last one, or that is among the others.
hit : (x y n : ℕ) (ns : List ℕ) → (x ≡ n) ⊎ (x ≡ y) → Holds y ns → Holds x (ns ++ n ∷ [])
unfolding any
hit x y n ns (inl e) h = ground (arith, any-append (λ k. k == x) ns (n ∷ []))
hit x y n ns (inr e) h =
    let old : Holds x ns = rw e h in ground (arith, any-append (λ k. k == x) ns (n ∷ []))

last_hit : (n : ℕ) (ns : List ℕ) → Holds n (ns ++ n ∷ [])
unfolding any
last_hit n ns = ground (arith, any-append (λ k. k == n) ns (n ∷ []))

note_pos : (d : SearchData) (n : ℕ) → 0 < n → 0 < (note d n).min
unfolding note
note_pos d n pos = ground arith

note_first :
    (d : SearchData) (n : ℕ) → d.min ≡ 0 → d.max ≡ 0 → ((note d n).min ≡ n) × ((note d n).max ≡ n)
unfolding note
note_first d n l g = ground arith

note_lower : (d : SearchData) (n : ℕ) → 0 < d.min → (note d n).min ≤ d.min
unfolding note
note_lower d n pos = ground arith

note-Reached :
    (d : SearchData) (n : ℕ) (ns : List ℕ)
    → 0 < n
    → Reached d ns
    → Reached (note d n) (ns ++ n ∷ [])
note-Reached d n ns pos (inl (e, l, g)) =
    let (a, b) = note_first d n l g in
    inr (note_pos d n pos, rw a (last_hit n ns), rw b (last_hit n ns))
note-Reached d n ns pos (inr (p, l, g)) = inr (
  note_pos d n pos,
  hit (note d n).min d.min n ns (note_min d n) l,
  hit (note d n).max d.max n ns (note_max d n) g,
)

note-least :
    (d : SearchData) (n : ℕ) (ns : List ℕ)
    → Reached d ns
    → All (λ k. d.min ≤ k) ns
    → All (λ k. (note d n).min ≤ k) ns
note-least d n ns (inl (e, l, g)) h = rw e tt
note-least d n ns (inr (p, l, g)) h = All-lower d.min (note d n).min ns (note_lower d n p) h

note-Describes :
    (d : SearchData) (n : ℕ) (ns : List ℕ)
    → 0 < n
    → Describes d ns
    → Describes (note d n) (ns ++ n ∷ [])
note-Describes d n ns pos h =
    let (a, b, c) = note_bounds d n in
    record {
      all = unfold note in ap (λ l. l ++ n ∷ []) h.all;
      count = unfold note in omega (arith, h.count, length-append ns (n ∷ []));
      least =
          All-append (λ k. (note d n).min ≤ k) ns (n ∷ []) (note-least d n ns h.reached h.least)
            (a, tt);
      greatest =
          All-append (λ k. k ≤ (note d n).max) ns (n ∷ []) (All-raise d.max _ ns c h.greatest)
            (b, tt);
      reached = note-Reached d n ns pos h.reached;
    }

module _ (local : ℕ → ℕ) (to_lower : Text → Text) (render : Message → Option Text) (kind : Kind)
    (c : Criteria) (text : Message → Text)
    (renders : (m : Message) → render m ≡ some (text m)) where
  search_from_step :
      (max_seq max_uid seq : ℕ) (m : Message) (ms : List Message) (d : SearchData)
      → search_from local to_lower render kind c max_seq max_uid seq (m ∷ ms) d
        ≡ search_from local to_lower render kind c max_seq max_uid (suc seq) ms (
            if holds local to_lower m (text m) seq max_seq max_uid c
            then note d (number kind seq m)
            else d)
  unfolding search_from
  search_from_step max_seq max_uid seq m ms d =
      let e : matches local to_lower m (render m) seq max_seq max_uid c
          ≡ some (holds local to_lower m (text m) seq max_seq max_uid c) =
        rw (renders m) (matches-holds local to_lower m (text m) seq max_seq max_uid c) in
      rw (e, search_from)

  search_from_lem :
      (max_seq max_uid seq : ℕ) (ms : List Message) (d : SearchData) (ns : List ℕ)
      → 0 < seq
      → All (λ m. 0 < m.uid) ms
      → Describes d ns
      → (d' : SearchData) × (search_from local to_lower render kind c max_seq max_uid seq ms d
          ≡ some d')
        × Describes d' (ns ++ hits local to_lower render kind c text max_seq max_uid seq ms)
  unfolding hits
  search_from_lem max_seq max_uid seq [] d ns pos uids h =
      (d, unfold search_from in refl, rw append-nil h)
  search_from_lem max_seq max_uid seq (m ∷ ms) d ns pos (u, uids) h =
      elim (Bool-cases (holds local to_lower m (text m) seq max_seq max_uid c)) [
        | inl e ↦
            let (d', run, good) =
              search_from_lem max_seq max_uid (suc seq) ms (note d (number kind seq m))
                (ns ++ number kind seq m ∷ []) (omega arith) uids
                (note-Describes d (number kind seq m) ns (number_pos kind seq m pos u) h) in
            (
              d',
              rw (search_from_step max_seq max_uid seq m ms d, e) run,
              rw e (rw append_assoc at good),
            )
        | inr e ↦
            let (d', run, good) =
              search_from_lem max_seq max_uid (suc seq) ms d ns (omega arith) uids h in
            (d', rw (search_from_step max_seq max_uid seq m ms d, e) run, rw e good)
      ]
    where
      number_pos : (k : Kind) (s : ℕ) (x : Message) → 0 < s → 0 < x.uid → 0 < number k s x
      number_pos kind_seq s x p q = p
      number_pos kind_uid s x p q = q

  -- If every message renders and every uid is positive, SEARCH succeeds. Its numbers, sequence
  -- numbers or uids as asked, are those of the messages that meet the criteria, in their order,
  -- with their count, the smallest and the largest of them.
  pub search_messages_lem :
      (ms : List Message)
      → All (λ m. 0 < m.uid) ms
      → (d : SearchData) × (search_messages local to_lower render kind c ms ≡ some d)
        × Describes d (hits local to_lower render kind c text (length ms) (last_uid ms) 1 ms)
  unfolding search_messages
  search_messages_lem ms uids =
      search_from_lem (length ms) (last_uid ms) 1 ms no_data [] (omega arith) uids (record {
        all = refl;
        count = refl;
        least = tt;
        greatest = tt;
        reached = inl (refl, refl, refl);
      })
