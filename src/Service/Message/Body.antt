-- ===== src/Service/Message/Body.antt =====
-- internal/service/repository.go: the ends of lines in the body of a message.
use git2imap.Base.{
  ◌≡◌, refl, Bool, true, false, not, ◌&&◌, ◌||◌, [], ◌∷◌, ◌++◌, Text, beq, has_prefix, arith,
  Bool-cases, inl, inr, ||-eq-false, ◌==◌,
}
use git2imap.Git.Quote.{replace_from, replace_all}
use git2imap.Service.Message.{crlf, ends_line, body_of}

-- An LF with no CR before it; `after_return` tells whether a CR came before.
unfoldable pub bare_feed : Bool → Text → Bool
bare_feed after_return [] = false
bare_feed after_return (c ∷ s) = (c == 10 && not after_return) || bare_feed (c == 13) s

replace-bare_feed : (r : Bool) (s : Text) → bare_feed r (replace_all (10 ∷ []) crlf s) ≡ false
unfolding bare_feed replace_all replace_from has_prefix
replace-bare_feed r [] = refl
replace-bare_feed r (c ∷ s) = elim (Bool-cases (c == 10)) [
  | inl t ↦ ground (arith, t, replace-bare_feed false s)
  | inr t ↦ ground (arith, t, replace-bare_feed (c == 13) s)
]

append-bare_feed : (r : Bool) (s : Text) → bare_feed r s ≡ false → bare_feed r (s ++ crlf) ≡ false
unfolding bare_feed
append-bare_feed r [] h = refl
append-bare_feed r (c ∷ s) h =
    let (x, y) = ||-eq-false (c == 10 && not r) (bare_feed (c == 13) s) h in
    rw (x, append-bare_feed (c == 13) s y) refl

ends_line-append : (s : Text) → ends_line (s ++ crlf) ≡ true
unfolding ends_line beq
ends_line-append [] = refl
ends_line-append (c ∷ s) = ground (arith, ends_line-append s)

pub body_of_lem :
    (patch : Text) → (bare_feed false (body_of patch) ≡ false) × (ends_line (body_of patch) ≡ true)
unfolding body_of
body_of_lem patch =
    let body = replace_all (10 ∷ []) crlf (replace_all crlf (10 ∷ []) patch) in
    let tidy = replace-bare_feed false (replace_all crlf (10 ∷ []) patch) in
    elim (Bool-cases (ends_line body)) [
      | inl t ↦ rw t (tidy, t)
      | inr t ↦ rw t (append-bare_feed false body tidy, ends_line-append body)
    ]
