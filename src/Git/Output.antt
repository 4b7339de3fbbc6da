-- ===== src/Git/Output.antt =====
-- internal/gitbackend/git.go: `gitCommandOutput`, which logs what git prints, line by line. The
-- lock is not modelled: each method runs alone.
use git2imap.Base.{
  ℕ, ◌≡◌, refl, sym, ap, ◌∙◌, Bool, not, ◌||◌, List, [], ◌∷◌, ◌++◌, append_assoc, Text, codes, beq,
  trim_space, length, take, ◌==◌, ltb, if◌then◌else◌, Bool-cases, inl, inr, select,
}
use git2imap.Git.{Auth}
use git2imap.Git.Quote.{replace_all}

-- The secrets that newGitCommandOutput keeps: those that are not empty.
unfoldable pub redactions : Auth → List Text
redactions auth =
    select (λ secret. not (beq secret [])) (auth.password ∷ auth.passphrase ∷ auth.private_key ∷ [])

unfoldable pub redact : List Text → Text → Text
redact [] value = value
redact (secret ∷ secrets) value = redact secrets (replace_all secret (codes "[REDACTED]") value)

-- `logged` holds the lines that were given to the logger.
pub record CommandOutput : Type 0 where
  pub output : Text
  pub pending : Text
  pub logged : List Text

abbrev pub cut : Text → Text
cut line = if ltb 4096 (length line) then take 4096 line ++ codes "..." else line

-- `logging` tells whether there is a logger.
module _ (secrets : List Text) (logging : Bool) where
  unfoldable pub log_pending : CommandOutput → CommandOutput
  log_pending w =
      let line = trim_space w.pending in
      if beq line [] || not logging
      then record w { pending = [] }
      else record w { pending = []; logged = w.logged ++ cut (redact secrets line) ∷ [] }

  unfoldable pub write_byte : ℕ → CommandOutput → CommandOutput
  write_byte value w =
      if value == 13 || value == 10
      then log_pending w
      else record w { pending = w.pending ++ value ∷ [] }

  unfoldable pub write_bytes : Text → CommandOutput → CommandOutput
  write_bytes [] w = w
  write_bytes (value ∷ p) w = write_bytes p (write_byte value w)

  -- Write
  unfoldable pub write : Text → CommandOutput → CommandOutput
  write p w = write_bytes p (record w { output = w.output ++ p })

  -- Flush
  unfoldable pub flush : CommandOutput → CommandOutput
  flush w = log_pending w

  -- Bytes
  unfoldable pub bytes : CommandOutput → Text
  bytes w = redact secrets w.output

  write_bytes-append :
      (p q : Text) (w : CommandOutput) → write_bytes (p ++ q) w ≡ write_bytes q (write_bytes p w)
  unfolding write_bytes
  write_bytes-append [] q w = refl
  write_bytes-append (value ∷ p) q w = write_bytes-append p q (write_byte value w)

  -- What is logged does not depend on what was printed before.
  write_byte-output :
      (value : ℕ) (o : Text) (w : CommandOutput)
      → write_byte value (record w { output = o }) ≡ record (write_byte value w) { output = o }
  unfolding write_byte log_pending
  write_byte-output value o w = elim (Bool-cases (value == 13 || value == 10)) [
    | inl e ↦ elim (Bool-cases (beq (trim_space w.pending) [] || not logging)) [
      | inl f ↦ rw (e, f)
      | inr f ↦ rw (e, f)
    ]
    | inr e ↦ rw e
  ]

  write_bytes-output :
      (p o : Text) (w : CommandOutput)
      → write_bytes p (record w { output = o }) ≡ record (write_bytes p w) { output = o }
  unfolding write_bytes
  write_bytes-output [] o w = refl
  write_bytes-output (value ∷ p) o w =
      ap (write_bytes p) (write_byte-output value o w) ∙ write_bytes-output p o (write_byte value w)

  write_bytes-keeps : (p : Text) (w : CommandOutput) → (write_bytes p w).output ≡ w.output
  write_bytes-keeps p w = ap (λ w'. w'.output) (write_bytes-output p w.output w)

  -- How git's output is cut into writes does not matter: two writes leave the collected output, the
  -- unfinished line and the logged lines that one write of both texts leaves.
  write-append : (p q : Text) (w : CommandOutput) → write q (write p w) ≡ write (p ++ q) w
  unfolding write
  write-append p q w =
      let o = (w.output ++ p) ++ q in
      let w' = record w { output = w.output ++ p } in
      ap (λ o'. write_bytes q (record (write_bytes p w') { output = o' ++ q }))
        (write_bytes-keeps p w')
      ∙ ap (write_bytes q) (sym (write_bytes-output p o w'))
      ∙ sym (write_bytes-append p q (record w' { output = o }))
      ∙ ap (λ o'. write_bytes (p ++ q) (record w { output = o' })) (append_assoc w.output p q)
