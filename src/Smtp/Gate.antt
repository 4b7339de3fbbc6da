-- ===== src/Smtp/Gate.antt =====
-- internal/smtpserver/server.go: no mail is accepted before a login.
use mathlib.Core.Bool.{false≢true}
use git2imap.Base.{
  ◌≡◌, ◌⊎◌, inl, inr, sym, ◌∙◌, Bool, true, Option, none, some, Option-cases, Bool-cases, List, [],
  ◌∷◌, Text, codes, beq, beq_iff, arith,
}
use git2imap.Store.{Repository}
use git2imap.Smtp.{
  Session, new_session, Command, auth_command, mail_command, rcpt_command, reset_command,
  logout_command, data_command, auth_required, auth, mail, rcpt, receive, step, run,
}

-- The client has sent PLAIN credentials that the service accepts.
abbrev pub LoggedIn : (Text → Text → Option Repository) → List Command → Type 0
LoggedIn authenticate [] = ⊥
LoggedIn authenticate (auth_command mech user password ∷ cs) =
    ((mech ≡ codes "PLAIN") × ((repo : Repository) × (authenticate user password ≡ some repo)))
    ⊎ LoggedIn authenticate cs
LoggedIn authenticate (mail_command ∷ cs) = LoggedIn authenticate cs
LoggedIn authenticate (rcpt_command ∷ cs) = LoggedIn authenticate cs
LoggedIn authenticate (reset_command ∷ cs) = LoggedIn authenticate cs
LoggedIn authenticate (logout_command ∷ cs) = LoggedIn authenticate cs
LoggedIn authenticate (data_command readable ∷ cs) = LoggedIn authenticate cs

-- Of an authenticated session every later state is authenticated.
run_keeps :
    (authenticate : Text → Text → Option Repository) (cs : List Command) (s : Session)
    → s.authenticated ≡ true
    → (run authenticate cs s).authenticated ≡ true
unfolding run step
run_keeps authenticate [] s h = h
run_keeps authenticate (auth_command mech user password ∷ cs) s h =
    run_keeps authenticate cs _ (ground (arith, h))
run_keeps authenticate (mail_command ∷ cs) s h = run_keeps authenticate cs _ (ground arith)
run_keeps authenticate (rcpt_command ∷ cs) s h = run_keeps authenticate cs _ (ground arith)
run_keeps authenticate (reset_command ∷ cs) s h = run_keeps authenticate cs s h
run_keeps authenticate (logout_command ∷ cs) s h = run_keeps authenticate cs s h
run_keeps authenticate (data_command readable ∷ cs) s h = run_keeps authenticate cs _ (ground arith)

module _ (authenticate : Text → Text → Option Repository) where
  LoggedIn-run :
      (cs : List Command) (s : Session)
      → LoggedIn authenticate cs
      → (run authenticate cs s).authenticated ≡ true
  unfolding run step auth
  LoggedIn-run [] s h = absurd h
  LoggedIn-run (auth_command mech user password ∷ cs) s (inl (plain, (repo, good))) =
      run_keeps authenticate cs _ (ground (arith, beq_iff mech (codes "PLAIN")))
  LoggedIn-run (auth_command mech user password ∷ cs) s (inr h) = LoggedIn-run cs _ h
  LoggedIn-run (mail_command ∷ cs) s h = LoggedIn-run cs _ h
  LoggedIn-run (rcpt_command ∷ cs) s h = LoggedIn-run cs _ h
  LoggedIn-run (reset_command ∷ cs) s h = LoggedIn-run cs _ h
  LoggedIn-run (logout_command ∷ cs) s h = LoggedIn-run cs _ h
  LoggedIn-run (data_command readable ∷ cs) s h = LoggedIn-run cs _ h

  -- One AUTH that leaves the session authenticated.
  auth_inversion :
      (mech user password : Text) (s : Session)
      → (auth authenticate mech user password s).1.authenticated ≡ true
      → (s.authenticated ≡ true)
        ⊎ ((mech ≡ codes "PLAIN")
            × ((repo : Repository) × (authenticate user password ≡ some repo)))
  unfolding auth
  auth_inversion mech user password s h = elim (Option-cases (authenticate user password)) [
    | inl none_there ↦ inl (ground (arith, h))
    | inr (repo, there) ↦ elim (Bool-cases (beq mech (codes "PLAIN"))) [
      | inl plain ↦ inr ((beq_iff mech (codes "PLAIN")).0 plain, (repo, there))
      | inr other ↦ inl (rw other at h)
    ]
  ]

  run-LoggedIn :
      (cs : List Command) (s : Session)
      → (run authenticate cs s).authenticated ≡ true
      → (s.authenticated ≡ true) ⊎ LoggedIn authenticate cs
  unfolding run step
  run-LoggedIn [] s h = inl h
  run-LoggedIn (auth_command mech user password ∷ cs) s h =
      elim (run-LoggedIn cs (auth authenticate mech user password s).1 h) [
        | inl now ↦ elim (auth_inversion mech user password s now) [
          | inl before ↦ inl before
          | inr good ↦ inr (inl good)
        ]
        | inr later ↦ inr (inr later)
      ]
  run-LoggedIn (mail_command ∷ cs) s h = elim (run-LoggedIn cs _ h) [
    | inl now ↦ inl (unfold mail in ground (arith, now))
    | inr later ↦ inr later
  ]
  run-LoggedIn (rcpt_command ∷ cs) s h = elim (run-LoggedIn cs _ h) [
    | inl now ↦ inl (unfold rcpt in ground (arith, now))
    | inr later ↦ inr later
  ]
  run-LoggedIn (reset_command ∷ cs) s h = run-LoggedIn cs s h
  run-LoggedIn (logout_command ∷ cs) s h = run-LoggedIn cs s h
  run-LoggedIn (data_command readable ∷ cs) s h = elim (run-LoggedIn cs _ h) [
    | inl now ↦ inl (unfold receive in ground (arith, now))
    | inr later ↦ inr later
  ]

  -- After any commands of a client, in any order, MAIL, RCPT and DATA are let through if the client
  -- has logged in by PLAIN with credentials that the service accepts, and each is refused with
  -- `auth_required` if not.
  pub run_gate :
      (cs : List Command)
      → let s = run authenticate cs new_session in
        ((LoggedIn authenticate cs
            × ((mail s).0 ≡ none)
            × ((rcpt s).0 ≡ none)
            × ((receive true s).0 ≡ none))
          ⊎ ((¬ LoggedIn authenticate cs)
              × ((mail s).0 ≡ some auth_required)
              × ((rcpt s).0 ≡ some auth_required)
              × ((readable : Bool) → (receive readable s).0 ≡ some auth_required)))
  unfolding mail rcpt receive
  run_gate cs = elim (Bool-cases (run authenticate cs new_session).authenticated) [
    | inl e ↦
        let there : LoggedIn authenticate cs = elim (run-LoggedIn cs new_session e) [
          | inl bad ↦ absurd (false≢true bad)
          | inr good ↦ good
        ] in
        inl (there, ground (arith, e), ground (arith, e), ground (arith, e))
    | inr e ↦ inr (
      (λ h. false≢true (sym e ∙ LoggedIn-run cs new_session h)),
      ground (arith, e),
      ground (arith, e),
      λ readable. ground (arith, e),
    )
  ]
