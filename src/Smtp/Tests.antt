-- ===== src/Smtp/Tests.antt =====
-- internal/smtpserver/server.go: a client that logs in after a refused attempt.
use git2imap.Base.{
  ◌≡◌, ◌⊎◌, Bool, true, none, some, Option, List, [], ◌∷◌, Text, codes, beq, if◌then◌else◌,
}
use git2imap.Store.{Repository}
use git2imap.Store.Replace.Tests.{a_repository}
use git2imap.Smtp.{
  new_session, Command, auth_command, mail_command, rcpt_command, auth_required, mail, rcpt,
  receive, run,
}
use git2imap.Smtp.Gate.{LoggedIn, run_gate}

abbrev authenticate : Text → Text → Option Repository
authenticate username password = if beq password (codes "secret") then some a_repository else none

abbrev client : List Command
client =
    mail_command
    ∷ auth_command (codes "PLAIN") (codes "repo-user") (codes "wrong")
    ∷ auth_command (codes "PLAIN") (codes "repo-user") (codes "secret")
    ∷ rcpt_command
    ∷ []

run_gate_example :
    let s = run authenticate client new_session in
    ((LoggedIn authenticate client
        × ((mail s).0 ≡ none)
        × ((rcpt s).0 ≡ none)
        × ((receive true s).0 ≡ none))
      ⊎ ((¬ LoggedIn authenticate client)
          × ((mail s).0 ≡ some auth_required)
          × ((rcpt s).0 ≡ some auth_required)
          × ((readable : Bool) → (receive readable s).0 ≡ some auth_required)))
run_gate_example = run_gate authenticate client
