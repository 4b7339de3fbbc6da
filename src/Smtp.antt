-- ===== src/Smtp.antt =====
-- internal/smtpserver/server.go: the SMTP session, which accepts mail and throws it away.
pub mod Gate
pub mod Tests
use git2imap.Base.{
  Bool, true, false, Option, none, some, List, [], ◌∷◌, Text, codes, beq, if◌then◌else◌,
}
use git2imap.Store.{Repository}

pub record Session : Type 0 where
  pub authenticated : Bool

-- NewSession
abbrev pub new_session : Session
new_session = record { authenticated = false }

pub data SmtpError : Type 0 where
  auth_unknown_mechanism auth_failed auth_required : SmtpError
  -- the reader of the message failed
  read_failed : SmtpError

abbrev pub Answer : Type 0
Answer = Option SmtpError × Session

-- Auth with the callback of its PLAIN server: `authenticate` is the method of the service.
unfoldable pub auth : (Text → Text → Option Repository) → Text → Text → Text → Session → Answer
auth authenticate mech username password s =
    if beq mech (codes "PLAIN")
    then (elim (authenticate username password) [
      | none ↦ (some auth_failed, s)
      | some repo ↦ (none, record s { authenticated = true })
    ])
    else (some auth_unknown_mechanism, s)

unfoldable pub mail : Session → Answer
mail s = if s.authenticated then (none, s) else (some auth_required, s)

unfoldable pub rcpt : Session → Answer
rcpt s = if s.authenticated then (none, s) else (some auth_required, s)

-- Data: `readable` tells whether io.Copy reaches the end of the message.
unfoldable pub receive : Bool → Session → Answer
receive readable s =
    if s.authenticated
    then (if readable then none else some read_failed, s)
    else (some auth_required, s)

unfoldable pub reset : Session → Session
reset s = s

unfoldable pub logout : Session → Answer
logout s = (none, s)

-- The commands of a client.
pub data Command : Type 0 where
  auth_command : Text → Text → Text → Command
  mail_command rcpt_command reset_command logout_command : Command
  data_command : Bool → Command

unfoldable pub step : (Text → Text → Option Repository) → Command → Session → Answer
unfolding auth mail rcpt receive reset logout
step authenticate (auth_command mech username password) s =
    auth authenticate mech username password s
step authenticate mail_command s = mail s
step authenticate rcpt_command s = rcpt s
step authenticate reset_command s = (none, reset s)
step authenticate logout_command s = logout s
step authenticate (data_command readable) s = receive readable s

unfoldable pub run : (Text → Text → Option Repository) → List Command → Session → Session
run authenticate [] s = s
run authenticate (c ∷ cs) s = run authenticate cs (step authenticate c s).1
