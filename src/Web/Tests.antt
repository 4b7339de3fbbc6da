-- ===== src/Web/Tests.antt =====
-- internal/web/server.go: a login of the administrator, a flash, a rotation and a page.
use git2imap.Base.{
  ℕ, List, find, inr, ◌≡◌, ◌≢◌, refl, ap, Bool, true, none, some, [], ◌∷◌, ◌+◌, Text, codes, beq,
  ne_of_beq, ◌<◌, ltb, if◌then◌else◌, arith, length, select, any,
}
use git2imap.Store.{Repository, Db, Session}
use git2imap.Store.Sessions.{create_session}
use git2imap.Web.{Server, Request, FlashData, signed_in}
use git2imap.Web.Limit.{window, Bounded, rate_limited, set_attempts}
use git2imap.Web.Flash.{
  put_flash, take_flash, take_flash-put_flash, lifetime, unless_expired, keep_fresh,
}
use git2imap.Store
use git2imap.Store.Sessions
use git2imap.Store.Repositories.{repository, update_mail_credential, update_repository}
use git2imap.Store.Replace.Tests.{before}
use git2imap.Service.Tests.{secrets}
use git2imap.Service.Credential.{rotate_mail_credential}
use git2imap.Web.Access.{session, check_csrf, auth}
use git2imap.Web.Actions.{Times, Operations, rotate_action, serve, credential_action, access}
use git2imap.Web.Actions.Guard.{Confirmed, serve_lem}
use git2imap.Web.Login.{
  Draw, login, login_lem, logins, logins-Bounded, credentials_ok, start_session,
}

abbrev quiet : Server
quiet = record { attempts = λ ip. []; flashes = λ key. none }

abbrev no_rows : Db
no_rows = record {
  repositories = [];
  mailboxes = [];
  messages = [];
  sessions = [];
  last_mailbox_id = 0;
}

abbrev draw : Draw
draw = record { token = some (codes "t"); csrf = some (codes "c"); now = 1000; later = 1001 }

abbrev request : Text → Request
request password = record {
  remote_ip = codes "127.0.0.1";
  cookie = none;
  form_ok = true;
  form = λ key. if beq key (codes "username") then codes "admin" else password;
  path = codes "/login";
  id = [];
}

abbrev hashed : Text → Text
hashed token = b'#' ∷ token

abbrev verify : Text → Bool
verify password = beq password (codes "secret")

abbrev flash : FlashData
flash = record { message = codes "m"; mail_password = codes "p"; expires_at = 0 }

take_flash-put_flash_example :
    let s₁ = put_flash 100 (codes "a") flash quiet in
    let s₂ = (take_flash 200 (codes "a") s₁).1 in
    ((take_flash 200 (codes "a") s₁).0 ≡ (
      if ltb (100 + lifetime) 200
      then none
      else some (record flash { expires_at = 100 + lifetime })))
    × ((take_flash 300 (codes "a") s₂).0 ≡ none)
    × ((take_flash 300 (codes "b") s₂).0
        ≡ unless_expired 300 (keep_fresh 100 (quiet.flashes (codes "b"))))
take_flash-put_flash_example =
    take_flash-put_flash 100 200 300 (codes "a") (codes "b") flash quiet
      (ne_of_beq (codes "b") (codes "a") (unfold beq in refl))

logins-Bounded_example :
    Bounded
      (logins hashed verify
        (codes "admin")
        ((draw, request (codes "x")) ∷ (draw, request (codes "y")) ∷ [])
        quiet
        no_rows).0
logins-Bounded_example =
    logins-Bounded hashed verify (codes "admin")
      ((draw, request (codes "x")) ∷ (draw, request (codes "y")) ∷ []) quiet no_rows
      (λ ip. omega arith)

-- The right password makes a session.
one_session :
    length
      (login hashed verify (codes "admin") draw (request (codes "secret")) quiet no_rows).2.sessions
    ≡ 1
unfolding login rate_limited set_attempts select credentials_ok start_session create_session any beq
one_session = refl

stores_session :
    (login hashed verify (codes "admin") draw (request (codes "secret")) quiet no_rows).2 ≢ no_rows
stores_session h = omega (arith, one_session, ap (λ db. length db.sessions) h)

login_lem_example :
    (length (select (λ attempt. ltb 1000 (attempt + window)) []) < 5)
    × (true ≡ true)
    × (codes "admin" ≡ codes "admin")
    × (true ≡ true)
    × ((token : Text) × (some (codes "t") ≡ some token)
        × ((login hashed verify (codes "admin") draw (request (codes "secret")) quiet no_rows).0
            ≡ signed_in token))
unfolding beq
login_lem_example =
    login_lem hashed verify (codes "admin") draw (request (codes "secret")) quiet no_rows
      stores_session

-- The administrator rotates the credential of the repository.
abbrev signed : Db
signed = record before {
  sessions = (record { id = b'#' ∷ codes "t"; csrf_token = codes "c"; expires_at = 900 }) ∷ [];
}

abbrev rotation : Request
rotation = record {
  remote_ip = codes "127.0.0.1";
  cookie = some (codes "t");
  form_ok = true;
  form = λ key. if beq key (codes "csrf") then codes "c" else codes "secret";
  path = codes "/repos/repo/rotate";
  id = codes "repo";
}

abbrev times : Times
times = record { auth = 1000; csrf = 1001; store = 1002; flash = 1003; drawn = some (codes "new") }

abbrev operations : Operations
operations = record {
  add = λ input db. (none, db);
  refresh = λ id db. (true, db);
  delete = λ id db. (true, db);
}

abbrev total_updated : List Repository → ℕ
total_updated [] = 0
total_updated (r ∷ rs) = r.updated_at + total_updated rs

-- The row is stamped anew.
stamped :
    total_updated
      (serve hashed verify secrets operations rotate_action times rotation quiet
        signed).2.repositories
    ≡ 0
unfolding serve auth session Store.Sessions.session find beq check_csrf credential_action repository
    access rotate_mail_credential update_mail_credential update_repository
stamped = refl

stamps :
    (serve hashed verify secrets operations rotate_action times rotation quiet signed).2 ≢ signed
stamps h = omega (arith, stamped, ap (λ db. total_updated db.repositories) h)

serve_lem_example :
    ((sess : Session) × (session hashed 1000 rotation signed ≡ some sess))
    × (check_csrf hashed 1001 rotation signed ≡ true)
    × Confirmed hashed verify secrets operations rotate_action rotation
serve_lem_example =
    serve_lem hashed verify secrets operations rotate_action times rotation quiet signed
      (inr stamps)
