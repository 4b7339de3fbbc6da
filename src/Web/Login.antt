-- ===== src/Web/Login.antt =====
-- internal/web/server.go: the login and the logout.
use git2imap.Base.{
  ℕ, ◌+◌, ◌*◌, ◌<◌, ◌≡◌, ◌≢◌, beq_iff, length, select, ltb, refl, Bool, true, false, not, ◌&&◌, ◌⊎◌,
  inl, inr, Option, none, some, List, [], ◌∷◌, Text, codes, beq, if◌then◌else◌, arith, Bool-cases,
  Option-cases,
}
use git2imap.Store.{Db, ok, err}
use git2imap.Store.Sessions.{create_session, delete_session}
use git2imap.Web.{
  Request, Response, redirect, error_page, page, signed_in, signed_out, Server, second, unix,
}
use git2imap.Web.Limit.{
  window, rate_limited, record_attempt, Bounded, rate_limited-Bounded, record_attempt-Bounded,
}
use git2imap.Web.Access.{session, check_csrf}

-- The random texts that a login draws, `none` for an error of the generator, and the two readings
-- of the clock: at the limit, and when the attempt is recorded or the session made.
pub record Draw : Type 0 where
  pub token : Option Text
  pub csrf : Option Text
  pub now : ℕ
  pub later : ℕ

under_limit :
    (now : ℕ) (ip : Text) (s : Server)
    → (rate_limited now ip s).0 ≡ false
    → length (select (λ attempt. ltb now (attempt + window)) (s.attempts ip)) < 5
unfolding rate_limited
under_limit now ip s h = ground (arith, h)

-- `verify` is VerifyPassword on the hash of the administrator's password.
module _ (token_hash : Text → Text) (verify : Text → Bool) (admin : Text) where
  abbrev pub refused : Response
  refused = page (codes "login") 401

  unfoldable pub start_session : Draw → Server → Db → Response × Server × Db
  start_session d s db = elim d.token [
    | none ↦ (error_page 500, s, db)
    | some token ↦ elim d.csrf [
      | none ↦ (error_page 500, s, db)
      | some csrf ↦
          elim (create_session (token_hash token) csrf (unix (d.later + 43200 * second)) db) [
            | err e ↦ (error_page 500, s, db)
            | ok db' ↦ (signed_in token, s, db')
          ]
    ]
  ]

  -- The username is compared first, and the password only if it fits.
  unfoldable pub credentials_ok : Request → Bool
  credentials_ok r = beq (r.form (codes "username")) admin && verify (r.form (codes "password"))

  -- login
  unfoldable pub login : Draw → Request → Server → Db → Response × Server × Db
  login d r s db =
      let (limited, s₁) = rate_limited d.now r.remote_ip s in
      if limited
      then (error_page 429, s₁, db)
      else if not r.form_ok
      then (error_page 400, s₁, db)
      else if credentials_ok r
      then start_session d s₁ db
      else (refused, record_attempt d.later r.remote_ip s₁, db)

  -- logout
  unfoldable pub logout : ℕ → Request → Server → Db → Response × Server × Db
  unfolding delete_session
  logout now r s db =
      if check_csrf token_hash now r db
      then (
        signed_out,
        s,
        elim r.cookie [ none ↦ db | some value ↦ delete_session (token_hash value) db ],
      )
      else (error_page 403, s, db)

  -- loginPage
  unfoldable pub login_page : ℕ → Request → Server → Db → Response × Server × Db
  login_page now r s db = elim (session token_hash now r db) [
    | some _ ↦ (redirect (codes "/"), s, db)
    | none ↦ (page (codes "login") 200, s, db)
  ]

  unfoldable pub logins : List (Draw × Request) → Server → Db → Server × Db
  logins [] s db = (s, db)
  logins ((d, r) ∷ rest) s db = let (_, s', db') = login d r s db in logins rest s' db'

  start_session-Server : (d : Draw) (s : Server) (db : Db) → (start_session d s db).1 ≡ s
  unfolding start_session
  start_session-Server d s db = ground arith

  login-Bounded :
      (d : Draw) (r : Request) (s : Server) (db : Db) → Bounded s → Bounded (login d r s db).1
  unfolding login credentials_ok
  login-Bounded d r s db h =
      let pruned = rate_limited-Bounded d.now r.remote_ip s h in
      elim (Bool-cases (rate_limited d.now r.remote_ip s).0) [
        | inl e ↦ rw e pruned
        | inr e ↦ elim (Bool-cases r.form_ok) [
          | inr bad ↦ rw (e, bad) pruned
          | inl good ↦ elim (Bool-cases (credentials_ok r)) [
            | inl yes_ ↦
                rw (e, good, yes_, start_session-Server d (rate_limited d.now r.remote_ip s).1 db)
                  pruned
            | inr no_ ↦ rw (e, good, no_) (record_attempt-Bounded d.now d.later r.remote_ip s h e)
          ]
        ]
      ]

  -- From a server on which no address has more than five attempts on record, no sequence of logins,
  -- from any addresses, one after the other, leads to one on which an address has more.
  pub logins-Bounded :
      (rs : List (Draw × Request)) (s : Server) (db : Db) → Bounded s → Bounded (logins rs s db).0
  unfolding logins
  logins-Bounded [] s db h = h
  logins-Bounded ((d, r) ∷ rs) s db h =
      let (_, s', db') = login d r s db in logins-Bounded rs s' db' (login-Bounded d r s db h)

  credentials_ok_lem :
      (r : Request)
      → credentials_ok r ≡ true
      → (r.form (codes "username") ≡ admin) × (verify (r.form (codes "password")) ≡ true)
  unfolding credentials_ok
  credentials_ok_lem r h =
      let both : (beq (r.form (codes "username")) admin ≡ true)
          × (verify (r.form (codes "password")) ≡ true) =
        ground (arith, h) in
      ((beq_iff (r.form (codes "username")) admin).0 both.0, both.1)

  start_session_cases :
      (d : Draw) (s : Server) (db : Db)
      → ((start_session d s db).2 ≡ db)
        ⊎ ((token : Text) × (d.token ≡ some token) × ((start_session d s db).0 ≡ signed_in token))
  unfolding start_session
  start_session_cases d s db = elim (Option-cases d.token) [
    | inl e ↦ inl (rw (e, start_session))
    | inr (token, e) ↦ elim (Option-cases d.csrf) [
      | inl f ↦ inl (ground (arith, e, f))
      | inr (csrf, f) ↦
          elim (create_session (token_hash token) csrf (unix (d.later + 43200 * second)) db)
              as (λ x.
                create_session (token_hash token) csrf (unix (d.later + 43200 * second)) db ≡ x
                → ((start_session d s db).2 ≡ db)
                  ⊎ ((t : Text) × (d.token ≡ some t) × ((start_session d s db).0 ≡ signed_in t))) [
                    | err x ↦ λ g. inl (ground (arith, e, f, g))
                    | ok x ↦ λ g. inr (token, e, ground (arith, e, f, g))
                  ]
            refl
    ]
  ]

  -- A login that changes the store comes from an address with fewer than five failed attempts
  -- within the last ten minutes, with a form that is read, the name of the administrator and a
  -- password that its hash accepts, and signs the client in with the token that it drew.
  pub login_lem :
      (d : Draw) (r : Request) (s : Server) (db : Db)
      → ((login d r s db).2 ≢ db)
      → (length (select (λ attempt. ltb d.now (attempt + window)) (s.attempts r.remote_ip)) < 5)
        × (r.form_ok ≡ true)
        × (r.form (codes "username") ≡ admin)
        × (verify (r.form (codes "password")) ≡ true)
        × ((token : Text) × (d.token ≡ some token) × ((login d r s db).0 ≡ signed_in token))
  unfolding login credentials_ok
  login_lem d r s db h = elim (Bool-cases (rate_limited d.now r.remote_ip s).0) [
    | inl e ↦ absurd (h (rw e refl))
    | inr e ↦ elim (Bool-cases r.form_ok) [
      | inr bad ↦ absurd (h (rw (e, bad) refl))
      | inl good ↦ elim (Bool-cases (credentials_ok r)) [
        | inr no_ ↦ absurd (h (rw (e, good, no_) refl))
        | inl yes_ ↦ elim (start_session_cases d (rate_limited d.now r.remote_ip s).1 db) [
          | inl same ↦ absurd (h (rw (e, good, yes_) same))
          | inr (token, t, answer) ↦
              let (named, passed) = credentials_ok_lem r yes_ in
              (
                under_limit d.now r.remote_ip s e,
                good,
                named,
                passed,
                (token, t, rw (e, good, yes_) answer),
              )
        ]
      ]
    ]
  ]
