-- ===== src/Store/Sessions.antt =====
-- internal/store/store.go: the statements on the table `admin_sessions`.
use git2imap.Base.{
  ℕ, not, ◌&&◌, [], ◌∷◌, ◌++◌, Text, beq, select, any, find, ltb, leb, if◌then◌else◌,
}
use git2imap.Store.{Session, Db, Result, ok, err, constraint}
use git2imap.Store.Repositories.{found}

-- CreateSession: `id_hash` is the primary key.
unfoldable pub create_session : Text → Text → ℕ → Db → Result Db
unfolding any
create_session id_hash csrf expires db =
    if any (λ s. beq s.id id_hash) db.sessions
    then err constraint
    else ok (record db {
      sessions =
          db.sessions ++ (record { id = id_hash; csrf_token = csrf; expires_at = expires }) ∷ [];
    })

-- Session: WHERE id_hash=? AND expires_at>?
unfoldable pub session : ℕ → Text → Db → Result Session
unfolding find
session now id_hash db = found (find (λ s. beq s.id id_hash && ltb now s.expires_at) db.sessions)

-- DeleteSession
unfoldable pub delete_session : Text → Db → Db
unfolding select
delete_session id_hash db = record db {
  sessions = select (λ s. not (beq s.id id_hash)) db.sessions;
}

-- PurgeExpiredSessions
unfoldable pub purge_expired_sessions : ℕ → Db → Db
unfolding select
purge_expired_sessions now db = record db {
  sessions = select (λ s. not (leb s.expires_at now)) db.sessions;
}
