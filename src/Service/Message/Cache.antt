-- ===== src/Service/Message/Cache.antt =====
-- internal/service/repository.go: `RenderMessage` with its cache.
use git2imap.Base.{
  subst, ℕ, ◌≡◌, refl, sym, false, not, none, some, List, [], ◌∷◌, Text, codes, beq, beq_refl,
  if-cases,
}
use git2imap.Store.{Repository, Mailbox, Message, Db}
use git2imap.Store.Mailboxes.{update_message_cache}
use git2imap.Git.{Answer, failed, got, Backend}
use git2imap.Service.Message.{
  Formats, Files, Disk, read_file, cache_file, cached, publish, rendered, render_message,
  build_message,
}

read_file_head : (path eml : Text) (files : Files) → read_file path ((path, eml) ∷ files) ≡ some eml
unfolding read_file
read_file_head path eml files = rw (beq_refl path) refl

-- Both cases of the cache.
module _ (f : Formats) (git : Backend) (join : List Text → Text) (cache_dir : Text)
    (repository_path : Text → Text) (size : Text → ℕ) (disk : Disk) (repo : Repository)
    (mailbox : Mailbox) (m : Message) (files : Files) (db : Db) where
  render_message_hit :
      {eml : Text}
      → beq m.cache_path [] ≡ false
      → read_file m.cache_path files ≡ some eml
      → render_message f git join cache_dir repository_path size disk repo mailbox m files db
        ≡ (got eml, files, db)
  unfolding render_message
  render_message_hit h r = cc (h, r)

  render_message_miss :
      cached f git join cache_dir repository_path size m files ≡ none
      → render_message f git join cache_dir repository_path size disk repo mailbox m files db
        ≡ rendered f git join cache_dir repository_path size disk repo mailbox m
            (git.render_commit (repository_path repo.id) m.commit_oid)
            files
            db
  unfolding render_message
  render_message_miss h = cc h

module _ (f : Formats) (git : Backend) (join : List Text → Text) (cache_dir : Text)
    (repository_path : Text → Text) (size : Text → ℕ) (repo : Repository) (mailbox : Mailbox)
    (msg : Message) where
  -- What a call without a cached file ends with.
  data Rendered (files : Files) (db : Db) : Answer Text × Files × Db → Type 0 where
    broken : (m : Text) (left : Files) → Rendered files db (failed m, left, db)
    written :
        (patch : Text) (files' : Files)
        → git.render_commit (repository_path repo.id) msg.commit_oid ≡ got patch
        → read_file (cache_file f git join cache_dir repository_path size repo mailbox msg) files'
          ≡ some (build_message f repo mailbox msg patch)
        → Rendered files db (
          got (build_message f repo mailbox msg patch),
          files',
          update_message_cache mailbox.id msg.uid
              (size (build_message f repo mailbox msg patch))
              (cache_file f git join cache_dir repository_path size repo mailbox msg)
              db,
        )

  rendered-Rendered :
      (disk : Disk) (a : Answer Text) (files : Files) (db : Db)
      → git.render_commit (repository_path repo.id) msg.commit_oid ≡ a
      → Rendered files db
          (rendered f git join cache_dir repository_path size disk repo mailbox msg a files db)
  unfolding rendered publish read_file
  rendered-Rendered disk (failed m) files db h = broken m files
  rendered-Rendered disk (got patch) files db h =
      if-cases (Rendered files db) (not disk.directory) (λ _. broken (codes "mkdir") files)
        (λ _.
          if-cases (Rendered files db) (not disk.written) (λ _. broken (codes "write") _)
            (λ _.
              if-cases (Rendered files db) (not disk.renamed) (λ _. broken (codes "rename") _)
                (λ _. written patch _ h (read_file_head _ _ _))))

  -- The row of a message whose file is in the cache.
  abbrev pub filed : Text → Message
  filed eml = record msg {
    size = size eml;
    cache_path = cache_file f git join cache_dir repository_path size repo mailbox msg;
  }

  abbrev pub Again : Backend → Disk → Db → Answer Text × Files × Db → Type 0
  Again git' disk' db (failed m, files', db') = db' ≡ db
  Again git' disk' db (got eml, files', db') =
      (db'
        ≡ update_message_cache mailbox.id msg.uid (size eml)
            (cache_file f git join cache_dir repository_path size repo mailbox msg) db)
      × (render_message f git' join cache_dir repository_path size disk' repo mailbox (filed eml)
            files' db'
          ≡ (got eml, files', db'))

  Rendered-Again :
      (git' : Backend) (disk' : Disk) {files : Files} {db : Db} {out : Answer Text × Files × Db}
      → beq (cache_file f git join cache_dir repository_path size repo mailbox msg) [] ≡ false
      → Rendered files db out
      → Again git' disk' db out
  Rendered-Again git' disk' h (broken m left) = refl
  Rendered-Again git' disk' h (written patch files' g r) = (
    refl,
    render_message_hit f git' join cache_dir repository_path size disk' repo mailbox
        (filed (build_message f repo mailbox msg patch)) files' _ h r,
  )

  -- A message that is rendered for the first time. With an error the database stays as it is. If the
  -- text comes out, its size and path are recorded, and then it is read again from its file, the
  -- same text, whatever git says by then, and nothing changes any more.
  pub render_message-Again :
      (git' : Backend) (disk disk' : Disk) (files : Files) (db : Db)
      → cached f git join cache_dir repository_path size msg files ≡ none
      → beq (cache_file f git join cache_dir repository_path size repo mailbox msg) [] ≡ false
      → Again git' disk' db
          (render_message f git join cache_dir repository_path size disk repo mailbox msg files db)
  render_message-Again git' disk disk' files db h k =
      subst (Again git' disk' db)
        (sym (
          render_message_miss f git join cache_dir repository_path size disk repo mailbox msg files
            db h))
        (Rendered-Again git' disk' k (rendered-Rendered disk _ files db refl))
