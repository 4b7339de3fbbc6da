-- ===== src/Service/Message.antt =====
-- internal/service/repository.go: `buildMessage` and `RenderMessage`.
pub mod Reader
pub mod Body
pub mod Lines
pub mod Cache
pub mod Tests
use git2imap.Base.{
  ℕ, Bool, false, ◌||◌, not, Option, none, some, List, [], ◌∷◌, ◌++◌, Text, codes, beq, select,
  if◌then◌else◌,
}
use git2imap.Store.{Repository, Mailbox, Message, Db}
use git2imap.Store.Mailboxes.{update_message_cache}
use git2imap.Git.{Answer, failed, got, Backend}
use git2imap.Git.Quote.{replace_all}

-- mime.QEncoding.Encode, the hexadecimal form of the first bytes of sha256.Sum256, and the date in
-- the format RFC1123Z.
pub record Formats : Type 0 where
  pub q_encode : Text → Text
  pub hash_hex : ℕ → Text → Text
  pub date : ℕ → Text

-- `safe`
unfoldable pub safe : Text → Text
unfolding replace_all
safe value = replace_all (10 ∷ []) (32 ∷ []) (replace_all (13 ∷ []) (32 ∷ []) value)

abbrev pub crlf : Text
crlf = 13 ∷ 10 ∷ []

abbrev pub printed : List Text → Text
printed [] = []
printed (line ∷ lines) = line ++ 13 ∷ 10 ∷ printed lines

-- strings.HasSuffix with the end of a line.
unfoldable pub ends_line : Text → Bool
ends_line [] = false
ends_line (c ∷ s) = beq (c ∷ s) crlf || ends_line s

unfoldable pub body_of : Text → Text
unfolding replace_all ends_line
body_of patch =
    let body = replace_all (10 ∷ []) crlf (replace_all crlf (10 ∷ []) patch) in
    if ends_line body then body else body ++ crlf

module _ (f : Formats) where
  unfoldable pub header : Repository → Mailbox → Message → List Text
  unfolding safe
  header repo mailbox msg =
      (codes "From: "
        ++ (f.q_encode (safe msg.author_name)
            ++ (codes " <" ++ (safe msg.author_email ++ codes ">"))))
      ∷ (codes "To: " ++ safe repo.mail_username)
      ∷ (codes "Subject: " ++ f.q_encode (safe msg.subject))
      ∷ (codes "Date: " ++ f.date msg.authored_at)
      ∷ (codes "Message-ID: <"
          ++ (msg.commit_oid
              ++ (codes "."
                  ++ (f.hash_hex 6 mailbox.branch
                      ++ (codes "." ++ (repo.id ++ codes "@git2imap>"))))))
      ∷ (codes "X-Git-Repository: " ++ safe repo.name)
      ∷ (codes "X-Git-Branch: " ++ safe mailbox.branch)
      ∷ (codes "X-Git-Commit: " ++ msg.commit_oid)
      ∷ codes "MIME-Version: 1.0"
      ∷ codes "Content-Type: text/plain; charset=utf-8"
      ∷ codes "Content-Transfer-Encoding: 8bit"
      ∷ []

  -- buildMessage
  unfoldable pub build_message : Repository → Mailbox → Message → Text → Text
  unfolding header body_of
  build_message repo mailbox msg patch =
      printed (header repo mailbox msg) ++ 13 ∷ 10 ∷ body_of patch

-- The files by their paths; the newest entry of a path counts.
abbrev pub Files : Type 0
Files = List (Text × Text)

unfoldable pub read_file : Text → Files → Option Text
read_file path [] = none
read_file path ((p, eml) ∷ files) = if beq p path then some eml else read_file path files

unfoldable pub remove_file : Text → Files → Files
unfolding select
remove_file path files = select (λ e. not (beq e.0 path)) files

-- What the operating system says to the steps of writing a file; `partial` is what a write that
-- fails leaves.
pub record Disk : Type 0 where
  pub directory : Bool
  pub written : Bool
  pub renamed : Bool
  pub partial : Text

module _ (f : Formats) (git : Backend) (join : List Text → Text) (cache_dir : Text)
    (repository_path : Text → Text) (size : Text → ℕ) where
  unfoldable pub cache_file : Repository → Mailbox → Message → Text
  cache_file repo mailbox msg = join (
      join (cache_dir ∷ codes "messages" ∷ repo.id ∷ f.hash_hex 8 mailbox.branch ∷ [])
      ∷ (msg.commit_oid ++ codes ".eml")
      ∷ [])

  abbrev pub cached : Message → Files → Option Text
  cached msg files = if beq msg.cache_path [] then none else read_file msg.cache_path files

  unfoldable pub publish :
      Disk → Mailbox → Message → Text → Text → Files → Db → Answer Text × Files × Db
  unfolding remove_file update_message_cache
  publish disk mailbox msg path eml files db =
      let tmp = path ++ codes ".tmp" in
      let rest = remove_file tmp files in
      if not disk.directory
      then (failed (codes "mkdir"), files, db)
      else if not disk.written
      then (failed (codes "write"), (tmp, disk.partial) ∷ rest, db)
      else if not disk.renamed
      then (failed (codes "rename"), rest, db)
      else (got eml, (path, eml) ∷ rest, update_message_cache mailbox.id msg.uid (size eml) path db)

  unfoldable pub rendered :
      Disk → Repository → Mailbox → Message → Answer Text → Files → Db → Answer Text × Files × Db
  unfolding publish cache_file build_message
  rendered disk repo mailbox msg (failed m) files db = (failed m, files, db)
  rendered disk repo mailbox msg (got patch) files db =
      publish disk mailbox msg (cache_file repo mailbox msg)
        (build_message f repo mailbox msg patch) files db

  -- RenderMessage. The row of the cache is written only at the end, and its error is ignored.
  unfoldable pub render_message :
      Disk → Repository → Mailbox → Message → Files → Db → Answer Text × Files × Db
  unfolding read_file rendered
  render_message disk repo mailbox msg files db = elim (cached msg files) [
    | some eml ↦ (got eml, files, db)
    | none ↦
        rendered disk repo mailbox msg (git.render_commit (repository_path repo.id) msg.commit_oid)
          files db
  ]
