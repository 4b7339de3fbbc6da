-- ===== src/Lib.antt =====
-- git2imap serves hosted Git repositories as read-only mail accounts: a repository is an account, a
-- branch is a mailbox, and a commit is a message. A refresh fetches a mirror of the repository and
-- hands the branches with their new commits to the store. The IMAP server refreshes and then reads
-- the store, the SMTP server accepts mail and throws it away, and the web server administers the
-- repositories.
--
-- Base: texts as lists of code points, lists, sorting, Boolean tests.
-- Store: internal/store. `Db` is the database, a list of rows for each table of the schema, and a
--   function for each statement, with the UNIQUE clauses as tests. Store.Replace is
--   `ReplaceMailboxes` (`replace_mailboxes`, with a function for each part of its loop). Its
--   modules follow the proof: Commits on the loop over the new commits, Rows on one mailbox under
--   an UPDATE, Branch on one round, Outcome on all rounds, Contract on the transaction, and Uids on
--   what a client can rely on. Names, Total, Aside, Stage, Inserted, Progress, Clean and Mirror are
--   on whether it commits, and on the mailboxes that it leaves. Store.Sound is the invariant of all
--   tables, with the calls of the package as the relation `Reach`.
-- Imap: internal/imapserver/server.go. Sets, Search and Fetch are the commands on messages, Session
--   is the state of a connection, Session.Listing LIST and STATUS, and Session.Refreshed a poll
--   with the refresh of the service. Search.Keys is what the keys ask, Search.Meaning the criteria as
--   one Boolean, and Search.Decides puts them together; Fetch.Answers is what FETCH answers.
-- Smtp: internal/smtpserver/server.go, the session as a state with a step for each command.
-- Secure: internal/secure/secure.go, the box over an interface for its cipher, the password hash
--   over one for argon2, and in Filled the interface `Secrets` of the service made of both.
-- Web: internal/web/server.go. Limit, Flash, Access and Login are the parts of a login, Actions the
--   POST handlers behind it and Pages the GET ones.
-- Config: internal/config/config.go, the environment and the validation.
-- Service: internal/service/repository.go. Slug, Address, Credential and Add are the accounts. Refresh
--   is `refresh` on the answers of git, a function for each part: Snapshots on its loop over the
--   branches, Status on its writes of the status, Outcome on its ends, Forward on a mailbox through
--   the whole refresh. Calls is the
--   interleaving of `RefreshRepository` and `DeleteRepository`, a step relation on the map of calls
--   and the row, with its invariant in Invariant, the waiting callers in Served and the end of a
--   call in Ends. Message is `buildMessage` and `RenderMessage`: Lines, Reader
--   and Body on the text, Cache on the files. Start is `PurgeLegacyRepositories` and `EnsureAll`, with
--   what their deletions leave in Deletions and Purged.
-- Git: internal/gitbackend/git.go. Remote is the validation of remotes, Quote the words of a shell,
--   Output the collector of git's output, Parse the reading of it. Command is the preparation of a
--   run of git, together with `runAskpass` of cmd/git2imap/main.go: Env on its environment, Secrets
--   on its credentials and temporary files. Runs are the methods of `Backend`
--   on what git and the operating system answer: Retry on the moves of a clone, Publish on what it
--   leaves on the disk, Hosts on fingerprints, Filled the interface of the service.
-- Listen: `New` and `Serve` of internal/imapserver/server.go and internal/smtpserver/server.go.
-- Main: `run` of cmd/git2imap/main.go, which puts Config, Service.Start and Listen together.
--
-- Numbers: uids and UIDVALIDITY wrap at 2 ^ 32 as in the source (`u32`). Sequence numbers and
-- lengths are not wrapped. Times are seconds, and nanoseconds in Web. The definitions
-- that run on fuel are `digits`, the decimal digits of a number, whose fuel is the number itself,
-- `find_key`, whose fuel is the length of the text of known_hosts, of which each line takes a part,
-- `rename_from`, whose fuel are the twenty attempts of the source, and `read_header`, a reader of
-- messages that is no part of the program, whose fuel is the length of the message.
--
-- Parameters: the random generator, the clock, the cipher and the hashes, base64, URL parsing,
-- Unicode case mapping, `strings.EqualFold`, the SCP pattern, the patterns of LIST, what git and the
-- operating system answer, in the IMAP server the rendering of a message and the refresh of a
-- repository, and in Web.Actions adding, refreshing and deleting one. In Service.Refresh the context
-- may end at any call of the store (`ended`); in git it is one of git's errors.
--
-- Not modelled: the wire formats and TLS, which are the libraries'; the loggers; the templates; the
-- signals that end the program; and errors of SQLite other than a violated constraint or a missing
-- row. Apart from Service.Calls each operation runs alone, as under its lock.
pub mod Base
pub mod Store
pub mod Imap
pub mod Smtp
pub mod Secure
pub mod Web
pub mod Config
pub mod Service
pub mod Git
pub mod Listen
pub mod Main
