-- ===== src/Service/Message/Tests.antt =====
-- internal/service/repository.go: the message of a commit whose subject tries to add a header line.
use git2imap.Base.{
  ◌≡◌, refl, true, false, none, some, List, [], ◌∷◌, ◌++◌, Text, codes, beq, has, length,
}
use git2imap.Store.{Message}
use git2imap.Store.Replace.Tests.{before, main_box, a_repository, message}
use git2imap.Git.{Backend, Answer, failed, got}
use git2imap.Service.Message.{
  Formats, Disk, header, build_message, body_of, render_message, ends_line, cache_file,
}
use git2imap.Service.Message.Reader.{Single, read_header}
use git2imap.Service.Message.Body.{bare_feed}
use git2imap.Service.Message.Lines.{read_header-build_message}
use git2imap.Service.Message.Cache.{Again, render_message-Again}

abbrev formats : Formats
formats = record { q_encode = λ s. s; hash_hex = λ n s. codes "aa"; date = λ t. codes "now" }

abbrev sly : Message
sly = record (message 1 1 (codes "a")) { subject = codes "hi\r\nBcc: all@example.test" }

single : {s : Text} → has 13 s ≡ false → has 10 s ≡ false → Single s
single h k = record { no_return = h; no_feed = k }

read_header-build_message_example :
    (read_header
        (length (build_message formats a_repository main_box sly (codes "diff\n")))
        (build_message formats a_repository main_box sly (codes "diff\n"))
      ≡ some (header formats a_repository main_box sly, body_of (codes "diff\n")))
    × (bare_feed false (body_of (codes "diff\n")) ≡ false)
    × (ends_line (body_of (codes "diff\n")) ≡ true)
unfolding has
read_header-build_message_example =
    read_header-build_message formats a_repository main_box sly (λ s h. h) (λ n s. single refl refl)
      (λ t. single refl refl) (single refl refl) (single refl refl) (codes "diff\n")

abbrev git : Answer Text → Backend
git shown = record {
  exists = λ path. true;
  clone = λ remote path kind auth. ([], none);
  fetch = λ remote path kind auth. ([], none);
  default_branch = λ remote path kind auth. got (codes "main");
  branches = λ path. got [];
  is_ancestor = λ path old new. true;
  commits = λ path revision. got [];
  render_commit = λ path oid. shown;
}

abbrev join : List Text → Text
join [] = []
join (part ∷ parts) = part ++ codes "/" ++ join parts

abbrev disk : Disk
disk = record { directory = true; written = true; renamed = true; partial = [] }

render_message-Again_example :
    Again formats
      (git (got (codes "diff\n")))
      join
      (codes "/cache")
      (λ id. id)
      (λ s. 9)
      a_repository
      main_box
      sly
      (git (failed (codes "gone")))
      disk
      before
      (render_message formats
        (git (got (codes "diff\n")))
        join
        (codes "/cache")
        (λ id. id)
        (λ s. 9)
        disk
        a_repository
        main_box
        sly
        []
        before)
unfolding beq cache_file
render_message-Again_example =
    render_message-Again formats (git (got (codes "diff\n"))) join (codes "/cache") (λ id. id)
      (λ s. 9) a_repository main_box sly (git (failed (codes "gone"))) disk disk [] before refl refl
