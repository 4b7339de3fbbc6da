-- ===== src/Git/Runs/Filled.antt =====
-- internal/gitbackend/git.go: the interface that the service uses, made of the methods of `Backend`.
use git2imap.Base.{Bool, Text}
use git2imap.Git.{Backend}
use git2imap.Git.Parse.{is_ancestor}
use git2imap.Git.Runs.{
  System, clone, fetch, default_branch, branches, commits, render_commit, merge_base,
}

-- `exists` is os.Stat on the path of a mirror.
unfoldable pub backend : System → (Text → Bool) → Backend
unfolding clone fetch default_branch branches commits render_commit merge_base is_ancestor
backend s exists = record {
  exists = exists;
  clone = λ remote target auth_type auth. (clone s remote target auth_type auth).0;
  fetch = fetch s;
  default_branch = default_branch s;
  branches = branches s;
  is_ancestor = λ path. is_ancestor (merge_base s path);
  commits = commits s;
  render_commit = render_commit s;
}
