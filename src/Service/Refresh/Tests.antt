-- ===== src/Service/Refresh/Tests.antt =====
-- internal/service/repository.go: a refresh of one repository, and one that git refuses.
use git2imap.Base.{
  suc, ◌+◌, ◌<◌, ◌^◌, ◌≡◌, refl, true, false, Option, none, some, [], ◌∷◌, List, Text, codes, beq,
  find, map, arith, ne_of_beq, Bool-cases, inl, inr, length,
}
use git2imap.Store.{BranchSnapshot}
use git2imap.Store.Repositories.{repository}
use git2imap.Store.Mailboxes.{mailboxes, update_mailboxes, insert_message}
use git2imap.Store.Replace.{
  mailbox_name, replace_mailboxes, sync_branches, sync_branch, load_mailbox_state, needs_rebuild,
  append_commits, insert_commits, delete_unseen,
}
use git2imap.Store.Replace.Branch.{Kept}
use git2imap.Store.Replace.Tests.{before, main_box, clock, a_repository}
use git2imap.Git.{Auth, Commit, Branch, got, Backend}
use git2imap.Service.Refresh.{
  World, commit_snapshot, git_error, new_commits, refresh, snapshots, snapshot, mark,
  record_refresh_error,
}
use git2imap.Service.Refresh.Outcome.{refresh-SameMail}
use git2imap.Service.Refresh.Status.{SameMail}
use git2imap.Service.Refresh.Forward.{refresh-Kept}
use git2imap.Service.Refresh.Snapshots.{got-eq}

abbrev nobody : Auth
nobody = record { username = []; password = []; private_key = []; passphrase = [] }

abbrev pushed : Commit
pushed = record {
  oid = codes "c";
  subject = codes "s";
  author_name = codes "A";
  author_email = codes "a@example.com";
  authored_at = 100;
}

abbrev pub main : Branch
main = record { name = codes "main"; oid = codes "c" }

abbrev git : Option Text → Backend
git trouble = record {
  exists = λ path. true;
  clone = λ remote path kind auth. ([], trouble);
  fetch = λ remote path kind auth. ([], trouble);
  default_branch = λ remote path kind auth. got (codes "main");
  branches = λ path. got (main ∷ []);
  is_ancestor = λ path old new. true;
  commits = λ path revision. got (pushed ∷ []);
  render_commit = λ path oid. got [];
}

abbrev world : Option Text → World
world trouble = record {
  git = git trouble;
  repository_path = λ id. id;
  decrypt = some;
  decode_auth = λ s. some nobody;
  describe = λ e. codes "no route to host";
  ended = λ c. false;
  marked_at = 200;
  failed_at = 201;
  ready_at = 201;
  clock = clock;
}

abbrev pub at_work : World
at_work = world none

abbrev cut_off : World
cut_off = world (some (codes "no route to host"))

abbrev repo_id : Text
repo_id = codes "repo"

pub few :
    (revision : Text) (cs : List Commit)
    → new_commits at_work repo_id revision ≡ got cs
    → suc 2 + length cs < 2 ^ 32
few revision cs h = elim (Bool-cases (beq revision [])) [
  | inl t ↦ let is : [] ≡ cs = got-eq (rw t at h) in rw (← is) (omega arith)
  | inr t ↦ let is : pushed ∷ [] ≡ cs = got-eq (rw t at h) in rw (← is) (omega arith)
]

refresh-Kept_example :
    (s : BranchSnapshot) × (commits : List Commit) × (s.head_oid ≡ codes "c")
    × (new_commits at_work repo_id (codes "a..c") ≡ got commits)
    × (s.new_commits ≡ map commit_snapshot commits)
    × Kept main_box s (refresh at_work repo_id before).1 before
unfolding find beq repository mailbox_name refresh snapshots snapshot mailboxes mark
    replace_mailboxes update_mailboxes sync_branches sync_branch load_mailbox_state needs_rebuild
    append_commits insert_commits insert_message delete_unseen
refresh-Kept_example =
    refresh-Kept at_work repo_id a_repository main_box main (main ∷ []) before (tt, tt)
      (omega arith) refl refl refl refl (tt, tt) refl few (λ auth. refl) refl
      (ne_of_beq (codes "a") [] refl) refl refl

refresh-SameMail_example : SameMail (refresh cut_off repo_id before).1 before
unfolding refresh repository find beq record_refresh_error
refresh-SameMail_example =
    refresh-SameMail cut_off repo_id before {e = git_error (codes "no route to host")} refl refl
