-- ===== src/Imap/Tests.antt =====
-- internal/imapserver/server.go: the commands on a mailbox with two messages.
use git2imap.Base.{
  ap, Bool, Option, ◌≢◌, ◌||◌, ◌&&◌, any, if◌then◌else◌, ℕ, ◌≡◌, refl, true, false, none, some,
  List, [], ◌∷◌, ◌++◌, map, Text, codes, arith, length, ◌↔◌, sort_by, insert_by, beq, find, select,
}
use git2imap.Store.{Mailbox, Message}
use git2imap.Store.Replace.Tests.{
  main_box-Numbered, a_repository, main_box, main_after, message, before, after,
}
use git2imap.Store.Mailboxes.{messages, mailboxes, mailbox_by_name}
use git2imap.Imap.{NumSet, seq_set, Plain, Criteria, criteria, no_nots, and_not, no_ors, and_or}
use git2imap.Imap.Sets.{num_set_contains, Selects, num_set_contains_iff}
use git2imap.Imap.Search.{matches}
use git2imap.Imap.Search.Decides.{Meets, matches_lem}
use git2imap.Imap.Search.Command.{SearchData, kind_uid, search_messages, hits, last_uid}
use git2imap.Imap.Search.Results.{Describes, search_messages_lem}
use git2imap.Imap.Fetch.{FetchOptions}
use git2imap.Imap.Session.{Session, Refresh, refresh_selected, select_mailbox}
use git2imap.Imap.Session.Listing.{
  StatusOptions, status, Agree, status-select_mailbox, list_mailboxes, list_mailboxes_lem, entry,
  parent, chosen, nested, matches_list,
}
use git2imap.Imap.Session.Refreshed.{key, Keeps, service_refresh, refresh_selected-refresh}
use git2imap.Service.Refresh.{snapshots, snapshot, mark, ready}
use git2imap.Service.Refresh.Tests.{at_work, main, few}
use git2imap.Store.Repositories.{repository}
use git2imap.Store.Mailboxes.{update_mailboxes, insert_message}
use git2imap.Store.Replace.{
  mailbox_name, replace_mailboxes, sync_branches, sync_branch, load_mailbox_state, needs_rebuild,
  append_commits, insert_commits, delete_unseen,
}

abbrev two : List Message
two = message 1 1 (codes "a") ∷ message 1 2 (codes "c") ∷ []

abbrev to_end : NumSet
to_end = seq_set ((record { start = 0; stop = 2 }) ∷ [])

num_set_contains_iff_example : (num_set_contains to_end 3 7 4 9 ≡ true) ↔ Selects to_end 3 7 4 9
num_set_contains_iff_example = num_set_contains_iff to_end 3 7 4 9

abbrev anything : Plain
anything = record {
  seq_num = [];
  uid = [];
  since = none;
  before = none;
  sent_since = none;
  sent_before = none;
  header = [];
  body = [];
  text = [];
  flag = [];
  not_flag = [];
  larger = 0;
  smaller = 0;
}

-- NOT LARGER 3 OR (SMALLER 9) ALL
abbrev asked : Criteria
asked =
    criteria anything (and_not (criteria (record anything { larger = 3 }) no_nots no_ors) no_nots) (
      and_or (criteria (record anything { smaller = 9 }) no_nots no_ors)
        (criteria anything no_nots no_ors) no_ors)

abbrev same : Text → Text
same s = s

abbrev utc : ℕ → ℕ
utc t = t

matches_lem_example :
    (b : Bool) × (matches utc same (message 1 1 (codes "a")) (some (codes "raw")) 1 2 2 asked
      ≡ some b)
    × ((b ≡ true) ↔ Meets utc same (message 1 1 (codes "a")) (codes "raw") 1 2 2 asked)
matches_lem_example = matches_lem utc same (message 1 1 (codes "a")) (codes "raw") 1 2 2 asked

search_messages_lem_example :
    (d : SearchData) × (search_messages utc same (λ m. some m.commit_oid) kind_uid asked two
      ≡ some d)
    × Describes d (
        hits utc same
          (λ m. some m.commit_oid)
          kind_uid
          asked
          (λ m. m.commit_oid)
          (length two)
          (last_uid two)
          1
          two)
search_messages_lem_example =
    search_messages_lem utc same (λ m. some m.commit_oid) kind_uid asked (λ m. m.commit_oid)
      (λ m. refl) two (omega arith, (omega arith, tt))

abbrev options : FetchOptions
options = record {
  flags = true;
  internal_date = false;
  rfc822_size = true;
  envelope = true;
  body_structure = false;
  body_section = 1 ∷ [];
  binary_section = [];
  binary_section_size = [];
}

abbrev rendered : Message → Option Text
rendered m = some m.commit_oid

-- A session that selected INBOX before the refresh that appends a commit.
abbrev selected : Session
selected = record {
  repo = some a_repository;
  selected = some main_box;
  messages = message 1 1 (codes "a") ∷ [];
}

abbrev refresh : Refresh
refresh id db = (true, after)

abbrev all_names : Text → Text → Text → Bool
all_names name ref pattern = beq pattern (codes "*") || beq name pattern

abbrev count_only : StatusOptions
count_only = record {
  num_messages = true;
  num_unseen = false;
  num_recent = false;
  num_deleted = false;
  size = false;
}

abbrev text_of : Mailbox → Message → Option Text
text_of mailbox m = some m.subject

status-select_mailbox_example :
    Agree all_names text_of
      (status all_names text_of refresh (codes "INBOX") count_only selected before).0
      (select_mailbox refresh (codes "INBOX") selected before).0
status-select_mailbox_example =
    status-select_mailbox all_names text_of refresh (codes "INBOX") count_only selected before refl
      refl

some_pattern : (codes "*" ∷ []) ≢ []
some_pattern h = cc h

list_mailboxes_lem_example :
    list_mailboxes all_names text_of [] (codes "*" ∷ []) none after (codes "repo") ≡ (
      map
            (λ m. entry all_names text_of m none)
            (select
              (chosen all_names text_of [] (codes "*" ∷ []) after)
              (mailboxes (codes "repo") after))
          ++ (if any (nested all_names text_of [] (codes "*" ∷ []) after) (
                  select
                    (chosen all_names text_of [] (codes "*" ∷ []) after)
                    (mailboxes (codes "repo") after))
                && matches_list all_names text_of (codes "Branches") [] (codes "*" ∷ [])
              then parent all_names text_of ∷ []
              else []),
      false,
    )
list_mailboxes_lem_example =
    list_mailboxes_lem all_names text_of [] (codes "*" ∷ []) after (codes "repo") some_pattern

one_message : message 1 1 (codes "a") ∷ [] ≡ messages 1 before
unfolding messages select sort_by insert_by
one_message = refl

refresh_selected-refresh_example :
    Keeps selected (refresh_selected (service_refresh at_work) selected before).1
unfolding find beq mailbox_by_name repository mailbox_name git2imap.Service.Refresh.refresh
    snapshots snapshot mailboxes mark replace_mailboxes update_mailboxes sync_branches sync_branch
    load_mailbox_state needs_rebuild append_commits insert_commits insert_message delete_unseen
refresh_selected-refresh_example =
    refresh_selected-refresh at_work (codes "repo") a_repository main_box main_after main
      (main ∷ []) before (tt, tt) (omega arith) refl refl refl refl (tt, tt) refl few (omega arith)
      main_box-Numbered (omega arith) refl selected main_box refl refl refl
      (ap (map key) one_message) refl {e = none} refl refl
