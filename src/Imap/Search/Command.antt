-- ===== src/Imap/Search/Command.antt =====
-- internal/imapserver/server.go: the loop of the SEARCH command and the data that it returns.
use git2imap.Base.{
  ℕ, suc, ◌+◌, ◌||◌, Option, none, some, List, [], ◌∷◌, ◌++◌, Text, length, ltb, ◌==◌,
  if◌then◌else◌,
}
use git2imap.Store.{Message}
use git2imap.Imap.{Criteria}
use git2imap.Imap.Search.{matches}
use git2imap.Imap.Search.Meaning.{holds}

pub data Kind : Type 0 where
  kind_seq kind_uid : Kind

-- imap.SearchData; `all` lists the numbers in the order in which they are added to the set.
pub record SearchData : Type 0 where
  pub all : List ℕ
  pub count : ℕ
  pub min : ℕ
  pub max : ℕ

abbrev pub no_data : SearchData
no_data = record { all = []; count = 0; min = 0; max = 0 }

unfoldable pub note : SearchData → ℕ → SearchData
note d number = record {
  all = d.all ++ number ∷ [];
  count = d.count + 1;
  min = if d.min == 0 || ltb number d.min then number else d.min;
  max = if ltb d.max number then number else d.max;
}

abbrev pub number : Kind → ℕ → Message → ℕ
number kind_seq seq message = seq
number kind_uid seq message = message.uid

-- The uid of the last message.
unfoldable pub last_uid : List Message → ℕ
last_uid [] = 0
last_uid (m ∷ []) = m.uid
last_uid (m ∷ n ∷ ms) = last_uid (n ∷ ms)

module _ (local : ℕ → ℕ) (to_lower : Text → Text) (render : Message → Option Text) (kind : Kind)
    (c : Criteria) where
  -- The loop of Search, from the message with sequence number `seq` on.
  unfoldable pub search_from : ℕ → ℕ → ℕ → List Message → SearchData → Option SearchData
  unfolding note
  search_from max_seq max_uid seq [] d = some d
  search_from max_seq max_uid seq (m ∷ ms) d =
      elim (matches local to_lower m (render m) seq max_seq max_uid c) [
        | none ↦ none
        | some match ↦
            search_from max_seq max_uid (suc seq) ms
              (if match then note d (number kind seq m) else d)
      ]

  -- Search, on the messages of the selected mailbox.
  unfoldable pub search_messages : List Message → Option SearchData
  unfolding search_from last_uid
  search_messages ms = search_from (length ms) (last_uid ms) 1 ms no_data

  module _ (text : Message → Text) (max_seq max_uid : ℕ) where
    -- The numbers of the messages that meet the criteria.
    unfoldable pub hits : ℕ → List Message → List ℕ
    hits seq [] = []
    hits seq (m ∷ ms) =
        let rest = hits (suc seq) ms in
        if holds local to_lower m (text m) seq max_seq max_uid c
        then number kind seq m ∷ rest
        else rest
