-- ===== src/Imap.antt =====
-- internal/imapserver/server.go: the sets, criteria and options of the IMAP commands, in the parts
-- that the code reads of package go-imap.
pub mod Sets
pub mod Address
pub mod Search
pub mod Fetch
pub mod Session
pub mod Tests
use git2imap.Base.{ℕ, Option, List, Text}

-- One range of a set; 0 stands for `*`.
pub record NumRange : Type 0 where
  pub start : ℕ
  pub stop : ℕ

-- imap.NumSet: a set of sequence numbers, of uids, or of another dynamic type.
pub data NumSet : Type 0 where
  seq_set : List NumRange → NumSet
  uid_set : List NumRange → NumSet
  other_set : NumSet

-- The fields of imap.SearchCriteria that hold no criteria; a zero time is `none`.
pub record Plain : Type 0 where
  pub seq_num : List (List NumRange)
  pub uid : List (List NumRange)
  pub since : Option ℕ
  pub before : Option ℕ
  pub sent_since : Option ℕ
  pub sent_before : Option ℕ
  pub header : List (Text × Text)
  pub body : List Text
  pub text : List Text
  pub flag : List Text
  pub not_flag : List Text
  pub larger : ℕ
  pub smaller : ℕ

-- imap.SearchCriteria, with its lists `Not` and `Or`.
mutual
  pub data Criteria : Type 0 where
    criteria : Plain → Nots → Ors → Criteria

  pub data Nots : Type 0 where
    no_nots : Nots
    and_not : Criteria → Nots → Nots

  pub data Ors : Type 0 where
    no_ors : Ors
    and_or : Criteria → Criteria → Ors → Ors
