-- ===== src/Git/Runs/Hosts.antt =====
-- internal/gitbackend/git.go: which key `hostFingerprint` shows.
use git2imap.Base.{
  ℕ, zero, suc, ◌≤◌, ◌≡◌, refl, Option, none, some, List, [], ◌∷◌, Text, codes, beq, any, find,
  length, arith, if◌then◌else◌, Bool-cases, inl, inr,
}
use git2imap.Git.{got}
use git2imap.Git.Runs.{
  System, names_host, find_key, fingerprint_of, remote_host, join_host_port, host_fingerprint,
}

module _ (s : System) where
  -- The lines of known_hosts up to the first one that cannot be parsed. A line takes characters.
  data Lines : Text → List (List Text × Text) → Type 0 where
    ended : Lines [] []
    broken : (c : ℕ) (text : Text) → s.next_known_host (c ∷ text) ≡ none → Lines (c ∷ text) []
    line :
        (c : ℕ) (text : Text) {hosts : List Text} {key rest : Text} {es : List (List Text × Text)}
        → s.next_known_host (c ∷ text) ≡ some (hosts, key, rest)
        → length rest ≤ length text
        → Lines rest es
        → Lines (c ∷ text) ((hosts, key) ∷ es)

  abbrev key_of : Option (List Text × Text) → Option Text
  key_of none = none
  key_of (some (hosts, key)) = some key

  abbrev first_key : Text → Text → List (List Text × Text) → Option Text
  first_key host target es =
      key_of (find (λ (e : List Text × Text). any (names_host s host target) e.0) es)

  find_key_lem :
      (fuel : ℕ) (host target text : Text) {es : List (List Text × Text)}
      → length text ≤ fuel
      → Lines text es
      → find_key s fuel host target text ≡ first_key host target es
  unfolding find_key find
  find_key_lem zero host target [] le ended = refl
  find_key_lem (suc fuel) host target [] le ended = refl
  find_key_lem zero host target (c ∷ text) le lines = ground (arith, le)
  find_key_lem (suc fuel) host target (c ∷ text) le (broken _ _ e) = ground (arith, e)
  find_key_lem (suc fuel) host target (c ∷ text) le
        (line _ _ {hosts} {key} {rest} {es} e short lines) =
      let later = find_key_lem fuel host target rest {es = es} (omega (arith, le, short)) lines in
      elim (Bool-cases (any (names_host s host target) hosts)) [
        | inl t ↦ ground (arith, e, t)
        | inr t ↦ ground (arith, e, t, later)
      ]

  -- For a remote over SSH, `hostFingerprint` shows the first key of known_hosts that is for the host
  -- or, behind another port than 22, for host and port; the fuel is enough for all lines.
  host_fingerprint_lem :
      (remote host port text : Text) (es : List (List Text × Text))
      → remote_host s remote ≡ some (host, port)
      → s.known_hosts_text ≡ got text
      → Lines text es
      → host_fingerprint s remote ≡ (
        fingerprint_of s
            (first_key host (if beq port (codes "22") then host else join_host_port host port) es),
        none,
      )
  unfolding host_fingerprint
  host_fingerprint_lem remote host port text es at known lines =
      let target = if beq port (codes "22") then host else join_host_port host port in
      ground (
        arith,
        at,
        known,
        find_key_lem (length text) host target text {es = es} (omega arith) lines,
      )
