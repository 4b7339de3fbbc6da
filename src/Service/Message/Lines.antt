-- ===== src/Service/Message/Lines.antt =====
-- internal/service/repository.go: how a mail reader takes the message apart that `buildMessage` makes.
use git2imap.Base.{
  ℕ, ◌≡◌, refl, true, false, some, [], ◌∷◌, ◌++◌, Text, codes, beq, has, has_prefix, length, arith,
  All, Bool-cases, inl, inr, ||-eq-false, ◌==◌,
}
use git2imap.Store.{Repository, Mailbox, Message}
use git2imap.Git.Quote.{replace_from, replace_all}
use git2imap.Service.Message.{Formats, safe, ends_line, body_of, header, build_message}
use git2imap.Service.Message.Reader.{read_header, Single, Line, read_header-printed, length-printed}
use git2imap.Service.Message.Body.{bare_feed, body_of_lem}

replace-gone :
    (d : ℕ) (s : Text) → (32 == d) ≡ false → has d (replace_all (d ∷ []) (32 ∷ []) s) ≡ false
unfolding replace_all replace_from has has_prefix
replace-gone d [] h = refl
replace-gone d (c ∷ s) h = elim (Bool-cases (c == d)) [
  | inl t ↦ ground (arith, t, h, replace-gone d s h)
  | inr t ↦ ground (arith, t, h, replace-gone d s h)
]

replace-keeps :
    (e d : ℕ) (s : Text)
    → (32 == e) ≡ false
    → has e s ≡ false
    → has e (replace_all (d ∷ []) (32 ∷ []) s) ≡ false
unfolding replace_all replace_from has has_prefix
replace-keeps e d [] h k = refl
replace-keeps e d (c ∷ s) h k =
    let (x, y) = ||-eq-false (c == e) (has e s) k in
    elim (Bool-cases (c == d)) [
      | inl t ↦ ground (arith, t, h, x, replace-keeps e d s h y)
      | inr t ↦ ground (arith, t, h, x, replace-keeps e d s h y)
    ]

safe-Single : (s : Text) → Single (safe s)
unfolding safe
safe-Single s = record {
  no_return = replace-keeps 13 10 (replace_all (13 ∷ []) (32 ∷ []) s) refl (replace-gone 13 s refl);
  no_feed = replace-gone 10 (replace_all (13 ∷ []) (32 ∷ []) s) refl;
}

has-append : (d : ℕ) (s t : Text) → has d s ≡ false → has d t ≡ false → has d (s ++ t) ≡ false
unfolding has
has-append d [] t h k = k
has-append d (c ∷ s) t h k = ground (arith, has-append d s t, h)

Single-append : {s t : Text} → Single s → Single t → Single (s ++ t)
Single-append {s} {t} h k = record {
  no_return = has-append 13 s t h.no_return k.no_return;
  no_feed = has-append 10 s t h.no_feed k.no_feed;
}

module _ (f : Formats) (repo : Repository) (mailbox : Mailbox) (msg : Message)
    (q_encode-Single : (s : Text) → Single s → Single (f.q_encode s))
    (hash_hex-Single : (n : ℕ) (s : Text) → Single (f.hash_hex n s))
    (date-Single : (t : ℕ) → Single (f.date t)) (commit_oid-Single : Single msg.commit_oid)
    (id-Single : Single repo.id) where
  from-Single :
      Single
        (f.q_encode (safe msg.author_name) ++ (codes " <" ++ (safe msg.author_email ++ codes ">")))
  unfolding has
  from-Single =
      Single-append (q_encode-Single (safe msg.author_name) (safe-Single msg.author_name)) (
        Single-append {s = codes " <"} (record { no_return = refl; no_feed = refl })
          (Single-append {t = codes ">"} (safe-Single msg.author_email)
            (record { no_return = refl; no_feed = refl })))

  message_id-Single : Single (
      msg.commit_oid
      ++ (codes "."
          ++ (f.hash_hex 6 mailbox.branch ++ (codes "." ++ (repo.id ++ codes "@git2imap>")))))
  unfolding has
  message_id-Single = Single-append commit_oid-Single (
      Single-append {s = codes "."} (record { no_return = refl; no_feed = refl })
        (Single-append (hash_hex-Single 6 mailbox.branch) (
          Single-append {s = codes "."} (record { no_return = refl; no_feed = refl })
            (Single-append {t = codes "@git2imap>"} id-Single
              (record { no_return = refl; no_feed = refl })))))

  header-Line : All Line (header f repo mailbox msg)
  unfolding header has beq
  header-Line =
      let labelled : (word rest : Text) → Single word → Single rest → Single (word ++ rest) =
        λ word rest. Single-append in
      (
        (
          refl,
          labelled (codes "From: ") _ (record { no_return = refl; no_feed = refl }) from-Single,
        ),
        (
          (
            refl,
            labelled (codes "To: ") _ (record { no_return = refl; no_feed = refl })
                (safe-Single repo.mail_username),
          ),
          (
            (
              refl,
              labelled (codes "Subject: ") _ (record { no_return = refl; no_feed = refl })
                  (q_encode-Single (safe msg.subject) (safe-Single msg.subject)),
            ),
            (
              (
                refl,
                labelled (codes "Date: ") _ (record { no_return = refl; no_feed = refl })
                    (date-Single msg.authored_at),
              ),
              (
                (
                  refl,
                  labelled (codes "Message-ID: <") _ (record { no_return = refl; no_feed = refl })
                      message_id-Single,
                ),
                (
                  (
                    refl,
                    labelled (codes "X-Git-Repository: ") _
                        (record { no_return = refl; no_feed = refl }) (safe-Single repo.name),
                  ),
                  (
                    (
                      refl,
                      labelled (codes "X-Git-Branch: ") _
                          (record { no_return = refl; no_feed = refl })
                          (safe-Single mailbox.branch),
                    ),
                    (
                      (
                        refl,
                        labelled (codes "X-Git-Commit: ") _
                            (record { no_return = refl; no_feed = refl }) commit_oid-Single,
                      ),
                      (
                        (refl, (record { no_return = refl; no_feed = refl })),
                        (
                          (refl, (record { no_return = refl; no_feed = refl })),
                          ((refl, (record { no_return = refl; no_feed = refl })), tt),
                        ),
                      ),
                    ),
                  ),
                ),
              ),
            ),
          ),
        ),
      )

  -- A reader that splits the message at CR LF up to the first empty line finds the eleven lines of
  -- the header and the body, whatever the commit, the branch and the repository are called. The body
  -- has no LF without a CR before it and ends with CR LF, whatever git printed. What is encoded from
  -- one line, the digest, the date, the commit and the id of the repository are free of CR and LF.
  pub read_header-build_message :
      (patch : Text)
      → (read_header
            (length (build_message f repo mailbox msg patch))
            (build_message f repo mailbox msg patch)
          ≡ some (header f repo mailbox msg, body_of patch))
        × (bare_feed false (body_of patch) ≡ false)
        × (ends_line (body_of patch) ≡ true)
  unfolding build_message
  read_header-build_message patch =
      let lines = header f repo mailbox msg in
      let (tidy, ended) = body_of_lem patch in
      (
        read_header-printed lines (body_of patch) (length (build_message f repo mailbox msg patch))
            header-Line (omega (arith, length-printed lines (13 ∷ 10 ∷ body_of patch))),
        tidy,
        ended,
      )
