-- ===== src/Notes/Held.antt =====
-- What an archived version holds, and what the removal of a live note leaves.
use localplaud.Prelude.{
  ℕ, ltb, String, ◌≡◌, ◌⊎◌, refl, sym, ap, true, not, inl, inr, Option, none, some, List, [], ◌∷◌,
  arith, eq_iff, Bool-cases, by_test, In,
}
use localplaud.Notes.Contents.{
  Summary, SummaryRevision, Notes, Content, content_fingerprint, revision_fingerprint,
  same_content-eq,
}
use localplaud.Notes.History.{
  in_chain, latest, later_revision, is_local, is_unchanged, is_archived, archive_summary,
}

-- A content of a recording is in the archive.
abbrev pub IsArchived : String → Content → List SummaryRevision → Type 0
IsArchived file_id c rs =
    (r : SummaryRevision) × In r rs × (r.file_id ≡ file_id) × (revision_fingerprint r ≡ c)

-- It is live, or in the archive.
abbrev pub IsHeld : String → Content → Notes → Type 0
IsHeld file_id c n =
    ((s : Summary) × In s n.summaries × (s.file_id ≡ file_id) × (content_fingerprint s ≡ c))
    ⊎ IsArchived file_id c n.revisions

later_revision-cases :
    (r : SummaryRevision) (best : Option SummaryRevision)
    → (later_revision r best ≡ r) ⊎ (best ≡ some (later_revision r best))
later_revision-cases r none = inl refl
later_revision-cases r (some b) =
    by_test (λ m. (m ≡ r) ⊎ (some b ≡ some m)) (ltb r.revision b.revision) (λ _. inr refl)
      (λ _. inl refl)

chained_file :
    (file_id template : String) (r : SummaryRevision)
    → in_chain file_id template r ≡ true
    → r.file_id ≡ file_id
chained_file file_id template r h = ground (arith, eq_iff r.file_id file_id)

latest-In :
    (file_id template : String) (rs : List SummaryRevision) (r : SummaryRevision)
    → latest file_id template rs ≡ some r
    → In r rs × (r.file_id ≡ file_id)
unfolding latest
latest-In file_id template [] r e = cc
latest-In file_id template (x ∷ rs) r e = elim (Bool-cases (in_chain file_id template x)) [
  | inr out ↦ let (m, f) = latest-In file_id template rs r (rw out at e) in (inr m, f)
  | inl chained ↦
      let this = rw chained at e in
      elim (later_revision-cases x (latest file_id template rs)) [
        | inl first ↦
            let same : x ≡ r = cc in
            (inl same, rw (← same) (chained_file file_id template x chained))
        | inr best ↦ let (m, f) = latest-In file_id template rs r (cc) in (inr m, f)
      ]
]

pub archive_summary-holds :
    (now : ℕ) (reason : String) (replacement : Option Content) (row : Summary) (n : Notes)
    → is_local row.fields ≡ true
    → IsArchived row.file_id
        (content_fingerprint row)
        (archive_summary now reason replacement row n).1.revisions
      ⊎ (replacement ≡ some (content_fingerprint row))
unfolding archive_summary content_fingerprint revision_fingerprint
archive_summary-holds now reason replacement row n h = rw h (
    by_test Holds (is_unchanged replacement (content_fingerprint row))
      (λ t. inr (unchanged replacement (content_fingerprint row) t))
      λ _.
        by_test Holds
          (is_archived (latest row.file_id row.template n.revisions) (content_fingerprint row))
          (λ t. inl (
            found (latest row.file_id row.template n.revisions) t
              (latest-In row.file_id row.template n.revisions)))
          (λ _. inl (_, inl refl, refl, refl)))
  where
    Holds : Option SummaryRevision × Notes → Type 0
    Holds m =
        IsArchived row.file_id (content_fingerprint row) m.1.revisions
        ⊎ (replacement ≡ some (content_fingerprint row))

    found :
        (best : Option SummaryRevision)
        → is_archived best (content_fingerprint row) ≡ true
        → ((r : SummaryRevision) → best ≡ some r → In r n.revisions × (r.file_id ≡ row.file_id))
        → IsArchived row.file_id (content_fingerprint row) n.revisions
    found none t k = cc
    found (some r) t k = let (m, f) = k r refl in (r, m, f, same_content-eq _ _ t)

    unchanged : (new : Option Content) (c : Content) → is_unchanged new c ≡ true → new ≡ some c
    unchanged none c t = cc
    unchanged (some new) c t = ap some (sym (same_content-eq c new t))

pub archive_summary-In :
    (now : ℕ) (reason : String) (replacement : Option Content) (row : Summary) (n : Notes)
    (r : SummaryRevision)
    → In r n.revisions
    → In r (archive_summary now reason replacement row n).1.revisions
unfolding archive_summary
archive_summary-In now reason replacement row n r h =
    let P : Option SummaryRevision × Notes → Type 0 = λ m. In r m.1.revisions in
    by_test P (not (is_local row.fields)) (λ _. h)
      λ _.
        by_test P (is_unchanged replacement (content_fingerprint row)) (λ _. h)
          λ _.
            by_test P
              (is_archived (latest row.file_id row.template n.revisions) (content_fingerprint row))
              (λ _. h) (λ _. inr h)

pub archive_summary-summaries :
    (now : ℕ) (reason : String) (replacement : Option Content) (row : Summary) (n : Notes)
    → (archive_summary now reason replacement row n).1.summaries ≡ n.summaries
unfolding archive_summary
archive_summary-summaries now reason replacement row n = ground arith
