-- ===== src/Notes/Numbered.antt =====
-- The numbers of a note's archived versions.
use localplaud.Prelude.{
  ℕ, ◌≤◌, ◌<◌, String, ◌≡◌, true, not, inl, inr, Option, none, some, List, [], ◌∷◌, arith, by_test,
  In,
}
use localplaud.Notes.Contents.{Summary, SummaryRevision, Notes, Content, content_fingerprint}
use localplaud.Notes.History.{
  in_chain, latest, later_revision, number, is_local, is_unchanged, is_archived, archive_summary,
}

-- In each chain, (file, template), a newer version has a larger number; the newest come first.
abbrev pub IsNumbered : List SummaryRevision → Type 0
IsNumbered [] = Unit
IsNumbered (r ∷ older) =
    ((q : SummaryRevision)
      → In q older
      → in_chain r.file_id r.template q ≡ true
      → q.revision < r.revision)
    × IsNumbered older

later_revision-le :
    (x : SummaryRevision) (best : Option SummaryRevision)
    → (x.revision ≤ (later_revision x best).revision)
      × (number best ≤ (later_revision x best).revision)
later_revision-le x none = omega arith
later_revision-le x (some b) = ground arith

-- The latest version has the chain's largest number.
latest-le :
    (file_id template : String) (rs : List SummaryRevision) (q : SummaryRevision)
    → In q rs
    → in_chain file_id template q ≡ true
    → q.revision ≤ number (latest file_id template rs)
unfolding latest
latest-le file_id template [] q i h = absurd i
latest-le file_id template (x ∷ rs) q (inl e) h =
    rw (rw (← e) at h) (rw (← e) (later_revision-le x (latest file_id template rs)).0)
latest-le file_id template (x ∷ rs) q (inr i) h =
    let ih = latest-le file_id template rs q i h in
    by_test (λ (b : Option SummaryRevision). q.revision ≤ number b) (in_chain file_id template x)
      (λ _. omega (arith, ih, (later_revision-le x (latest file_id template rs)).1)) (λ _. ih)

pub archive_summary-IsNumbered :
    (now : ℕ) (reason : String) (replacement : Option Content) (row : Summary) (n : Notes)
    → IsNumbered n.revisions
    → IsNumbered (archive_summary now reason replacement row n).1.revisions
unfolding archive_summary
archive_summary-IsNumbered now reason replacement row n h =
    let P : Option SummaryRevision × Notes → Type 0 = λ m. IsNumbered m.1.revisions in
    by_test P (not (is_local row.fields)) (λ _. h)
      λ _.
        by_test P (is_unchanged replacement (content_fingerprint row)) (λ _. h)
          λ _.
            by_test P
              (is_archived (latest row.file_id row.template n.revisions) (content_fingerprint row))
              (λ _. h)
              λ _. (λ q i c. omega (arith, latest-le row.file_id row.template n.revisions q i c), h)
