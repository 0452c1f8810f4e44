-- ===== src/Notes/Undo.antt =====
-- A restored version can be undone, and retirement leaves a recording a note.
use mathlib.Core.Path.{subst}
use localplaud.Prelude.{
  ℕ, String, ◌≡◌, ◌⊎◌, refl, Bool, true, false, inl, inr, Option, some, List, [], ◌∷◌, arith, ◌==◌,
  ==_iff, ==-refl, Bool-cases, any, keep, In, In-keep_back, In-map, if◌then◌else◌, some_eq,
}
use localplaud.Notes.Contents.{
  Summary, SummaryRevision, Notes, Content, content_fingerprint, revision_fingerprint,
}
use localplaud.Notes.History.{
  is_local, archive_summary, is_current, is_retired, retire_note, retire_all, retire_legacy_notes,
  replace,
}
use localplaud.Notes.Restore.{restored_row, restore_summary_version}
use localplaud.Notes.Held.{IsArchived, archive_summary-holds, archive_summary-summaries}
use localplaud.Notes.Kept.{IsKeyed, other_kept, retire_note-summaries}
use localplaud.Notes.Versions.{mark_lem, restored_fingerprint}

module _ (digest : Content → String) where
  -- The restored row is live, in the row's place.
  restore-In :
      (now : ℕ) (generation : String) (row : Summary) (target : SummaryRevision) (n : Notes)
      → In row n.summaries
      → In
          (restored_row target row)
          (restore_summary_version digest now generation row target n).1.summaries
  unfolding restore_summary_version
  restore-In now generation row target n i =
      let new = some (revision_fingerprint target) in
      let kept = (archive_summary now "restore" new row n).1 in
      let live = restored_row target row in
      let m = record kept { summaries = replace live kept.summaries } in
      rw ((mark_lem digest generation live m).0, archive_summary-summaries now "restore" new row n)
        (subst (λ t. In t (replace live n.summaries)) (rw (==-refl row.id) refl)
          (In-map (λ s. if s.id == row.id then live else s) row n.summaries i))

  restore-holds :
      (now : ℕ) (generation : String) (row : Summary) (target : SummaryRevision) (n : Notes)
      → is_local row.fields ≡ true
      → IsArchived row.file_id
          (content_fingerprint row)
          (restore_summary_version digest now generation row target n).1.revisions
        ⊎ (revision_fingerprint target ≡ content_fingerprint row)
  unfolding restore_summary_version
  restore-holds now generation row target n here =
      let new = some (revision_fingerprint target) in
      let kept = (archive_summary now "restore" new row n).1 in
      let live = restored_row target row in
      let m = record kept { summaries = replace live kept.summaries } in
      rw (mark_lem digest generation live m).1
        (elim (archive_summary-holds now "restore" new row n here)
          as (λ _.
            IsArchived row.file_id (content_fingerprint row) kept.revisions
            ⊎ (revision_fingerprint target ≡ content_fingerprint row)) [
              | inl a ↦ inl a
              | inr e ↦ inr (some_eq e)
            ])

  -- A version that is restored over a live local note is live in the note's place, under the note's
  -- id and template; and unless it has the very content that it displaces, some archived version has
  -- that, and restored in turn it brings the displaced content back.
  pub restore_undo :
      (now : ℕ) (generation : String) (row : Summary) (target : SummaryRevision) (n : Notes)
      → is_local row.fields ≡ true
      → In row n.summaries
      → let m = (restore_summary_version digest now generation row target n).1 in
        (live : Summary) × In live m.summaries
        × (live.id ≡ row.id)
        × (content_fingerprint live
            ≡ record { template = row.template; fields = target.fields; profile = target.profile })
        × ((revision_fingerprint target ≡ content_fingerprint row)
            ⊎ ((old : SummaryRevision) × In old m.revisions
                × (old.file_id ≡ row.file_id)
                × ((later : ℕ) (again : String)
                    → let k = (restore_summary_version digest later again live old m).1 in
                      (back : Summary) × In back k.summaries
                      × (back.id ≡ row.id)
                      × (content_fingerprint back ≡ content_fingerprint row))))
  unfolding content_fingerprint
  restore_undo now generation row target n here i = (
    restored_row target row,
    restore-In now generation row target n i,
    refl,
    refl,
    elim (restore-holds now generation row target n here) [
      | inr e ↦ inl e
      | inl (old, j, f, e) ↦ inr (
        old,
        j,
        f,
        λ later again. (
          restored_row old (restored_row target row),
          restore-In later again (restored_row target row) old _
              (restore-In now generation row target n i),
          refl,
          restored_fingerprint old row e,
        ),
      )
    ],
  )

retire_all-others :
    (now : ℕ) (keep_history : Bool) (file_id : String) (rows : List Summary) (n : Notes)
    (s : Summary)
    → In s n.summaries
    → ((row : Summary) → In row rows → (s.id == row.id) ≡ false)
    → In s (retire_all now keep_history file_id rows n).summaries
unfolding retire_all
retire_all-others now keep_history file_id [] n s i other = i
retire_all-others now keep_history file_id (row ∷ rows) n s i other =
    retire_all-others now keep_history file_id rows (retire_note now keep_history file_id row n) s
      (rw (retire_note-summaries now keep_history file_id row n)
        (other_kept row s n.summaries i (other row (inl refl))))
      (λ r k. other r (inr k))

any-In :
    (test : Summary → Bool) (l : List Summary)
    → any test l ≡ true
    → (s : Summary) × In s l × (test s ≡ true)
any-In test [] h = cc
any-In test (x ∷ l) h = elim (Bool-cases (test x)) [
  | inl t ↦ (x, inl refl, t)
  | inr f ↦ let (s, i, t) = any-In test l (rw f at h) in (s, inr i, t)
]

current-is_retired :
    (catalog active : List String) (only : Option (List String)) (file_id : String) (s : Summary)
    → is_current catalog file_id s ≡ true
    → is_retired catalog active only file_id s ≡ false
current-is_retired catalog active only file_id s h = ground arith

-- Retirement, with its history or without, takes away only legacy local notes of the recording, and
-- where it takes one away, a local note under a current template is still there. The condition is
-- that the ids are a key.
pub retire_legacy_notes-leaves :
    (now : ℕ) (catalog active : List String) (file_id : String) (keep_history : Bool)
    (only : Option (List String)) (n : Notes) (s : Summary)
    → IsKeyed n.summaries
    → In s n.summaries
    → let m = (retire_legacy_notes now catalog active file_id keep_history only n).1 in
      In s m.summaries
      ⊎ ((is_retired catalog active only file_id s ≡ true)
          × ((c : Summary) × In c m.summaries × (is_current catalog file_id c ≡ true)))
unfolding retire_legacy_notes
retire_legacy_notes-leaves now catalog active file_id keep_history only n s keyed i =
    elim (Bool-cases (any (is_current catalog file_id) n.summaries)) [
      | inr nothing ↦ rw nothing (inl i)
      | inl some_current ↦
          rw some_current
            (elim (Bool-cases (retired s)) as (λ _. In s left ⊎ ((retired s ≡ true) × Rest)) [
              | inr f ↦ inl (stays s i f)
              | inl t ↦
                  let (c, j, current) =
                    any-In (is_current catalog file_id) n.summaries some_current in
                  let kept = stays c j (current-is_retired catalog active only file_id c current) in
                  inr (t, (c, kept, current))
            ])
    ]
  where
    retired : Summary → Bool
    retired = is_retired catalog active only file_id

    left : List Summary
    left = (retire_all now keep_history file_id (keep retired n.summaries) n).summaries

    Rest : Type 0
    Rest = (c : Summary) × In c left × (is_current catalog file_id c ≡ true)

    stays : (c : Summary) → In c n.summaries → retired c ≡ false → In c left
    stays c j f =
        retire_all-others now keep_history file_id (keep retired n.summaries) n c j λ row k.
          elim (Bool-cases (c.id == row.id)) [
            | inr e ↦ e
            | inl e ↦
                let (m, t) = In-keep_back retired row n.summaries k in
                let same = keyed row m c j ((==_iff c.id row.id).0 e) in cc
          ]
