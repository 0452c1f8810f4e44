-- ===== src/Notes/Versions.antt =====
-- A version that comes into a live note's place keeps what it displaces.
use localplaud.Prelude.{
  ℕ, String, ◌≡◌, ◌≢◌, refl, sym, ap, ◌∙◌, Bool, true, inl, inr, some, List, [], ◌∷◌, ◌++◌, arith,
  ◌==◌, ==_iff, ==-refl, Bool-cases, keep, by_test, In, In-keep_back, In-map, In-map_back,
  In-append_back, if◌then◌else◌,
}
use localplaud.Notes.Contents.{
  Summary, SummaryRevision, Notes, Content, content_fingerprint, revision_fingerprint,
}
use localplaud.Notes.History.{is_local, archive_summary, replace}
use localplaud.Notes.Restore.{mark_dependent_mind_map_stale, restored_row, restore_summary_version}
use localplaud.Notes.Held.{archive_summary-holds, archive_summary-In, archive_summary-summaries}
use localplaud.Notes.Kept.{IsOwn, IsKeyed, Keeps, IsOwn-after}

pub IsKeyed-keep : (test : Summary → Bool) (l : List Summary) → IsKeyed l → IsKeyed (keep test l)
IsKeyed-keep test l k row i = IsOwn-after row test l (k row (In-keep_back test row l i).0)

-- A new row under an id that no row has.
pub IsKeyed-append :
    (l : List Summary) (new : Summary)
    → IsKeyed l
    → ((s : Summary) → In s l → s.id ≢ new.id)
    → IsKeyed (l ++ new ∷ [])
IsKeyed-append l new k fresh row i s j e = elim (In-append_back row l (new ∷ []) i) [
  | inl old ↦ elim (In-append_back s l (new ∷ []) j) [
    | inl old' ↦ k row old s old' e
    | inr (inl n) ↦ absurd (fresh row old (sym e ∙ ap (λ (t : Summary). t.id) (sym n)))
    | inr (inr n) ↦ absurd n
  ]
  | inr (inl n) ↦ elim (In-append_back s l (new ∷ []) j) [
    | inl old' ↦ absurd (fresh s old' (e ∙ ap (λ (t : Summary). t.id) (sym n)))
    | inr (inl n') ↦ sym n' ∙ n
    | inr (inr n') ↦ absurd n'
  ]
  | inr (inr n) ↦ absurd n
]

-- The row's UPDATE keeps its id.
abbrev replaced : Summary → Summary → Summary
replaced new s = if s.id == new.id then new else s

replaced-id : (new s : Summary) → (replaced new s).id ≡ s.id
replaced-id new s =
    by_test (λ (t : Summary). t.id ≡ s.id) (s.id == new.id) (λ t. sym ((==_iff s.id new.id).0 t))
      (λ _. refl)

pub IsKeyed-replace : (l : List Summary) (new : Summary) → IsKeyed l → IsKeyed (replace new l)
IsKeyed-replace l new k row i s j e =
    let (a, m, p) = In-map_back (replaced new) row l i in
    let (b, m', p') = In-map_back (replaced new) s l j in
    let id : Summary → ℕ = λ t. t.id in
    let ids = sym (replaced-id new b) ∙ ap id p' ∙ e ∙ ap id (sym p) ∙ replaced-id new a in
    sym p' ∙ ap (replaced new) (k a m b m' ids) ∙ p

pub restored_fingerprint :
    (target : SummaryRevision) (row : Summary)
    → revision_fingerprint target ≡ content_fingerprint row
    → content_fingerprint (restored_row target row) ≡ content_fingerprint row
unfolding revision_fingerprint content_fingerprint
restored_fingerprint target row e = cc

-- What the replacement of a local row by `target` keeps.
replaced-Keeps :
    (now : ℕ) (row : Summary) (target : SummaryRevision) (n : Notes)
    → is_local row.fields ≡ true
    → In row n.summaries
    → IsOwn row n.summaries
    → let kept = (archive_summary now "restore" (some (revision_fingerprint target)) row n).1 in
      Keeps n (record kept { summaries = replace (restored_row target row) kept.summaries })
replaced-Keeps now row target n here i own = (
  λ r k. archive_summary-In now "restore" (some (revision_fingerprint target)) row n r k,
  λ s k. elim (Bool-cases (s.id == row.id)) [
    | inr e ↦ inl (s, moved s k (rw e refl), refl, refl)
    | inl e ↦
        let it = own s k ((==_iff s.id row.id).0 e) in
        elim (archive_summary-holds now "restore" (some (revision_fingerprint target)) row n here) [
          | inl a ↦ inr (rw it a)
          | inr f ↦ inl (
            restored_row target row,
            moved row i (rw (==-refl row.id) refl),
            ap (λ (t : Summary). t.file_id) (sym it),
            restored_fingerprint target row (cc) ∙ ap content_fingerprint (sym it),
          )
        ]
  ],
)
  where
    kept : Notes
    kept = (archive_summary now "restore" (some (revision_fingerprint target)) row n).1

    summaries : kept.summaries ≡ n.summaries
    summaries = archive_summary-summaries now "restore" (some (revision_fingerprint target)) row n

    moved :
        (s : Summary) {t : Summary}
        → In s n.summaries
        → replaced (restored_row target row) s ≡ t
        → In t (replace (restored_row target row) kept.summaries)
    moved s k e =
        rw (← e) (In-map (replaced (restored_row target row)) s kept.summaries (rw summaries k))

module _ (digest : Content → String) where
  -- The marking of the mind map's run touches neither notes nor versions.
  pub mark_lem :
      (generation : String) (restored : Summary) (n : Notes)
      → let m = (mark_dependent_mind_map_stale digest generation restored n).1 in
        (m.summaries ≡ n.summaries) × (m.revisions ≡ n.revisions)
  unfolding mark_dependent_mind_map_stale
  mark_lem generation restored n = ground arith

  pub restore_summary_version-Keeps :
      (now : ℕ) (generation : String) (row : Summary) (target : SummaryRevision) (n : Notes)
      → is_local row.fields ≡ true
      → In row n.summaries
      → IsOwn row n.summaries
      → Keeps n (restore_summary_version digest now generation row target n).1
  unfolding restore_summary_version
  restore_summary_version-Keeps now generation row target n here i own =
      let kept = (archive_summary now "restore" (some (revision_fingerprint target)) row n).1 in
      let m = record kept { summaries = replace (restored_row target row) kept.summaries } in
      let (summaries, revisions) = mark_lem generation (restored_row target row) m in
      let (versions, contents) = replaced-Keeps now row target n here i own in
      (λ r j. rw revisions (versions r j), λ s j. rw (summaries, revisions) (contents s j))
