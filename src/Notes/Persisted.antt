-- ===== src/Notes/Persisted.antt =====
-- A new generated note in place of the old one: `_persist_summary` keeps what it displaces.
use mathlib.Core.Path.{subst}
use localplaud.Prelude.{
  some_eq, ℕ, String, ◌≡◌, ◌≢◌, refl, sym, ap, ◌∙◌, true, not, inl, inr, none, some, List, [], ◌∷◌,
  ◌++◌, arith, ◌==◌, eq_iff, keep, by_test, In, In-keep_back, In-append, In-append_right,
}
use localplaud.Notes.Contents.{Summary, Notes, Content, content_fingerprint}
use localplaud.Notes.History.{is_local, remove, has_key, retire_legacy_notes}
use localplaud.Notes.Restore.{displace, displace_note, is_displaced, persist_summary, insert_note}
use localplaud.Notes.Held.{IsHeld, archive_summary-In, archive_summary-summaries}
use localplaud.Notes.Versions.{IsKeyed-append, mark_lem}
use localplaud.Notes.Kept.{
  IsOwn, IsKeyed, KeepsVersions, KeepsOthers, Keeps, Keeps-trans, displaced, IsOwn-after,
  retire_legacy_notes-Keeps,
}

displace_note-summaries :
    (now : ℕ) (new : Content) (row : Summary) (n : Notes)
    → (displace_note now new row n).summaries ≡ remove row.id n.summaries
displace_note-summaries now new row n =
    ap (remove row.id) (archive_summary-summaries now "regenerated" (some new) row n)

displace-summaries :
    (now : ℕ) (new : Content) (rows : List Summary) (n : Notes) (s : Summary)
    → In s (displace now new rows n).summaries
    → In s n.summaries
unfolding displace
displace-summaries now new [] n s i = i
displace-summaries now new (row ∷ rows) n s i =
    let left = displace-summaries now new rows (displace_note now new row n) s i in
    (In-keep_back (λ t. not (t.id == row.id)) s n.summaries
      (rw (displace_note-summaries now new row n) at left)).0

displace_note-Keeps :
    (now : ℕ) (file_id : String) (new : Content) (row : Summary) (n : Notes)
    → (is_local row.fields ≡ true) × (row.file_id ≡ file_id) × IsOwn row n.summaries
    → KeepsVersions n (displace_note now new row n)
      × KeepsOthers file_id new n (displace_note now new row n)
displace_note-Keeps now file_id new row n (here, file, own) = (
  λ r i. archive_summary-In now "regenerated" (some new) row n r i,
  λ s i.
      elim (displaced now "regenerated" (some new) row n here own (displace_note now new row n) refl
        refl s i) [
          | inl k ↦ inl (inl (s, k, refl, refl))
          | inr (inl a) ↦ inl (inr a)
          | inr (inr (f, e)) ↦ inr (f ∙ file, sym (some_eq e))
        ],
)

KeepsOthers-trans :
    (file_id : String) (new : Content) (n m k : Notes)
    → KeepsVersions n m × KeepsOthers file_id new n m
    → KeepsVersions m k × KeepsOthers file_id new m k
    → KeepsVersions n k × KeepsOthers file_id new n k
KeepsOthers-trans file_id new n m k first second = (
  λ r i. second.0 r (first.0 r i),
  λ s i. elim (first.1 s i) [
    | inl (inl (t, j, f, e)) ↦ elim (second.1 t j) [
      | inl h ↦ inl (subst (λ (p : String × Content). IsHeld p.0 p.1 k) (λ j. (f j, e j)) h)
      | inr (f', e') ↦ inr (sym f ∙ f', sym e ∙ e')
    ]
    | inl (inr (r, j, f, e)) ↦ inl (inr (r, second.0 r j, f, e))
    | inr same ↦ inr same
  ],
)

-- The loop keeps the versions, and every content but one that the new note has too.
displace-Keeps :
    (now : ℕ) (file_id : String) (new : Content) (rows : List Summary) (n : Notes)
    → ((row : Summary)
        → In row rows
        → (is_local row.fields ≡ true) × (row.file_id ≡ file_id) × IsOwn row n.summaries)
    → KeepsVersions n (displace now new rows n)
      × KeepsOthers file_id new n (displace now new rows n)
unfolding displace
displace-Keeps now file_id new [] n owns = (λ r i. i, λ s i. inl (inl (s, i, refl, refl)))
displace-Keeps now file_id new (row ∷ rows) n owns =
    let m = displace_note now new row n in
    KeepsOthers-trans file_id new n m (displace now new rows m)
      (displace_note-Keeps now file_id new row n (owns row (inl refl)))
      (displace-Keeps now file_id new rows m λ other i.
        let (here, file, own) = owns other (inr i) in
        (
          here,
          file,
          rw (displace_note-summaries now new row n) (IsOwn-after other _ n.summaries own),
        ))

is_displaced-owns :
    (new : Summary) (n : Notes) (row : Summary)
    → IsKeyed n.summaries
    → In row (keep (is_displaced new) n.summaries)
    → (is_local row.fields ≡ true) × (row.file_id ≡ new.file_id) × IsOwn row n.summaries
is_displaced-owns new n row keyed i =
    let (m, t) = In-keep_back (is_displaced new) row n.summaries i in
    (ground arith, ground (arith, eq_iff row.file_id new.file_id), keyed row m)

module _ (digest : Content → String) where
  pub insert_note_lem :
      (now : ℕ) (generation : String) (new : Summary) (n : Notes)
      → let cleared =
          displace now (content_fingerprint new) (keep (is_displaced new) n.summaries) n in
        let m = insert_note digest now generation new n in
        (m.summaries ≡ cleared.summaries ++ new ∷ []) × (m.revisions ≡ cleared.revisions)
  unfolding insert_note
  insert_note_lem now generation new n =
      let cleared =
        displace now (content_fingerprint new) (keep (is_displaced new) n.summaries) n in
      mark_lem digest generation new (record cleared { summaries = cleared.summaries ++ new ∷ [] })

  pub insert_note-IsKeyed :
      (now : ℕ) (generation : String) (new : Summary) (n : Notes)
      → IsKeyed n.summaries
      → ((s : Summary) → In s n.summaries → s.id ≢ new.id)
      → IsKeyed (insert_note digest now generation new n).summaries
  insert_note-IsKeyed now generation new n keyed fresh =
      let rows = keep (is_displaced new) n.summaries in
      let back = displace-summaries now (content_fingerprint new) rows n in
      rw (insert_note_lem now generation new n).0 (
        IsKeyed-append _ new (λ row i s j. keyed row (back row i) s (back s j))
          (λ s i. fresh s (back s i)))

  insert_note-Keeps :
      (now : ℕ) (generation : String) (new : Summary) (n : Notes)
      → IsKeyed n.summaries
      → Keeps n (insert_note digest now generation new n)
  insert_note-Keeps now generation new n keyed = (
    λ r i. rw same.1 (kept.0 r i),
    λ s i. elim (kept.1 s i) [
      | inl (inl (t, j, f, e)) ↦
          inl (t, rw same.0 (In-append t cleared.summaries (new ∷ []) j), f, e)
      | inl (inr (r, j, f, e)) ↦ inr (r, rw same.1 j, f, e)
      | inr (f, e) ↦ inl (
        new,
        rw same.0 (In-append_right new cleared.summaries (new ∷ []) (inl refl)),
        sym f,
        sym e,
      )
    ],
  )
    where
      rows : List Summary
      rows = keep (is_displaced new) n.summaries

      cleared : Notes
      cleared = displace now (content_fingerprint new) rows n

      kept : KeepsVersions n cleared × KeepsOthers new.file_id (content_fingerprint new) n cleared
      kept =
          displace-Keeps now new.file_id (content_fingerprint new) rows n
            (λ row i. is_displaced-owns new n row keyed i)

      same :
          ((insert_note digest now generation new n).summaries ≡ cleared.summaries ++ new ∷ [])
          × ((insert_note digest now generation new n).revisions ≡ cleared.revisions)
      same = insert_note_lem now generation new n

  pub persist_summary-Keeps :
      (now : ℕ) (generation : String) (catalog active : List String) (new : Summary) (n : Notes)
      → IsKeyed n.summaries
      → ((s : Summary) → In s n.summaries → s.id ≢ new.id)
      → Keeps n (persist_summary digest now generation catalog active new n)
  unfolding persist_summary
  persist_summary-Keeps now generation catalog active new n keyed fresh =
      let m = insert_note digest now generation new n in
      let kept = insert_note-Keeps now generation new n keyed in
      by_test (Keeps n) (has_key new.template catalog)
        (λ _.
          Keeps-trans n m (retire_legacy_notes now catalog active new.file_id true none m).1 kept (
            retire_legacy_notes-Keeps now catalog active new.file_id none m
              (insert_note-IsKeyed now generation new n keyed fresh)))
        (λ _. kept)
