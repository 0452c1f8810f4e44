-- ===== src/Notes/Timeline.antt =====
-- The life of generated notes as steps: what any sequence of them keeps.
use localplaud.Prelude.{ℕ, String, ◌≡◌, ◌≢◌, refl, true, Option, List, In, inl}
use localplaud.Notes.Contents.{Summary, SummaryRevision, Notes, Content}
use localplaud.Notes.History.{is_local, delete_generated_note, retire_legacy_notes}
use localplaud.Notes.Restore.{restore_summary_version, persist_summary}
use localplaud.Notes.Kept.{
  Keeps, Keeps-trans, delete_generated_note-Keeps, retire_legacy_notes-Keeps,
}
use localplaud.Notes.Versions.{restore_summary_version-Keeps}
use localplaud.Notes.Persisted.{persist_summary-Keeps}
use localplaud.Notes.Sound.{
  IsSound, delete_generated_note-IsSound, retire_legacy_notes-IsSound,
  restore_summary_version-IsSound, persist_summary-IsSound,
}

-- A generation, a restored version, a deletion, and the retirement of notes under old templates.
-- A new row has a new id; only local notes are restored over and deleted, as the routes check.
pub data Step (digest : Content → String) : Notes → Notes → Type 0 where
  generate :
      (now : ℕ) (generation : String) (catalog active : List String) (new : Summary) (n : Notes)
      → ((s : Summary) → In s n.summaries → s.id ≢ new.id)
      → Step digest n (persist_summary digest now generation catalog active new n)
  restore :
      (now : ℕ) (generation : String) (row : Summary) (target : SummaryRevision) (n : Notes)
      → is_local row.fields ≡ true
      → In row n.summaries
      → Step digest n (restore_summary_version digest now generation row target n).1
  delete :
      (now : ℕ) (row : Summary) (n : Notes)
      → is_local row.fields ≡ true
      → In row n.summaries
      → Step digest n (delete_generated_note now row n)
  retire :
      (now : ℕ) (catalog active : List String) (file_id : String) (only : Option (List String))
      (n : Notes)
      → Step digest n (retire_legacy_notes now catalog active file_id true only n).1

pub data Reach (digest : Content → String) (n : Notes) : Notes → Type 0 where
  here : Reach digest n n
  next : {m k : Notes} → Reach digest n m → Step digest m k → Reach digest n k

Step-IsSound : {digest : Content → String} {n m : Notes} → Step digest n m → IsSound n → IsSound m
Step-IsSound {digest} (generate now generation catalog active new n fresh) s =
    persist_summary-IsSound digest now generation catalog active new n s fresh
Step-IsSound {digest} (restore now generation row target n l i) s =
    restore_summary_version-IsSound digest now generation row target n s
Step-IsSound (delete now row n l i) s = delete_generated_note-IsSound now row n s
Step-IsSound (retire now catalog active file_id only n) s =
    retire_legacy_notes-IsSound now catalog active file_id only n s

Step-Keeps : {digest : Content → String} {n m : Notes} → Step digest n m → IsSound n → Keeps n m
Step-Keeps {digest} (generate now generation catalog active new n fresh) s =
    persist_summary-Keeps digest now generation catalog active new n s.keyed fresh
Step-Keeps {digest} (restore now generation row target n l i) s =
    restore_summary_version-Keeps digest now generation row target n l i (s.keyed row i)
Step-Keeps (delete now row n l i) s = delete_generated_note-Keeps now row n l (s.keyed row i)
Step-Keeps (retire now catalog active file_id only n) s =
    retire_legacy_notes-Keeps now catalog active file_id only n s.keyed

Reach-IsSound : {digest : Content → String} {n m : Notes} → Reach digest n m → IsSound n → IsSound m
Reach-IsSound here s = s
Reach-IsSound (next r st) s = Step-IsSound st (Reach-IsSound r s)

-- No generation, restored version, deletion or retirement that keeps history, in any sequence, loses
-- a note: the content of every note that was live is still live or archived in its recording, with
-- its template and profile; every archived version is there unchanged; live ids stay a key; and in
-- each note's chain of versions a newer one has a larger number. The condition is that the ids are
-- a key and the numbers rise to begin with.
pub Reach-Keeps :
    (digest : Content → String) (n m : Notes) → Reach digest n m → IsSound n → Keeps n m × IsSound m
Reach-Keeps digest n m r s = (kept r, Reach-IsSound r s)
  where
    kept : {m : Notes} → Reach digest n m → Keeps n m
    kept here = (λ r i. i, λ t i. inl (t, i, refl, refl))
    kept (next {m} {k} r st) = Keeps-trans n m k (kept r) (Step-Keeps st (Reach-IsSound r s))
