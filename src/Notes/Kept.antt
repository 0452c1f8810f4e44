-- ===== src/Notes/Kept.antt =====
-- Each operation on notes keeps what was there: archived versions unchanged, and the content of
-- every live note live or archived.
use mathlib.Core.Path.{subst}
use localplaud.Prelude.{
  ℕ, String, ◌≡◌, ◌⊎◌, refl, ap, Bool, true, false, inl, inr, Option, none, some, List, [], ◌∷◌,
  arith, ◌==◌, ==_iff, Bool-cases, keep, any, by_test, In, In-keep, In-keep_back,
}
use localplaud.Notes.Contents.{Summary, SummaryRevision, Notes, Content, content_fingerprint}
use localplaud.Notes.History.{
  is_local, archive_summary, remove, drop_note, delete_generated_note, retire_note, retire_all,
  is_retired, is_current, retire_legacy_notes,
}
use localplaud.Notes.Held.{
  IsArchived, IsHeld, archive_summary-holds, archive_summary-In, archive_summary-summaries,
}

-- The id is the row's own: of the live rows, none but the row has it.
abbrev pub IsOwn : Summary → List Summary → Type 0
IsOwn row l = (s : Summary) → In s l → s.id ≡ row.id → s ≡ row

-- The ids are a primary key.
abbrev pub IsKeyed : List Summary → Type 0
IsKeyed l = (row : Summary) → In row l → IsOwn row l

abbrev pub KeepsVersions : Notes → Notes → Type 0
KeepsVersions n m = (r : SummaryRevision) → In r n.revisions → In r m.revisions

abbrev pub KeepsContents : Notes → Notes → Type 0
KeepsContents n m = (s : Summary) → In s n.summaries → IsHeld s.file_id (content_fingerprint s) m

-- The same, but for a content that is not the one that comes next in the recording.
abbrev pub KeepsOthers : String → Content → Notes → Notes → Type 0
KeepsOthers file_id new n m =
    (s : Summary)
    → In s n.summaries
    → IsHeld s.file_id (content_fingerprint s) m
      ⊎ ((s.file_id ≡ file_id) × (content_fingerprint s ≡ new))

pub IsHeld-after :
    (file_id : String) (c : Content) (n m : Notes)
    → KeepsVersions n m
    → KeepsContents n m
    → IsHeld file_id c n
    → IsHeld file_id c m
IsHeld-after file_id c n m versions contents (inl (s, i, f, e)) =
    subst (λ (k : String × Content). IsHeld k.0 k.1 m) (λ j. (f j, e j)) (contents s i)
IsHeld-after file_id c n m versions contents (inr (r, i, f, e)) = inr (r, versions r i, f, e)

pub other_kept :
    (row s : Summary) (l : List Summary)
    → In s l
    → (s.id == row.id) ≡ false
    → In s (remove row.id l)
other_kept row s l i e = In-keep _ s l i (rw e refl)

-- A local note is archived and taken away, for a content that comes in its place or for none.
module _ (now : ℕ) (reason : String) (replacement : Option Content) (row : Summary) (n : Notes)
    (here : is_local row.fields ≡ true) (own : IsOwn row n.summaries) where
  pub displaced :
      (m : Notes)
      → m.revisions ≡ (archive_summary now reason replacement row n).1.revisions
      → m.summaries ≡ remove row.id (archive_summary now reason replacement row n).1.summaries
      → (s : Summary) → In s n.summaries
      → In s m.summaries
        ⊎ (IsArchived s.file_id (content_fingerprint s) m.revisions
            ⊎ ((s.file_id ≡ row.file_id) × (replacement ≡ some (content_fingerprint s))))
  displaced m same left s i = elim (Bool-cases (s.id == row.id)) [
    | inl e ↦
        let it = own s i ((==_iff s.id row.id).0 e) in
        elim (archive_summary-holds now reason replacement row n here) [
          | inl a ↦ inr (inl (rw (it, same) a))
          | inr e ↦ inr (inr (ap (λ (t : Summary). t.file_id) it, rw it e))
        ]
    | inr e ↦ inl (
        rw (left, archive_summary-summaries now reason replacement row n)
          (other_kept row s n.summaries i e))
  ]

pub IsOwn-after :
    (row : Summary) (test : Summary → Bool) (l : List Summary)
    → IsOwn row l
    → IsOwn row (keep test l)
IsOwn-after row test l own s i = own s (In-keep_back test s l i).0

-- Both.
abbrev pub Keeps : Notes → Notes → Type 0
Keeps n m = KeepsVersions n m × KeepsContents n m

pub Keeps-trans : (n m k : Notes) → Keeps n m → Keeps m k → Keeps n k
Keeps-trans n m k first second = (
  λ r i. second.0 r (first.0 r i),
  λ s i. IsHeld-after s.file_id (content_fingerprint s) m k second.0 second.1 (first.1 s i),
)

-- `drop_note` after `archive_summary`.
drop-Keeps :
    (now : ℕ) (reason : String) (row : Summary) (n : Notes)
    → is_local row.fields ≡ true
    → IsOwn row n.summaries
    → Keeps n (drop_note row (archive_summary now reason none row n).1)
unfolding drop_note
drop-Keeps now reason row n here own = (
  λ r i. archive_summary-In now reason none row n r i,
  λ s i.
      elim (displaced now reason none row n here own
        (drop_note row (archive_summary now reason none row n).1) refl refl s i) [
          | inl k ↦ inl (s, k, refl, refl)
          | inr (inl a) ↦ inr a
          | inr (inr e) ↦ cc (e.1)
        ],
)

pub delete_generated_note-Keeps :
    (now : ℕ) (row : Summary) (n : Notes)
    → is_local row.fields ≡ true
    → IsOwn row n.summaries
    → Keeps n (delete_generated_note now row n)
unfolding delete_generated_note
delete_generated_note-Keeps now row n here own = drop-Keeps now "deleted" row n here own

retire_note-Keeps :
    (now : ℕ) (file_id : String) (row : Summary) (n : Notes)
    → is_local row.fields ≡ true
    → IsOwn row n.summaries
    → Keeps n (retire_note now true file_id row n)
unfolding retire_note
retire_note-Keeps now file_id row n here own = drop-Keeps now "retired-template" row n here own

pub retire_note-summaries :
    (now : ℕ) (keep_history : Bool) (file_id : String) (row : Summary) (n : Notes)
    → (retire_note now keep_history file_id row n).summaries ≡ remove row.id n.summaries
unfolding retire_note drop_note
retire_note-summaries now true file_id row n =
    ap (remove row.id) (archive_summary-summaries now "retired-template" none row n)
retire_note-summaries now false file_id row n = refl

retire_all-Keeps :
    (now : ℕ) (file_id : String) (rows : List Summary) (n : Notes)
    → ((row : Summary) → In row rows → (is_local row.fields ≡ true) × IsOwn row n.summaries)
    → Keeps n (retire_all now true file_id rows n)
unfolding retire_all
retire_all-Keeps now file_id [] n owns = (λ r i. i, λ s i. inl (s, i, refl, refl))
retire_all-Keeps now file_id (row ∷ rows) n owns =
    let m = retire_note now true file_id row n in
    let (here, own) = owns row (inl refl) in
    Keeps-trans n m (retire_all now true file_id rows m)
      (retire_note-Keeps now file_id row n here own)
      (retire_all-Keeps now file_id rows m λ other i.
        let (here', own') = owns other (inr i) in
        (
          here',
          rw (retire_note-summaries now true file_id row n) (IsOwn-after other _ n.summaries own'),
        ))

is_retired-is_local :
    (catalog active : List String) (only : Option (List String)) (file_id : String) (s : Summary)
    → is_retired catalog active only file_id s ≡ true
    → is_local s.fields ≡ true
is_retired-is_local catalog active only file_id s h = ground arith

pub retire_legacy_notes-Keeps :
    (now : ℕ) (catalog active : List String) (file_id : String) (only : Option (List String))
    (n : Notes)
    → IsKeyed n.summaries
    → Keeps n (retire_legacy_notes now catalog active file_id true only n).1
unfolding retire_legacy_notes
retire_legacy_notes-Keeps now catalog active file_id only n keyed =
    by_test (λ (out : List ℕ × Notes). Keeps n out.1) (any (is_current catalog file_id) n.summaries)
      (λ _. retire_all-Keeps now file_id _ n λ row i.
        let (m, t) = In-keep_back (is_retired catalog active only file_id) row n.summaries i in
        (is_retired-is_local catalog active only file_id row t, keyed row m))
      (λ _. (λ r i. i, λ s i. inl (s, i, refl, refl)))
