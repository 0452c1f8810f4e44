-- ===== src/Pipeline/Freed.antt =====
-- What a narrow cycle leaves behind, however its work ends.
use mathlib.Core.Path.{subst}
use localplaud.Prelude.{
  ℕ, String, ◌≡◌, sym, Bool, false, ◌⊎◌, inl, inr, Option, none, some, find, Option-cases,
}
use localplaud.Pipeline.Recording.{PlaudFile, Library, file_id}
use localplaud.Pipeline.Claims.{
  Claim, ok, err, ClaimRequest, ProcessingClaim, claim_processing, has_token,
}
use localplaud.Pipeline.Retry.{RetrySettings}
use localplaud.Pipeline.Cycle.{Worked}
use localplaud.Pipeline.Narrow.{
  begun, under, take_claim, narrow_cycle, process_derived_artifacts, process_mind_map_only,
  derived_request, mind_map_request, outline_request, Outlined, outline_cycle, process_outline_only,
}
use localplaud.Pipeline.Release.{release-token, ok_eq}

-- The recording, if it is there, does not hold the token.
abbrev pub IsFree : String → String → Library → Type 0
IsFree token id l = (row : PlaudFile) → find file_id id l ≡ some row → has_token token row ≡ false

-- The token that a cycle works under.
abbrev pub chosen : Option String → String → String
chosen none new = new
chosen (some token) new = token

under-IsFree :
    (concurrency now : ℕ) (ask : ClaimRequest) (exists : String → Bool) (given : Option String)
    (new id : String) (cycle : ProcessingClaim → Library → Library) (l l' : Library)
    → ((active : ProcessingClaim) (m : Library) → IsFree active.token active.file (cycle active m))
    → under (take_claim concurrency now ask exists given new id l) cycle ≡ ok l'
    → IsFree (chosen given new) id l'
unfolding take_claim
under-IsFree concurrency now ask exists (some token) new id cycle l l' free e row f =
    free (record { file = id; token = token }) l row
      (subst (λ m. find file_id id m ≡ some row) (sym (ok_eq e)) f)
under-IsFree concurrency now ask exists none new id cycle l l' free e row f =
    ended (claim_processing concurrency now ask exists new id l) e
  where
    active : ProcessingClaim
    active = record { file = id; token = new }

    ended : (c : Claim Library) → under (begun active c) cycle ≡ ok l' → has_token new row ≡ false
    ended (ok claimed) eq =
        free active claimed row (subst (λ m. find file_id id m ≡ some row) (sym (ok_eq eq)) f)
    ended (err e) eq = cc

-- However a cycle for the notes, the mind map or the outline alone ends, and whether its claim was
-- given to it, taken by it or lost on the way, the recording is not left with the cycle's token.
pub narrow-IsFree :
    (concurrency now ends : ℕ) (s : RetrySettings) (exists : String → Bool) (given : Option String)
    (new id : String) (work : Library → Worked) (outline_work : Library → Outlined) (l l' : Library)
    → (process_derived_artifacts concurrency now s exists given new id ends work l ≡ ok l')
      ⊎ ((process_mind_map_only concurrency now s exists given new id ends work l ≡ ok l')
          ⊎ (process_outline_only concurrency now s exists given new id ends outline_work l
              ≡ ok l'))
    → IsFree (chosen given new) id l'
unfolding process_derived_artifacts process_mind_map_only process_outline_only narrow_cycle
    outline_cycle
narrow-IsFree concurrency now ends s exists given new id work outline_work l l' (inl e) =
    under-IsFree concurrency now derived_request exists given new id _ l l'
      (λ active m. release-token active.file active.token _) e
narrow-IsFree concurrency now ends s exists given new id work outline_work l l' (inr (inl e)) =
    under-IsFree concurrency now mind_map_request exists given new id _ l l'
      (λ active m. release-token active.file active.token _) e
narrow-IsFree concurrency now ends s exists given new id work outline_work l l' (inr (inr e)) =
    elim (Option-cases (find file_id id l)) [
      | inl missing ↦ let clash = rw (missing, process_outline_only) at e in cc
      | inr (row, found) ↦
          under-IsFree concurrency now outline_request exists given new id _ l l'
            (λ active m. release-token active.file active.token _)
            (rw (found, process_outline_only) at e)
    ]
