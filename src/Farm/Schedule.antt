-- ===== src/Farm/Schedule.antt =====
-- Who is scheduled for a platform: the first builder that has it natively, else the first that
-- emulates it.
use buildfarm.Base.{
  List, [], ◌∷◌, true, none, if◌then◌else◌, Bytes, elem, ◌≡◌, ◌≢◌, ◌↔◌, sym, ap, ◌∙◌, arith,
}
use buildfarm.Base.Map.{lookup}
use buildfarm.Base.Result.{Error, Result, ok}
use buildfarm.Types.{Info}
use buildfarm.Farm.{Builders, Assignment, assign, no_notes, error_or, schedule_for}
use buildfarm.Farm.Assign.{pick, lookup-assign, assign-served, assign-total}
use buildfarm.Farm.Answers.{
  answers, note_all, gather-answers, choice, lookup-native, lookup-emulated, errors_of,
  errors-note_all,
}

abbrev Answers : Type 0
Answers = List (Bytes × Result Info)

-- What `Schedule` makes of the answers.
abbrev scheduled : (List Error → Error) → Answers → List Bytes → Result Assignment
scheduled join rs ps =
    error_or join (note_all rs no_notes).errors (assign (note_all rs no_notes) ps [])

pick-choice : (rs : Answers) (p : Bytes) → pick (note_all rs no_notes) p ≡ choice rs p
unfolding lookup
pick-choice rs p = ground (arith, lookup-native rs no_notes p, lookup-emulated rs no_notes p)

module _ (join : List Error → Error) (rs : Answers) (ps : List Bytes) where
  -- A schedule needs every builder to have answered.
  scheduled-ok :
      (s : Assignment)
      → scheduled join rs ps ≡ ok s
      → (errors_of rs ≡ []) × (assign (note_all rs no_notes) ps [] ≡ ok s)
  scheduled-ok s h = by_errors (note_all rs no_notes).errors (errors-note_all rs no_notes) h
    where
      by_errors :
          (es : List Error)
          → es ≡ errors_of rs
          → error_or join es (assign (note_all rs no_notes) ps []) ≡ ok s
          → (errors_of rs ≡ []) × (assign (note_all rs no_notes) ps [] ≡ ok s)
      by_errors [] e k = (sym e, k)
      by_errors (x ∷ es) e k = cc

  scheduled-assign : errors_of rs ≡ [] → scheduled join rs ps ≡ assign (note_all rs no_notes) ps []
  scheduled-assign h =
      ap (λ es. error_or join es (assign (note_all rs no_notes) ps []))
        (errors-note_all rs no_notes ∙ h)

module _ {W : Type 0} (join : List Error → Error) (bs : Builders W) (ps : List Bytes) (w : W) where
  schedule_for-scheduled : (schedule_for join bs ps w).0 ≡ scheduled join (answers bs w).0 ps
  unfolding schedule_for
  schedule_for-scheduled =
      ap (λ g. error_or join g.0.errors (assign g.0 ps [])) (gather-answers bs no_notes w)

  -- A schedule assigns to each platform that was asked for the first builder that lists it as
  -- native, or else the first that lists it as emulated, and assigns no other platform.
  pub lookup-schedule_for :
      (s : Assignment)
      → (schedule_for join bs ps w).0 ≡ ok s
      → (p : Bytes) → lookup p s ≡ (if elem p ps then choice (answers bs w).0 p else none)
  lookup-schedule_for s h p =
      let rs = (answers bs w).0 in
      let done = (scheduled-ok join rs ps s (sym schedule_for-scheduled ∙ h)).1 in
      lookup-assign (note_all rs no_notes) ps [] s p done
      ∙ unfold lookup in ap (λ o. if elem p ps then o else none) (pick-choice rs p)

  -- There is a schedule exactly when every builder answers and each platform that was asked for
  -- is listed by one of them.
  pub schedule_for-ok_iff : ((s : Assignment) × ((schedule_for join bs ps w).0 ≡ ok s)) ↔ (
      (errors_of (answers bs w).0 ≡ [])
      × ((p : Bytes) → elem p ps ≡ true → choice (answers bs w).0 p ≢ none))
  schedule_for-ok_iff =
      let rs = (answers bs w).0 in
      (
        λ (s, h).
            let (e, k) = scheduled-ok join rs ps s (sym schedule_for-scheduled ∙ h) in
            (e, λ p i x. assign-served (note_all rs no_notes) ps [] s k p i (pick-choice rs p ∙ x)),
        λ (e, c).
            let (s, k) =
              assign-total (note_all rs no_notes) ps []
                (λ p i x. c p i (sym (pick-choice rs p) ∙ x)) in
            (s, schedule_for-scheduled ∙ scheduled-assign join rs ps e ∙ k),
      )
