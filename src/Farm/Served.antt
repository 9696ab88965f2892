-- ===== src/Farm/Served.antt =====
-- The schedule as a map: no platform twice, and none that was asked for left out.
use buildfarm.Base.{
  List, [], ◌∷◌, true, none, Bytes, elem, ◌≡◌, ◌≢◌, sym, ◌∙◌, inl, inr, Option-cases,
}
use buildfarm.Base.Map.{keys, lookup, insert, insert-IsNodup}
use buildfarm.Base.Result.{Error, Result, ok, err}
use buildfarm.Base.Sort.{IsNodup}
use buildfarm.Farm.{
  Builders, Assignment, Notes, assign, no_builder, no_notes, error_or, gather, native_platforms,
  schedule_for, schedule_found, schedule,
}
use buildfarm.Farm.Assign.{pick, assign-some, assign-none, assign-nil, assign-served, lookup-assign}

assign-IsNodup :
    (n : Notes) (ps : List Bytes) (m s : Assignment)
    → IsNodup (keys m)
    → assign n ps m ≡ ok s
    → IsNodup (keys s)
assign-IsNodup n [] m s d h = rw (sym (assign-nil n m s h)) d
assign-IsNodup n (p ∷ ps) m s d h = elim (Option-cases (pick n p)) [
  | inl e ↦ absurd (mismatch (sym (assign-none n p ps m e) ∙ h))
  | inr (b, e) ↦
      assign-IsNodup n ps (insert p b m) s (insert-IsNodup p b m d)
        (sym (assign-some n p ps m b e) ∙ h)
]
  where
    mismatch : {x : Assignment} → err (no_builder p) ≢ ok x
    mismatch e = cc

error_or-ok :
    (join : List Error → Error) (es : List Error) (r : Result Assignment) (s : Assignment)
    → error_or join es r ≡ ok s
    → r ≡ ok s
error_or-ok join [] r s h = h
error_or-ok join (e ∷ es) r s h = cc

module _ {W : Type 0} (join : List Error → Error) where
  schedule_for-assign :
      (bs : Builders W) (ps : List Bytes) (w : W) (s : Assignment)
      → (schedule_for join bs ps w).0 ≡ ok s
      → assign (gather bs no_notes w).0 ps [] ≡ ok s
  unfolding schedule_for
  schedule_for-assign bs ps w s h =
      let n = (gather bs no_notes w).0 in error_or-ok join n.errors (assign n ps []) s h

  -- A schedule has no platform twice.
  pub schedule-IsNodup :
      (bs cs : Builders W) (ps : List Bytes) (w : W) (s : Assignment)
      → (schedule join bs cs ps w).0 ≡ ok s
      → IsNodup (keys s)
  unfolding schedule
  schedule-IsNodup bs cs (p ∷ ps) w s h =
      assign-IsNodup (gather cs no_notes w).0 (p ∷ ps) [] s tt
        (schedule_for-assign cs (p ∷ ps) w s h)
  schedule-IsNodup bs cs [] w s h = by_found (native_platforms join bs w).0 h
    where
      by_found :
          (r : Result (List Bytes))
          → (schedule_found join cs r (native_platforms join bs w).1).0 ≡ ok s
          → IsNodup (keys s)
      by_found (err e) k = cc
      by_found (ok l) k =
          let v = (native_platforms join bs w).1 in
          assign-IsNodup (gather cs no_notes v).0 l [] s tt (schedule_for-assign cs l v s k)

  -- A schedule has every platform that was asked for.
  pub schedule-served :
      (bs cs : Builders W) (ps : List Bytes) (w : W) (s : Assignment)
      → (schedule join bs cs ps w).0 ≡ ok s
      → (p : Bytes) → elem p ps ≡ true
      → lookup p s ≢ none
  unfolding schedule
  schedule-served bs cs [] w s h p i = unfold elem in cc
  schedule-served bs cs (q ∷ ps) w s h p i =
      let n = (gather cs no_notes w).0 in
      let a = schedule_for-assign cs (q ∷ ps) w s h in
      let served = assign-served n (q ∷ ps) [] s a p i in
      λ e. served (sym (rw i at (lookup-assign n (q ∷ ps) [] s p a)) ∙ e)
