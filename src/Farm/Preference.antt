-- ===== src/Farm/Preference.antt =====
-- What a schedule owes to the builders: native before emulated, and no dependence on their order.
use mathlib.Core.List.{Perm}
use mathlib.Core.List.Perm
use mathlib.Core.Path.{subst}
use buildfarm.Base.{
  List, [], ◌∷◌, Bool, true, false, none, some, Bytes, ◌≡◌, ◌⊎◌, inl, inr, refl, sym, ◌∙◌, arith,
  Bool-cases, Option-cases, Member, here, there, any, Perm-any,
}
use buildfarm.Base.Map.{lookup}
use buildfarm.Base.Result.{Error, Result, ok, err}
use buildfarm.Types.{Info}
use buildfarm.Farm.{Builders, Assignment, schedule_for}
use buildfarm.Farm.Answers.{answers, lists_native, lists_emulated, first_with, choice, errors_of}
use buildfarm.Farm.Schedule.{lookup-schedule_for, schedule_for-ok_iff}

abbrev Answers : Type 0
Answers = List (Bytes × Result Info)

-- A builder of this name gave an answer that passes a test.
abbrev pub Answered : (Result Info → Bool) → Answers → Bytes → Type 0
Answered test rs b = (r : Result Info) × Member (b, r) rs × (test r ≡ true)

module _ (test : Result Info → Bool) where
  first_with-some : (rs : Answers) (b : Bytes) → first_with test rs ≡ some b → Answered test rs b
  first_with-some [] b h = cc
  first_with-some ((name, r) ∷ rs) b h = elim (Bool-cases (test r)) [
    | inl e ↦
        let same : name ≡ b = ground arith in
        (r, subst (λ c. Member (c, r) ((name, r) ∷ rs)) same here, e)
    | inr e ↦ let (q, m, t) = first_with-some rs b (rw e at h) in (q, there m, t)
  ]

  first_with-none :
      (rs : Answers) (b : Bytes) (r : Result Info)
      → first_with test rs ≡ none
      → Member (b, r) rs
      → test r ≡ false
  first_with-none [] b r h m = elim m [ ]
  first_with-none ((name, q) ∷ rs) b r h here = ground arith
  first_with-none ((name, q) ∷ rs) b r h (there m) = first_with-none rs b r (ground arith) m

  any-first_with :
      (rs : Answers)
      → any (λ (x : Bytes × Result Info). test x.1) rs ≡ false
      → first_with test rs ≡ none
  any-first_with [] h = refl
  any-first_with ((name, r) ∷ rs) h = ground (arith, any-first_with rs)

  first_with-any :
      (rs : Answers)
      → first_with test rs ≡ none
      → any (λ (x : Bytes × Result Info). test x.1) rs ≡ false
  first_with-any [] h = refl
  first_with-any ((name, r) ∷ rs) h = ground (arith, first_with-any rs)

  first_with-order :
      (rs qs : Answers) → Perm rs qs → first_with test rs ≡ none → first_with test qs ≡ none
  first_with-order rs qs p h =
      any-first_with qs
        (sym (Perm-any (λ (x : Bytes × Result Info). test x.1) p) ∙ first_with-any rs h)

-- A scheduled builder lists the platform as native; or it lists it as emulated, and then no
-- builder that answered lists it as native.
pub schedule_for-prefers_native :
    {W : Type 0} (join : List Error → Error) (bs : Builders W) (ps : List Bytes) (w : W)
    (s : Assignment) (p b : Bytes)
    → (schedule_for join bs ps w).0 ≡ ok s
    → lookup p s ≡ some b
    → Answered (lists_native p) (answers bs w).0 b
      ⊎ (Answered (lists_emulated p) (answers bs w).0 b
          × ((c : Bytes) (r : Result Info)
              → Member (c, r) (answers bs w).0
              → lists_native p r ≡ false))
schedule_for-prefers_native join bs ps w s p b h l =
    let rs = (answers bs w).0 in
    let chosen : choice rs p ≡ some b = ground (arith, lookup-schedule_for join bs ps w s h p) in
    elim (Option-cases (first_with (lists_native p) rs)) [
      | inl e ↦ inr (
        first_with-some (lists_emulated p) rs b (ground arith),
        λ c r m. first_with-none (lists_native p) rs c r e m,
      )
      | inr (c, e) ↦ inl (first_with-some (lists_native p) rs b (ground arith))
    ]

abbrev is_error : Bytes × Result Info → Bool
is_error (name, ok info) = false
is_error (name, err e) = true

errors_of-any : (rs : Answers) → errors_of rs ≡ [] → any is_error rs ≡ false
errors_of-any [] h = refl
errors_of-any ((name, ok info) ∷ rs) h = errors_of-any rs h
errors_of-any ((name, err e) ∷ rs) h = cc

any-errors_of : (rs : Answers) → any is_error rs ≡ false → errors_of rs ≡ []
any-errors_of [] h = refl
any-errors_of ((name, ok info) ∷ rs) h = any-errors_of rs h
any-errors_of ((name, err e) ∷ rs) h = cc

choice-order : (rs qs : Answers) (p : Bytes) → Perm rs qs → choice rs p ≡ none → choice qs p ≡ none
choice-order rs qs p perm h =
    let native = first_with-order (lists_native p) rs qs perm (ground arith) in
    let emulated = first_with-order (lists_emulated p) rs qs perm (ground arith) in ground arith

-- Whether there is a schedule does not depend on the order in which the builders answer: with the
-- same answers in another order there is one too.
pub schedule_for-order :
    {W : Type 0} (join : List Error → Error) (bs cs : Builders W) (ps : List Bytes) (w v : W)
    → Perm (answers bs w).0 (answers cs v).0
    → (s : Assignment) × ((schedule_for join bs ps w).0 ≡ ok s)
    → (s : Assignment) × ((schedule_for join cs ps v).0 ≡ ok s)
schedule_for-order join bs cs ps w v perm h =
    let (e, c) = (schedule_for-ok_iff join bs ps w).0 h in
    (schedule_for-ok_iff join cs ps v).1 (
      any-errors_of (answers cs v).0
          (sym (Perm-any is_error perm) ∙ errors_of-any (answers bs w).0 e),
      λ p i x. c p i (choice-order (answers cs v).0 (answers bs w).0 p (Perm.symm perm) x),
    )
