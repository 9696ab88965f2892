-- ===== src/Farm/Build/Jobs.antt =====
-- The list of jobs of `Build`: it is kept by builder, so a builder has one job, that of the last
-- of its platforms.
use buildfarm.Base.{
  [], ◌∷◌, Option, none, some, if◌then◌else◌, Bytes, eqb, eqb_iff, ◌≡◌, ◌≢◌, ◌↔◌, inl, inr, refl,
  sym, ◌∙◌, arith, Option-cases, All,
}
use buildfarm.Base.Map.{Map, lookup, insert, lookup-insert}
use buildfarm.Base.Result.{Error, ok, err}
use buildfarm.Farm.{Builders, Assignment}
use buildfarm.Farm.Assign.{or_else}
use buildfarm.Farm.Build.{Uses, Job, job_for, make_jobs, unknown_builder}

-- The last platform of a builder.
abbrev pub last_for : Bytes → Assignment → Option Bytes
last_for name [] = none
last_for name ((platform, n) ∷ rest) =
    or_else (last_for name rest) (if eqb n name then some platform else none)

module _ {W : Type 0} (uses : Uses W) (builders : Builders W) where
  -- The job of a platform on a builder that may be missing.
  abbrev pub job_on : Bytes → Option Bytes → Option (Job W) → Option (Job W)
  job_on name none before = before
  job_on name (some platform) before = elim (lookup name builders) [
    | none ↦ none
    | some b ↦ some (job_for uses builders platform b)
  ]

  job_on_step :
      (name platform n : Bytes) (rest : Assignment) (b : _) (jobs : Map (Job W))
      → lookup n builders ≡ some b
      → job_on name
          (last_for name rest)
          (lookup name (insert n (job_for uses builders platform b) jobs))
        ≡ job_on name (last_for name ((platform, n) ∷ rest)) (lookup name jobs)
  job_on_step name platform n rest b jobs h =
      ground (arith, lookup-insert n name (job_for uses builders platform b) jobs, eqb_iff n name)

  make_jobs-known :
      (platform n : Bytes) (rest : Assignment) (b : _) (jobs : Map (Job W))
      → lookup n builders ≡ some b
      → make_jobs uses builders ((platform, n) ∷ rest) jobs
        ≡ make_jobs uses builders rest (insert n (job_for uses builders platform b) jobs)
  unfolding make_jobs
  make_jobs-known platform n rest b jobs h = rw (h, make_jobs)

  make_jobs-unknown :
      (platform n : Bytes) (rest : Assignment) (jobs : Map (Job W))
      → lookup n builders ≡ none
      → make_jobs uses builders ((platform, n) ∷ rest) jobs ≡ err (unknown_builder uses builders n)
  unfolding make_jobs
  make_jobs-unknown platform n rest jobs h = rw (h, make_jobs)

  -- The jobs that are there in the end.
  pub lookup-make_jobs :
      (s : Assignment) (jobs after : Map (Job W)) (name : Bytes)
      → make_jobs uses builders s jobs ≡ ok after
      → lookup name after ≡ job_on name (last_for name s) (lookup name jobs)
  lookup-make_jobs [] jobs after name h = unfold make_jobs in grind arith
  lookup-make_jobs ((platform, n) ∷ rest) jobs after name h =
      elim (Option-cases (lookup n builders)) [
        | inl e ↦ absurd_ok (sym (make_jobs-unknown platform n rest jobs e) ∙ h)
        | inr (b, e) ↦
            lookup-make_jobs rest (insert n (job_for uses builders platform b) jobs) after name
              (sym (make_jobs-known platform n rest b jobs e) ∙ h)
            ∙ job_on_step name platform n rest b jobs e
      ]
    where
      absurd_ok : {A : Type 0} {e : Error} {m : Map (Job W)} → err e ≡ ok m → A
      absurd_ok h = cc

  -- The platforms whose builder is not in the farm stop the build.
  abbrev pub AllKnown : Assignment → Type 0
  AllKnown s = All (λ x. lookup x.1 builders ≢ none) s

  pub make_jobs-ok_iff :
      (s : Assignment) (jobs : Map (Job W))
      → ((after : Map (Job W)) × (make_jobs uses builders s jobs ≡ ok after)) ↔ AllKnown s
  make_jobs-ok_iff [] jobs = (λ _. tt, λ _. (jobs, unfold make_jobs in refl))
  make_jobs-ok_iff ((platform, n) ∷ rest) jobs = elim (Option-cases (lookup n builders)) [
    | inl e ↦ (
      λ (after, h). absurd_ok (sym (make_jobs-unknown platform n rest jobs e) ∙ h),
      λ k. absurd (k.0 e),
    )
    | inr (b, e) ↦
        let next = insert n (job_for uses builders platform b) jobs in
        let known = make_jobs-known platform n rest b jobs e in
        (
          λ (after, h).
              (λ x. none≢some (sym x ∙ e), (make_jobs-ok_iff rest next).0 (after, sym known ∙ h)),
          λ k. let (after, h) = (make_jobs-ok_iff rest next).1 k.1 in (after, known ∙ h),
        )
  ]
    where
      absurd_ok : {A : Type 0} {e : Error} {m : Map (Job W)} → err e ≡ ok m → A
      absurd_ok h = cc

      none≢some : {A : Type 0} {a : A} → none ≢ some a
      none≢some h = cc
