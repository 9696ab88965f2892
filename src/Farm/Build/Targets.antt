-- ===== src/Farm/Build/Targets.antt =====
-- Which platform each goroutine of `Build` asks its builder for.
use buildfarm.Base.{
  List, [], ◌∷◌, false, Option, none, some, Bytes, eqb_refl, elem, ◌≡◌, ◌≢◌, inl, inr, refl, sym,
  ◌∙◌, arith, Option-cases, Member, here, there,
}
use mathlib.Core.Option.{some-injective}
use mathlib.Core.Path.{subst}
use buildfarm.Base.Map.{Map, lookup}
use buildfarm.Base.Result.{Result, ok}
use buildfarm.Base.Sort.{IsNodup}
use buildfarm.Types.{BuildOptions, BuildReport}
use buildfarm.Farm.{Builders, Assignment}
use buildfarm.Farm.Build.{Uses, Job, these_options, job_for, make_jobs, parse_platform}
use buildfarm.Farm.Build.Jobs.{last_for, job_on, lookup-make_jobs}
use buildfarm.Farm.Build.Runs.{Run, runs, answer_of}

abbrev pub names_of : Assignment → List Bytes
names_of [] = []
names_of ((platform, n) ∷ rest) = n ∷ names_of rest

last_for-absent : (n : Bytes) (s : Assignment) → elem n (names_of s) ≡ false → last_for n s ≡ none
unfolding elem
last_for-absent n [] h = refl
last_for-absent n ((p, m) ∷ s) h = ground (arith, last_for-absent n s)

last_for-own :
    (s : Assignment) (p n : Bytes) → IsNodup (names_of s) → Member (p, n) s → last_for n s ≡ some p
last_for-own [] p n d m = elim m [ ]
last_for-own ((q, k) ∷ s) p n d here = rw (last_for-absent k s d.0, eqb_refl k) refl
last_for-own ((q, k) ∷ s) p n d (there m) = rw (last_for-own s p n d.1 m) refl

module _ {W : Type 0} (uses : Uses W) (files : List Bytes) (options : BuildOptions) where
  -- Where an answer comes from: the builder of a job was asked for the target of the job and for no
  -- other platform, with the options of the whole build but for its file for the ID and its writers,
  -- which are those of the goroutine.
  pub record Asked (platform : Bytes) (j : Job W) (r : Result BuildReport) : Type 0 where
    pub asked : BuildOptions
    pub world : W
    pub returned : r ≡ (j.builder.build [] files asked world).0
    pub target : asked.platforms ≡ j.target ∷ []
    pub no_iid_file : asked.iid_file ≡ []
    pub out : asked.out ≡ some (uses.out_pipe platform)
    pub err : asked.err ≡ some (uses.err_pipe platform)
    pub others :
        record asked {
          platforms = options.platforms;
          iid_file = options.iid_file;
          out = options.out;
          err = options.err;
        }
        ≡ options

  answer_of-job :
      (platform : Bytes) (o : Option (Job W)) (w : W) (j : Job W) (r : Result BuildReport)
      → (answer_of uses files options platform o w).0 ≡ some (j, r)
      → (o ≡ some j) × Asked platform j r
  answer_of-job platform none w j r h = cc
  answer_of-job platform (some i) w j r h =
      let e = some-injective _ (j, r) h in
      subst (λ x. (some i ≡ some x.0) × Asked platform x.0 x.1) e
        (
          refl,
          record {
            asked = these_options uses files options platform i;
            world = w;
            returned = refl;
            target = refl;
            no_iid_file = refl;
            out = refl;
            err = refl;
            others = refl;
          },
        )

  pub run-job :
      (jobs : Map (Job W)) (s : Assignment) (w : W) (q : Run W) (j : Job W) (r : Result BuildReport)
      → Member q (runs uses files options jobs s w).0
      → q.answer ≡ some (j, r)
      → (lookup q.name jobs ≡ some j) × Asked q.platform j r × Member (q.platform, q.name) s
  run-job jobs [] w q j r m h = elim m [ ]
  run-job jobs ((platform, name) ∷ s) w q j r here h =
      let (e, a) = answer_of-job platform (lookup name jobs) w j r h in (e, a, here)
  run-job jobs ((platform, name) ∷ s) w q j r (there m) h =
      let (e, a, k) =
        run-job jobs s (answer_of uses files options platform (lookup name jobs) w).1 q j r m h in
      (e, a, there k)

  -- Each platform of a schedule has its run.
  pub run-of :
      (jobs : Map (Job W)) (s : Assignment) (w : W) (platform name : Bytes)
      → Member (platform, name) s
      → (q : Run W) × Member q (runs uses files options jobs s w).0
        × (q.platform ≡ platform)
        × (q.name ≡ name)
  run-of jobs [] w platform name m = elim m [ ]
  run-of jobs ((platform, name) ∷ s) w p n here = (_, here, refl, refl)
  run-of jobs ((platform, name) ∷ s) w p n (there m) =
      let (q, k, a, b) =
        run-of jobs s (answer_of uses files options platform (lookup name jobs) w).1 p n m in
      (q, there k, a, b)

  module _ (builders : Builders W) (s order : Assignment) (jobs : Map (Job W)) (w : W) (q : Run W)
      (j : Job W) (r : Result BuildReport) where
    -- Once the jobs have been made, each goroutine that has a job asks the builder of its platform, but
    -- for the platform that the first loop had last for that builder, normalized, and for no other,
    -- with the options of the whole build but for the file for the ID and the two writers.
    pub run-target :
        make_jobs uses builders s [] ≡ ok jobs
        → Member q (runs uses files options jobs order w).0
        → q.answer ≡ some (j, r)
        → (last_for q.name s ≡ some j.platform)
          × (lookup q.name builders ≡ some j.builder)
          × (j.target ≡ uses.normalize (parse_platform j.platform))
          × Asked q.platform j r
    unfolding lookup
    run-target ok_jobs m h =
        let (e, a, _) = run-job jobs order w q j r m h in
        let (x, y, z) =
          job_on-some q.name (last_for q.name s)
            (sym (lookup-make_jobs uses builders s [] jobs q.name ok_jobs) ∙ e) in
        (x, y, z, a)
      where
        mismatch : none ≢ some j
        mismatch h = cc

        job_on-some :
            (n : Bytes) (o : Option Bytes)
            → job_on uses builders n o (lookup n []) ≡ some j
            → (o ≡ some j.platform)
              × (lookup n builders ≡ some j.builder)
              × (j.target ≡ uses.normalize (parse_platform j.platform))
        job_on-some n none h = cc
        job_on-some n (some p) h = elim (Option-cases (lookup n builders)) [
          | inl e ↦ absurd (mismatch (rw (e, job_on) at h))
          | inr (b, e) ↦
              subst
                (λ x.
                  (some p ≡ some x.platform)
                  × (lookup n builders ≡ some x.builder)
                  × (x.target ≡ uses.normalize (parse_platform x.platform)))
                (some-injective (job_for uses builders p b) j (rw (e, job_on) at h)) (refl, e, refl)
        ]

    -- If no builder has two platforms, each goroutine asks for its own platform, whatever the order
    -- in which the goroutines run.
    pub run-own_target :
        make_jobs uses builders s [] ≡ ok jobs
        → Member q (runs uses files options jobs order w).0
        → q.answer ≡ some (j, r)
        → ((x : Bytes × Bytes) → Member x order → Member x s)
        → IsNodup (names_of s)
        → (j.platform ≡ q.platform) × (j.target ≡ uses.normalize (parse_platform q.platform))
    run-own_target ok_jobs m h k d =
        let (a, _, c, _) = run-target ok_jobs m h in
        let own =
          last_for-own s q.platform q.name d
            (k (q.platform, q.name) (run-job jobs order w q j r m h).2) in
        let same = some-injective j.platform q.platform (sym a ∙ own) in
        (same, subst (λ p. j.target ≡ uses.normalize (parse_platform p)) same c)
