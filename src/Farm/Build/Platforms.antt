-- ===== src/Farm/Build/Platforms.antt =====
-- What a successful `Build` of buildfarm.go has built where no builder has two platforms.
use mathlib.Core.Path.{subst}
use buildfarm.Base.{List, Bool, true, some, Bytes, ◌↔◌, ◌≡◌, sym, ap, ◌∙◌, Member}
use buildfarm.Base.Map.{keys, lookup}
use buildfarm.Base.Result.{ok}
use buildfarm.Base.Sort.{IsNodup}
use buildfarm.Types.{BuildOptions, BuildReport}
use buildfarm.Farm.{Builders, Assignment}
use buildfarm.Farm.Build.{Uses, Job, build, parse_platform}
use buildfarm.Farm.Build.Targets.{Asked, names_of, run-of, run-own_target}
use buildfarm.Farm.Build.Outcome.{listed}
use buildfarm.Farm.Build.Success.{Complete, with_format, images_of, build-success}

module _ {W : Type 0} (uses : Uses W) (builders : Builders W) (reference : Bytes) (has_store : Bool)
    (schedule order : Assignment) (files : List Bytes) (options : BuildOptions) (w : W) where
  abbrev Completed : Type 0
  Completed = Complete uses builders reference has_store schedule order files options w

  -- A platform that has been built: the builder of that name was asked for this platform, normalized,
  -- and for no other, and has answered with a report that is among the images.
  pub record PlatformBuilt (c : Completed) (platform name : Bytes) : Type 0 where
    pub job : Job W
    pub report : BuildReport
    pub builder : lookup name builders ≡ some job.builder
    pub target : job.target ≡ uses.normalize (parse_platform platform)
    pub asked :
        Asked uses files
          (with_format uses builders reference has_store schedule order files options w
            c.state.format)
          platform
          job
          (ok report)
    pub is_listed :
        listed report
          (images_of uses builders reference has_store schedule order files options w c.state)
        ≡ true

  -- If `Build` returns no error and the schedule names no builder twice, every platform of the schedule
  -- was built: the builder that the schedule names for it was asked for this platform, normalized, and
  -- for no other, and has answered with a report that is among the images that the list builder is
  -- given. The platforms are distinct, and the two orders in which the schedule is gone over have the
  -- same platforms with the same builders, as two orders of one map have.
  pub build-every_platform :
      IsNodup (keys order)
      → IsNodup (names_of schedule)
      → ((x : Bytes × Bytes) → Member x order ↔ Member x schedule)
      → (build uses builders reference has_store schedule order files options w).0 ≡ ok tt
      → (c : Completed) × ((platform name : Bytes)
          → Member (platform, name) schedule
          → PlatformBuilt c platform name)
  build-every_platform d once same h =
      let c = build-success uses builders reference has_store schedule order files options w d h in
      (c, λ platform name m. built c platform name m)
    where
      built :
          (c : Completed) (platform name : Bytes)
          → Member (platform, name) schedule
          → PlatformBuilt c platform name
      built c platform name m =
          let these =
            with_format uses builders reference has_store schedule order files options w
              c.state.format in
          let (q, k, p, n) =
            run-of uses files these c.state.jobs order c.state.world platform name
              ((same (platform, name)).1 m) in
          let x = c.fulfilled q k in
          let (_, target) =
            run-own_target uses files these builders schedule order c.state.jobs c.state.world q
              x.job (ok x.report) c.state.all_jobs k x.answer (λ y i. (same y).0 i) once in
          record {
            job = x.job;
            report = x.report;
            builder = ap (λ y. lookup y builders) (sym n) ∙ x.builder;
            target = target ∙ ap (λ y. uses.normalize (parse_platform y)) p;
            asked = subst (λ y. Asked uses files these y x.job (ok x.report)) p x.asked;
            is_listed = x.is_listed;
          }
