-- ===== src/Farm/Build/Outcome.antt =====
-- What `Build` returns, and what it has done by then.
use mathlib.Core.Option.{some-injective}
use mathlib.Core.Path.{subst}
use buildfarm.Base.{
  List, [], ◌∷◌, Bool, true, ◌||◌, some, Bytes, eqb, eqb_iff, eqb_refl, ◌≡◌, ◌≢◌, inl, inr, refl,
  sym, ap, ◌∙◌, arith, Bool-cases, Member, here, there, any,
}
use buildfarm.Base.Map.{Map, lookup, keys}
use buildfarm.Base.Result.{Error, wrapf, Result, ok, err, ◌>>=◌}
use buildfarm.Base.Sort.{IsNodup}
use buildfarm.Types.{BuildOptions, BuildReport, ImageBuilder, ListBuilder}
use buildfarm.Farm.{Builders, Assignment}
use buildfarm.Farm.Build.{
  Uses, Job, Built, output_format, make_jobs, same_report, put_image, collect, choose_list_builder,
  no_progress, assemble, build_into, build_jobs, build_as, build,
}
use buildfarm.Farm.Build.Runs.{
  Member-run_errors, Run, runs, run_builds-runs, store_all, run_errors, errors-store_all, report_of,
  lookup-store_all, platforms-runs, last_report_of,
}

pub same_report_refl : (r : BuildReport) → same_report r r ≡ true
unfolding same_report
same_report_refl r = rw (eqb_refl r.image_id, eqb_refl r.save_format) refl

pub same_report_trans :
    (a b c : BuildReport) → same_report a b ≡ true → same_report b c ≡ same_report a c
unfolding same_report
same_report_trans a b c h = ground (
  arith,
  eqb_iff a.image_id b.image_id,
  eqb_iff a.save_format b.save_format,
  eqb_iff a.image_id c.image_id,
  eqb_iff a.save_format c.save_format,
  eqb_iff b.image_id c.image_id,
  eqb_iff b.save_format c.save_format,
)

module _ {W : Type 0} where
  -- Whether a report is among the images.
  abbrev pub listed : BuildReport → List (BuildReport × ImageBuilder W) → Bool
  listed r l = any (λ x. same_report x.0 r) l

  listed-put_image :
      (q r : BuildReport) (b : ImageBuilder W) (l : List (BuildReport × ImageBuilder W))
      → listed q (put_image r b l) ≡ (same_report r q || listed q l)
  unfolding put_image
  listed-put_image q r b [] = refl
  listed-put_image q r b ((a, c) ∷ l) =
      ground (arith, listed-put_image q r b l, same_report_trans a r q)

  -- `perArchBuilds` has the reports of the map.
  listed-collect :
      (q : BuildReport) (m : Map (Built W)) (l : List (BuildReport × ImageBuilder W))
      → listed q l ≡ true
      → listed q (collect m l) ≡ true
  unfolding collect
  listed-collect q [] l h = h
  listed-collect q ((platform, b) ∷ m) l h =
      listed-collect q m (put_image b.report b.builder l)
        (listed-put_image q b.report b.builder l ∙ rw h (or_true (same_report b.report q)))
    where
      or_true : (b : Bool) → (b || true) ≡ true
      or_true b = ground arith

  listed-collect-lookup :
      (k : Bytes) (b : Built W) (m : Map (Built W)) (l : List (BuildReport × ImageBuilder W))
      → lookup k m ≡ some b
      → listed b.report (collect m l) ≡ true
  unfolding collect lookup
  listed-collect-lookup k b [] l h = cc
  listed-collect-lookup k b ((platform, c) ∷ m) l h = elim (Bool-cases (eqb platform k)) [
    | inl e ↦ listed-collect b.report m (put_image c.report c.builder l) (
        listed-put_image b.report c.report c.builder l
        ∙ ap (λ x. x || listed b.report l) (same_as (some-injective c b (rw e at h))))
    | inr e ↦ listed-collect-lookup k b m (put_image c.report c.builder l) (rw e at h)
  ]
    where
      same_as : {a b : Built W} → a ≡ b → same_report a.report b.report ≡ true
      same_as {a} {b} h =
          subst (λ x. same_report a.report x.report ≡ true) h (same_report_refl a.report)

module _ {W : Type 0} (uses : Uses W) (builders : Builders W) (reference : Bytes) (has_store : Bool)
    (schedule order : Assignment) (files : List Bytes) (options : BuildOptions) (w : W) where
  abbrev built : Result (Unit {0}) × W
  built = build uses builders reference has_store schedule order files options w

  -- The state of a build whose list builder has been made.
  pub record Prepared : Type 0 where
    pub format : Bytes
    pub jobs : Map (Job W)
    pub list_builder : ListBuilder W
    pub world : W
    pub known_format : output_format options.output_format ≡ ok format
    pub all_jobs : make_jobs uses builders schedule [] ≡ ok jobs
    pub chosen :
        choose_list_builder uses reference has_store (record options { output_format = format }) w
        ≡ (ok list_builder, world)

  module _ (p : Prepared) where
    abbrev these : BuildOptions
    these = record options { output_format = p.format }

    -- The builds, which have the output format that was chosen.
    abbrev pub builds : List (Run W) × W
    builds = runs uses files these p.jobs order p.world

    abbrev pub failures : List Error
    failures = run_errors uses files these builds.0

    abbrev pub outcomes : Map (Built W)
    outcomes = (store_all uses files these builds.0 (no_progress uses)).results

    pub build-prepared : built ≡ assemble uses p.list_builder failures outcomes builds.1
    unfolding build
    build-prepared =
        ap (λ f. build_as uses builders reference has_store schedule order files options f w)
          p.known_format
        ∙ ap (λ js. build_jobs uses reference has_store js order files these w) p.all_jobs
        ∙ ap (λ x. build_into uses x.0 p.jobs order files these x.1) p.chosen
        ∙ ap (λ x. assemble uses p.list_builder x.0.errors x.0.results x.1)
            (run_builds-runs uses files these p.jobs order (no_progress uses) p.world)
        ∙ ap (λ es. assemble uses p.list_builder es outcomes builds.1)
            (errors-store_all uses files these builds.0 (no_progress uses))

    -- Once the jobs and the list builder have been made: if a builder answers a build with an error,
    -- `Build` returns an error that joins those of all builds that failed, among them this one with the
    -- platform of its job and its builder, and the list builder is not asked to do anything.
    pub build-failure :
        (q : Run W) (j : Job W) (e : Error)
        → Member q builds.0
        → q.answer ≡ some (j, err e)
        → (built ≡ (err (wrapf "building: %w" [] (uses.join failures)), builds.1))
          × Member (wrapf "building for %q on %q: %w" (j.platform ∷ q.name ∷ []) e) failures
    build-failure q j e m a =
        let reported = Member-run_errors uses files these builds.0 q j e m a in
        (build-prepared ∙ by_failures (Member-ne-nil reported) failures refl, reported)
      where
        Member-ne-nil : {x : Error} {xs : List Error} → Member x xs → xs ≢ []
        Member-ne-nil here k = cc
        Member-ne-nil (there i) k = cc

        by_failures :
            failures ≢ []
            → (es : List Error) → failures ≡ es
            → assemble uses p.list_builder es outcomes builds.1
              ≡ (err (wrapf "building: %w" [] (uses.join es)), builds.1)
        by_failures h [] k = absurd (h k)
        by_failures h (x ∷ es) k = refl

    pub build-images_of :
        failures ≡ []
        → built ≡ (
            let (r, w1) = p.list_builder.build (collect outcomes []) builds.1 in
            (r >>= (λ _. ok tt), w1))
    build-images_of h =
        build-prepared ∙ ap (λ es. assemble uses p.list_builder es outcomes builds.1) h

    -- Every build is in the list that is made of the images, if the platforms of the schedule
    -- differ, as the keys of a map do.
    pub reports-listed :
        IsNodup (keys order)
        → failures ≡ []
        → (q : Run W) → Member q builds.0
        → (b : Built W) × (report_of uses files these q ≡ some b)
          × (listed b.report (collect outcomes []) ≡ true)
    reports-listed d h q m =
        let (b, e, l) =
          last_report_of uses files these builds.0 q h
            (subst IsNodup (sym (platforms-runs uses files these p.jobs order p.world)) d) m in
        (
          b,
          e,
          listed-collect-lookup q.platform b outcomes [] (
              lookup-store_all uses files these builds.0 (no_progress uses) q.platform
              ∙ unfold lookup in rw l refl),
        )
