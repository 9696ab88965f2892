-- ===== src/Farm/Build/Success.antt =====
-- What it takes for `Build` to succeed.
use mathlib.Core.Option.{some-injective}
use buildfarm.Base.{
  List, [], ◌∷◌, Bool, true, Option, none, some, Bytes, ◌≢◌, ◌≡◌, refl, sym, ap, ◌∙◌, Member,
}
use buildfarm.Base.Map.{Map, keys, lookup}
use buildfarm.Base.Result.{Error, Result, ok, err, >>=-eq-ok}
use buildfarm.Base.Sort.{IsNodup}
use buildfarm.Types.{BuildOptions, BuildReport, ImageBuilder, ListBuilder}
use buildfarm.Farm.{Builders, Assignment}
use buildfarm.Farm.Build.{
  Uses, Job, Built, output_format, make_jobs, collect, choose_list_builder, build_into, build_jobs,
  build_as, build, assemble, parse_platform,
}
use buildfarm.Farm.Build.Jobs.{last_for}
use buildfarm.Farm.Build.Targets.{Asked, run-target, run-job}
use buildfarm.Farm.Build.Runs.{Run, report_of, platforms_of, platforms-runs}
use buildfarm.Farm.Build.Outcome.{
  Prepared, builds, failures, outcomes, listed, build-prepared, build-images_of, reports-listed,
}

none-ne-some : {W : Type 0} {b : Built W} → none ≢ some b
none-ne-some h = cc

module _ {W : Type 0} (uses : Uses W) (builders : Builders W) (reference : Bytes) (has_store : Bool)
    (schedule order : Assignment) (files : List Bytes) (options : BuildOptions) (w : W) where
  abbrev Preparation : Type 0
  Preparation = Prepared uses builders reference has_store schedule order files options w

  abbrev pub with_format : Bytes → BuildOptions
  with_format f = record options { output_format = f }

  prepared_by_list :
      (f : Bytes) (jobs : Map (Job W)) (x : Result (ListBuilder W) × W)
      → output_format options.output_format ≡ ok f
      → make_jobs uses builders schedule [] ≡ ok jobs
      → choose_list_builder uses reference has_store (with_format f) w ≡ x
      → (build_into uses x.0 jobs order files (with_format f) x.1).0 ≡ ok tt
      → Preparation
  prepared_by_list f jobs (err e, w1) ef ej el h = cc
  prepared_by_list f jobs (ok lb, w1) ef ej el h = record {
    format = f;
    jobs = jobs;
    list_builder = lb;
    world = w1;
    known_format = ef;
    all_jobs = ej;
    chosen = el;
  }

  prepared_by_jobs :
      (f : Bytes) (js : Result (Map (Job W)))
      → output_format options.output_format ≡ ok f
      → make_jobs uses builders schedule [] ≡ js
      → (build_jobs uses reference has_store js order files (with_format f) w).0 ≡ ok tt
      → Preparation
  prepared_by_jobs f (err e) ef ej h = cc
  prepared_by_jobs f (ok jobs) ef ej h =
      prepared_by_list f jobs (choose_list_builder uses reference has_store (with_format f) w) ef ej
        refl h

  prepared_by_format :
      (f : Result Bytes)
      → output_format options.output_format ≡ f
      → (build_as uses builders reference has_store schedule order files options f w).0 ≡ ok tt
      → Preparation
  prepared_by_format (err e) ef h = cc
  prepared_by_format (ok f) ef h =
      prepared_by_jobs f (make_jobs uses builders schedule []) ef refl h

  prepared_of_success :
      (build uses builders reference has_store schedule order files options w).0 ≡ ok tt
      → Preparation
  unfolding build
  prepared_of_success h = prepared_by_format (output_format options.output_format) refl h

  no_failures :
      (lb : ListBuilder W) (es : List Error) (m : Map (Built W)) (v : W)
      → (assemble uses lb es m v).0 ≡ ok tt
      → es ≡ []
  no_failures lb [] m v h = refl
  no_failures lb (e ∷ es) m v h = cc

  -- The builds of a build, and the images that its list builder is given.
  abbrev pub builds_of : Preparation → List (Run W) × W
  builds_of p = builds uses builders reference has_store schedule order files options w p

  abbrev pub failures_of : Preparation → List Error
  failures_of p = failures uses builders reference has_store schedule order files options w p

  abbrev pub images_of : Preparation → List (BuildReport × ImageBuilder W)
  images_of p =
      collect (outcomes uses builders reference has_store schedule order files options w p) []

  -- What a build has come to for one platform: the builder that the schedule names was asked for the
  -- last platform that the schedule has for that builder, normalized, and its report is listed.
  pub record Fulfilled (format : Bytes) (images : List (BuildReport × ImageBuilder W)) (q : Run W)
      : Type 0 where
    pub job : Job W
    pub report : BuildReport
    pub answer : q.answer ≡ some (job, ok report)
    pub scheduled : Member (q.platform, q.name) order
    pub last : last_for q.name schedule ≡ some job.platform
    pub builder : lookup q.name builders ≡ some job.builder
    pub target : job.target ≡ uses.normalize (parse_platform job.platform)
    pub asked : Asked uses files (with_format format) q.platform job (ok report)
    pub is_listed : listed report images ≡ true

  fulfilled :
      (p : Preparation)
      → IsNodup (keys order)
      → failures_of p ≡ []
      → (q : Run W) → Member q (builds_of p).0
      → Fulfilled p.format (images_of p) q
  fulfilled p d e0 q m =
      let (b, e, l) =
        reports-listed uses builders reference has_store schedule order files options w p d e0 q
          m in
      let (j, r, a, k) = answered q.answer b refl e in
      let (last, known, target, asked) =
        run-target uses files (with_format p.format) builders schedule order p.jobs p.world q j
          (ok r) p.all_jobs m a in
      let (_, _, scheduled) =
        run-job uses files (with_format p.format) p.jobs order p.world q j (ok r) m a in
      record {
        job = j;
        report = r;
        answer = a;
        scheduled = scheduled;
        last = last;
        builder = known;
        target = target;
        asked = asked;
        is_listed = ap (λ x. listed x (images_of p)) k ∙ l;
      }
    where
      answered :
          (o : Option (Job W × Result BuildReport)) (b : Built W)
          → q.answer ≡ o
          → report_of uses files (with_format p.format) q ≡ some b
          → (j : Job W) × (r : BuildReport) × (q.answer ≡ some (j, ok r)) × (r ≡ b.report)
      answered none b h e = absurd (none-ne-some (rw h at e))
      answered (some (j, err x)) b h e = absurd (none-ne-some (rw h at e))
      answered (some (j, ok r)) b h e =
          (j, r, h, ap (λ x. x.report) (some-injective _ b (rw h at e)))

  -- A build that has succeeded: there is one build for each platform, none has failed, each has
  -- been fulfilled by a builder, and the list builder has saved the list of the images.
  pub record Complete : Type 0 where
    pub state : Preparation
    pub no_failure : failures_of state ≡ []
    pub every_platform :
        platforms_of uses files (with_format state.format) (builds_of state).0 ≡ keys order
    pub every_report :
        (q : Run W)
        → Member q (builds_of state).0
        → (b : Built W) × (report_of uses files (with_format state.format) q ≡ some b)
          × (listed b.report (images_of state) ≡ true)
    pub fulfilled :
        (q : Run W) → Member q (builds_of state).0 → Fulfilled state.format (images_of state) q
    pub location : Bytes
    pub saved : (state.list_builder.build (images_of state) (builds_of state).1).0 ≡ ok location

  -- If `Build` returns no error, there is one build for each platform of the schedule. Each has asked
  -- the builder that the schedule names for that platform, but for the last platform that the
  -- schedule has for this builder, and the builder has answered with a report that is among the
  -- images that the list builder is given; and the list builder has saved the list of these images.
  -- The platforms of the schedule are distinct, as the keys of a map are.
  pub build-success :
      IsNodup (keys order)
      → (build uses builders reference has_store schedule order files options w).0 ≡ ok tt
      → Complete
  build-success d h =
      let p = prepared_of_success h in
      let after =
        build-prepared uses builders reference has_store schedule order files options w p in
      let no =
        no_failures p.list_builder (failures_of p)
          (outcomes uses builders reference has_store schedule order files options w p)
          (builds_of p).1 (ap (λ x. x.0) (sym after) ∙ h) in
      let images =
        build-images_of uses builders reference has_store schedule order files options w p no in
      let (location, saved, _) =
        >>=-eq-ok (p.list_builder.build (images_of p) (builds_of p).1).0 (λ _. ok tt)
          (ap (λ x. x.0) (sym images) ∙ h) in
      record {
        state = p;
        no_failure = no;
        every_platform = platforms-runs uses files (with_format p.format) p.jobs order p.world;
        every_report =
            reports-listed uses builders reference has_store schedule order files options w p d no;
        fulfilled = fulfilled p d no;
        location = location;
        saved = saved;
      }
