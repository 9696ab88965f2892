-- ===== src/Farm/Build/Runs.antt =====
-- What the goroutines of `Build` leave behind: the errors of the builds, and the reports by
-- platform.
use mathlib.Core.List.{append-nil, append_assoc}
use buildfarm.Base.{
  List, [], ◌∷◌, ◌++◌, false, Option, none, some, if◌then◌else◌, Bytes, eqb, eqb_refl, elem, ◌≡◌,
  ◌≢◌, refl, sym, ap, ◌∙◌, arith, Member, here, there,
}
use buildfarm.Base.Map.{Map, lookup, insert, keys, lookup-insert}
use buildfarm.Base.Result.{Error, errorf, wrapf, Result, ok, err}
use buildfarm.Base.Sort.{IsNodup}
use buildfarm.Types.{BuildOptions, BuildReport, Call}
use buildfarm.Farm.{Assignment}
use buildfarm.Farm.Assign.{or_else, or_else_assoc}
use buildfarm.Farm.Build.{
  Uses, Job, Built, Progress, these_options, store, no_connection, run_job, run_builds,
}

-- One build: the platform, the name of the builder, and, if it has a job, the job and the answer.
pub record Run (W : Type 0) : Type 0 where
  pub platform : Bytes
  pub name : Bytes
  pub answer : Option (Job W × Result BuildReport)

no_left : {A : Type 0} (xs ys : List A) → xs ++ ys ≡ [] → xs ≡ []
no_left [] ys h = refl
no_left (x ∷ xs) ys h = cc

no_right : {A : Type 0} (xs ys : List A) → xs ++ ys ≡ [] → ys ≡ []
no_right [] ys h = h
no_right (x ∷ xs) ys h = cc

Member-append : {A : Type 0} {a : A} (xs : List A) {ys : List A} → Member a ys → Member a (xs ++ ys)
Member-append [] m = m
Member-append (x ∷ xs) m = there (Member-append xs m)

module _ {W : Type 0} (uses : Uses W) (files : List Bytes) (options : BuildOptions) where
  abbrev pub answer_of : Bytes → Option (Job W) → Call W (Option (Job W × Result BuildReport))
  answer_of platform none w = (none, w)
  answer_of platform (some j) w =
      let (r, w1) = j.builder.build [] files (these_options uses files options platform j) w in
      (some (j, r), w1)

  abbrev pub runs : Map (Job W) → Assignment → Call W (List (Run W))
  runs jobs [] w = ([], w)
  runs jobs ((platform, name) ∷ rest) w =
      let (a, w1) = answer_of platform (lookup name jobs) w in
      let (rs, w2) = runs jobs rest w1 in
      (record { platform = platform; name = name; answer = a } ∷ rs, w2)

  abbrev pub store_run : Run W → Progress W → Progress W
  store_run q p = store_answer q.answer
    where
      store_answer : Option (Job W × Result BuildReport) → Progress W
      store_answer none = no_connection uses files options q.name p
      store_answer (some (j, r)) = store uses files options q.platform q.name j r p

  abbrev pub store_all : List (Run W) → Progress W → Progress W
  store_all [] p = p
  store_all (q ∷ rs) p = store_all rs (store_run q p)

  run_job-answer :
      (platform name : Bytes) (o : Option (Job W)) (p : Progress W) (w : W)
      → run_job uses files options platform name o p w ≡ (
        store_run
            (record { platform = platform; name = name; answer = (answer_of platform o w).0 })
            p,
        (answer_of platform o w).1,
      )
  run_job-answer platform name none p w = refl
  run_job-answer platform name (some j) p w = refl

  pub run_builds-runs :
      (jobs : Map (Job W)) (s : Assignment) (p : Progress W) (w : W)
      → run_builds uses files options jobs s p w
        ≡ (store_all (runs jobs s w).0 p, (runs jobs s w).1)
  unfolding run_builds
  run_builds-runs jobs [] p w = refl
  run_builds-runs jobs ((platform, name) ∷ rest) p w =
      ap (λ x. run_builds uses files options jobs rest x.0 x.1)
        (run_job-answer platform name (lookup name jobs) p w)
      ∙ run_builds-runs jobs rest
          (store_run
            (record {
              platform = platform;
              name = name;
              answer = (answer_of platform (lookup name jobs) w).0;
            })
            p)
          (answer_of platform (lookup name jobs) w).1

  abbrev pub report_of : Run W → Option (Built W)
  report_of q = elim q.answer [
    | none ↦ none
    | some (j, ok r) ↦ some (record { report = r; builder = j.builder })
    | some (j, err e) ↦ none
  ]

  -- The error of a build: none, if it has a report.
  abbrev pub error_of : Run W → List Error
  error_of q = elim q.answer [
    | none ↦ errorf "unknown connection for %q (shouldn't happen)" (q.name ∷ []) ∷ []
    | some (j, ok r) ↦ []
    | some (j, err e) ↦ wrapf "building for %q on %q: %w" (j.platform ∷ q.name ∷ []) e ∷ []
  ]

  abbrev pub run_errors : List (Run W) → List Error
  run_errors [] = []
  run_errors (q ∷ rs) = error_of q ++ run_errors rs

  -- The error of a build that has failed is among those of all.
  pub Member-run_errors :
      (rs : List (Run W)) (q : Run W) (j : Job W) (e : Error)
      → Member q rs
      → q.answer ≡ some (j, err e)
      → Member (wrapf "building for %q on %q: %w" (j.platform ∷ q.name ∷ []) e) (run_errors rs)
  Member-run_errors [] q j e m a = elim m [ ]
  Member-run_errors (x ∷ rs) q j e here a = rw a here
  Member-run_errors (x ∷ rs) q j e (there m) a =
      Member-append (error_of x) (Member-run_errors rs q j e m a)

  errors-store_run : (q : Run W) (p : Progress W) → (store_run q p).errors ≡ p.errors ++ error_of q
  errors-store_run q p = by_answer q.answer refl
    where
      by_answer :
          (a : Option (Job W × Result BuildReport))
          → q.answer ≡ a
          → (store_run q p).errors ≡ p.errors ++ error_of q
      by_answer none h = rw h
      by_answer (some (j, ok r)) h = rw h (sym (append-nil p.errors))
      by_answer (some (j, err e)) h = rw h

  pub errors-store_all :
      (rs : List (Run W)) (p : Progress W) → (store_all rs p).errors ≡ p.errors ++ run_errors rs
  errors-store_all [] p = sym (append-nil p.errors)
  errors-store_all (q ∷ rs) p =
      errors-store_all rs (store_run q p)
      ∙ ap (λ es. es ++ run_errors rs) (errors-store_run q p)
      ∙ append_assoc p.errors (error_of q) (run_errors rs)

  results-store_run :
      (q : Run W) (p : Progress W)
      → (store_run q p).results
        ≡ elim (report_of q) [ none ↦ p.results | some b ↦ insert q.platform b p.results ]
  results-store_run q p = by_answer q.answer refl
    where
      by_answer :
          (a : Option (Job W × Result BuildReport))
          → q.answer ≡ a
          → (store_run q p).results
            ≡ elim (report_of q) [ none ↦ p.results | some b ↦ insert q.platform b p.results ]
      by_answer none h = rw h
      by_answer (some (j, ok r)) h = rw h
      by_answer (some (j, err e)) h = rw h

  -- The last report for a platform.
  abbrev pub last_report : Bytes → List (Run W) → Option (Built W)
  last_report k [] = none
  last_report k (q ∷ rs) =
      or_else (last_report k rs) (if eqb q.platform k then report_of q else none)

  pub lookup-store_all :
      (rs : List (Run W)) (p : Progress W) (k : Bytes)
      → lookup k (store_all rs p).results ≡ or_else (last_report k rs) (lookup k p.results)
  lookup-store_all [] p k = refl
  lookup-store_all (q ∷ rs) p k =
      lookup-store_all rs (store_run q p) k
      ∙ ap (or_else (last_report k rs))
          (ap (lookup k) (results-store_run q p) ∙ after_report (report_of q))
      ∙ or_else_assoc (last_report k rs) (if eqb q.platform k then report_of q else none) _
    where
      after_report :
          (o : Option (Built W))
          → lookup k (elim o [ none ↦ p.results | some b ↦ insert q.platform b p.results ])
            ≡ or_else (if eqb q.platform k then o else none) (lookup k p.results)
      after_report none = ground arith
      after_report (some b) = ground (arith, lookup-insert q.platform k b p.results)

  abbrev pub platforms_of : List (Run W) → List Bytes
  platforms_of [] = []
  platforms_of (q ∷ rs) = q.platform ∷ platforms_of rs

  pub platforms-runs :
      (jobs : Map (Job W)) (s : Assignment) (w : W) → platforms_of (runs jobs s w).0 ≡ keys s
  platforms-runs jobs [] w = refl
  platforms-runs jobs ((platform, name) ∷ rest) w =
      ap (λ l. platform ∷ l) (platforms-runs jobs rest (answer_of platform (lookup name jobs) w).1)

  report_of_no_error : (q : Run W) → error_of q ≡ [] → (b : Built W) × (report_of q ≡ some b)
  report_of_no_error q h = by_answer q.answer refl
    where
      by_answer :
          (a : Option (Job W × Result BuildReport))
          → q.answer ≡ a
          → (b : Built W) × (report_of q ≡ some b)
      by_answer none e = absurd (filled (rw e at h))
        where
          filled : {e : Error} → (e ∷ []) ≢ []
          filled h = cc
      by_answer (some (j, ok r)) e = (record { report = r; builder = j.builder }, rw e)
      by_answer (some (j, err x)) e = absurd (filled (rw e at h))
        where
          filled : {e : Error} → (e ∷ []) ≢ []
          filled h = cc

  last_report_absent :
      (k : Bytes) (rs : List (Run W)) → elem k (platforms_of rs) ≡ false → last_report k rs ≡ none
  unfolding elem
  last_report_absent k [] h = refl
  last_report_absent k (q ∷ rs) h = ground (arith, last_report_absent k rs)

  -- Without errors every build is among the reports, if the platforms differ.
  pub last_report_of :
      (rs : List (Run W)) (q : Run W)
      → run_errors rs ≡ []
      → IsNodup (platforms_of rs)
      → Member q rs
      → (b : Built W) × (report_of q ≡ some b) × (last_report q.platform rs ≡ some b)
  last_report_of [] q h d m = elim m [ ]
  last_report_of (x ∷ rs) q h d here =
      let (b, e) = report_of_no_error q (no_left (error_of q) (run_errors rs) h) in
      (b, e, rw (last_report_absent x.platform rs d.0, eqb_refl, e) refl)
  last_report_of (x ∷ rs) q h d (there m) =
      let (b, e, l) = last_report_of rs q (no_right (error_of x) (run_errors rs) h) d.1 m in
      (b, e, rw l refl)
