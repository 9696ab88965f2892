-- ===== src/Farm/Build.antt =====
-- `Build` of buildfarm.go.
pub mod Jobs
pub mod Runs
pub mod Outcome
pub mod Success
pub mod Platforms
pub mod Refusals
pub mod Targets
pub mod Relay
pub mod Group
pub mod Examples
use buildfarm.Base.{
  ℕ, List, [], ◌∷◌, ◌++◌, Bool, true, false, ◌||◌, ◌&&◌, Option, none, some, if◌then◌else◌, ◌==◌,
  Bytes, codes, eqb,
}
use buildfarm.Base.Map.{Map, lookup, insert}
use buildfarm.Base.Result.{Error, errorf, wrapf, Result, ok, err, map_err, ◌>>=◌}
use buildfarm.Types.{
  Platform, BuildOptions, BuildReport, ImageBuilder, ListBuilder, ListBuilderOptions, Call,
}
use buildfarm.Farm.{Builders, Assignment, error_or}

-- `define.OCIv1ImageManifest` and `define.Dockerv2ImageManifest`.
abbrev pub oci_v1_image_manifest : Bytes
oci_v1_image_manifest = codes "application/vnd.oci.image.manifest.v1+json"

abbrev pub docker_v2_image_manifest : Bytes
docker_v2_image_manifest = codes "application/vnd.docker.distribution.manifest.v2+json"

-- The switch on the output format.
unfoldable pub output_format : Bytes → Result Bytes
output_format f =
    if eqb f [] || eqb f oci_v1_image_manifest
    then ok oci_v1_image_manifest
    else if eqb f docker_v2_image_manifest
    then ok f
    else err (errorf "unknown output format %q requested" (f ∷ []))

-- `strings.Split(s, string(c))`; `part` is the part read so far.
unfoldable pub split_from : ℕ → Bytes → Bytes → List Bytes
split_from c part [] = part ∷ []
split_from c part (x ∷ xs) =
    let next = split_from c [] xs in
    let longer = split_from c (part ++ x ∷ []) xs in if x == c then part ∷ next else longer

abbrev pub raw_platform : List Bytes → Platform
raw_platform [] = record { os = []; arch = []; variant = [] }
raw_platform (o ∷ []) = record { os = o; arch = []; variant = [] }
raw_platform (o ∷ a ∷ []) = record { os = o; arch = a; variant = [] }
raw_platform (o ∷ a ∷ v ∷ _) = record { os = o; arch = a; variant = v }

-- `rawOS`, `rawArch` and `rawVariant` of a platform's name.
unfoldable pub parse_platform : Bytes → Platform
unfolding split_from
parse_platform platform = raw_platform (split_from b'/' [] platform)

pub record Job (W : Type 0) : Type 0 where
  pub platform : Bytes
  pub target : Platform
  pub builder : ImageBuilder W

-- What `Build` takes from elsewhere: `libimage.NormalizePlatform`, the error that go-multierror
-- makes of a list, the writing ends of the two pipes of a platform, and the list builders.
pub record Uses (W : Type 0) : Type 0 where
  pub normalize : Platform → Platform
  pub join : List Error → Error
  pub out_pipe : Bytes → ℕ
  pub err_pipe : Bytes → ℕ
  pub new_file_list_builder : Bytes → ListBuilderOptions → Call W (Result (ListBuilder W))
  pub new_local_list_builder : Bytes → ListBuilderOptions → Call W (Result (ListBuilder W))

module _ {W : Type 0} (uses : Uses W) (builders : Builders W) where
  abbrev pub job_for : Bytes → ImageBuilder W → Job W
  job_for platform builder = record {
    platform = platform;
    target = uses.normalize (parse_platform platform);
    builder = builder;
  }

  abbrev pub unknown_builder : Bytes → Error
  unknown_builder name = errorf "unknown builder %q" (name ∷ [])

  -- The list of jobs, which is kept by the name of the builder.
  unfoldable pub make_jobs : Assignment → Map (Job W) → Result (Map (Job W))
  make_jobs [] jobs = ok jobs
  make_jobs ((platform, name) ∷ rest) jobs = elim (lookup name builders) [
    | none ↦ err (unknown_builder name)
    | some b ↦ make_jobs rest (insert name (job_for platform b) jobs)
  ]

pub record Built (W : Type 0) : Type 0 where
  pub report : BuildReport
  pub builder : ImageBuilder W

-- What the goroutines of a group have left behind.
pub record Progress (W : Type 0) : Type 0 where
  pub results : Map (Built W)
  pub errors : List Error

module _ {W : Type 0} (uses : Uses W) (files : List Bytes) (options : BuildOptions) where
  -- `theseOptions`
  abbrev pub these_options : Bytes → Job W → BuildOptions
  these_options platform j = record options {
    iid_file = [];
    platforms = j.target ∷ [];
    out = some (uses.out_pipe platform);
    err = some (uses.err_pipe platform);
  }

  abbrev pub store : Bytes → Bytes → Job W → Result BuildReport → Progress W → Progress W
  store platform name j (ok r) p = record p {
    results = insert platform (record { report = r; builder = j.builder }) p.results;
  }
  store platform name j (err e) p = record p {
    errors = p.errors ++ wrapf "building for %q on %q: %w" (j.platform ∷ name ∷ []) e ∷ [];
  }

  abbrev pub no_connection : Bytes → Progress W → Progress W
  no_connection name p = record p {
    errors = p.errors ++ errorf "unknown connection for %q (shouldn't happen)" (name ∷ []) ∷ [];
  }

  abbrev pub run_job : Bytes → Bytes → Option (Job W) → Progress W → Call W (Progress W)
  run_job platform name none p w = (no_connection name p, w)
  run_job platform name (some j) p w =
      let (r, w1) = j.builder.build [] files (these_options platform j) w in
      (store platform name j r p, w1)

  -- The goroutines that build, in the order in which they run.
  unfoldable pub run_builds : Map (Job W) → Assignment → Progress W → Call W (Progress W)
  run_builds jobs [] p w = (p, w)
  run_builds jobs ((platform, name) ∷ rest) p w =
      let (p1, w1) = run_job platform name (lookup name jobs) p w in run_builds jobs rest p1 w1

unfoldable pub same_report : BuildReport → BuildReport → Bool
same_report a b = eqb a.image_id b.image_id && eqb a.save_format b.save_format

module _ {W : Type 0} where
  -- `perArchBuilds[report] = builder`
  unfoldable pub put_image :
      BuildReport
      → ImageBuilder W
      → List (BuildReport × ImageBuilder W)
      → List (BuildReport × ImageBuilder W)
  put_image r b [] = (r, b) ∷ []
  put_image r b ((q, c) ∷ l) = if same_report q r then (r, b) ∷ l else (q, c) ∷ put_image r b l

  unfoldable pub collect :
      Map (Built W) → List (BuildReport × ImageBuilder W) → List (BuildReport × ImageBuilder W)
  unfolding put_image same_report
  collect [] l = l
  collect ((platform, b) ∷ rest) l = collect rest (put_image b.report b.builder l)

abbrev pub list_builder_options : BuildOptions → ListBuilderOptions
list_builder_options o = record {
  force_remove_intermediate_containers = o.force_remove_intermediate_containers;
  remove_intermediate_containers = o.remove_intermediate_containers;
  remove_intermediate_images = o.remove_intermediate_images;
  prune_images_on_success = o.prune_images_on_success;
  iid_file = o.iid_file;
}

-- `strings.CutPrefix(s, "dir:")`: `HasPrefix` and `TrimPrefix` in one.
unfoldable pub cut_dir : Bytes → Option Bytes
cut_dir (d ∷ i ∷ r ∷ c ∷ rest) = if eqb (d ∷ i ∷ r ∷ c ∷ []) (codes "dir:") then some rest else none
cut_dir _ = none

module _ {W : Type 0} (uses : Uses W) where
  -- Where the final result is stored; the flag is `f.storeOptions != nil`.
  unfoldable pub choose_list_builder : Bytes → Bool → BuildOptions → Call W (Result (ListBuilder W))
  unfolding cut_dir
  choose_list_builder reference has_store options = elim (cut_dir reference) [
    | some location ↦ uses.new_file_list_builder location (list_builder_options options)
    | none ↦
        if has_store
        then uses.new_local_list_builder reference (list_builder_options options)
        else uses.new_file_list_builder reference (list_builder_options options)
  ]

  abbrev pub no_progress : Progress W
  no_progress = record { results = []; errors = [] }

  -- The final result, once the builds are done.
  abbrev pub assemble : ListBuilder W → List Error → Map (Built W) → Call W (Result (Unit {0}))
  assemble lb (e ∷ es) results w = (err (wrapf "building: %w" [] (uses.join (e ∷ es))), w)
  assemble lb [] results w =
      let (r, w1) = lb.build (collect results []) w in (r >>= (λ _. ok tt), w1)

  -- From the list builder on.
  abbrev pub build_into :
      Result (ListBuilder W)
      → Map (Job W)
      → Assignment
      → List Bytes
      → BuildOptions
      → Call W (Result (Unit {0}))
  build_into (err e) jobs schedule files options w =
      (err (wrapf "preparing to build list: %w" [] e), w)
  build_into (ok lb) jobs schedule files options w =
      let (p, w1) = run_builds uses files options jobs schedule no_progress w in
      assemble lb p.errors p.results w1

  abbrev pub build_jobs :
      Bytes
      → Bool
      → Result (Map (Job W))
      → Assignment
      → List Bytes
      → BuildOptions
      → Call W (Result (Unit {0}))
  build_jobs reference has_store (err e) schedule files options w = (err e, w)
  build_jobs reference has_store (ok jobs) schedule files options w =
      let (lb, w1) = choose_list_builder reference has_store options w in
      build_into lb jobs schedule files options w1

  abbrev pub build_as :
      Builders W
      → Bytes
      → Bool
      → Assignment
      → Assignment
      → List Bytes
      → BuildOptions
      → Result Bytes
      → Call W (Result (Unit {0}))
  build_as builders reference has_store schedule order files options (err e) w = (err e, w)
  build_as builders reference has_store schedule order files options (ok format) w =
      build_jobs reference has_store (make_jobs uses builders schedule []) order files
        (record options { output_format = format }) w

  -- `Build`. The schedule is a map: the first loop goes over it in one order, and the goroutines
  -- of the second run in another.
  unfoldable pub build :
      Builders W
      → Bytes
      → Bool
      → Assignment
      → Assignment
      → List Bytes
      → BuildOptions
      → Call W (Result (Unit {0}))
  unfolding output_format make_jobs choose_list_builder run_builds collect
  build builders reference has_store schedule order files options w =
      build_as builders reference has_store schedule order files options
        (output_format options.output_format) w
