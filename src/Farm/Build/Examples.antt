-- ===== src/Farm/Build/Examples.antt =====
-- The theorems on `Build` at a farm of two builders.
use buildfarm.Base.{◌++◌}
use buildfarm.Farm.Build.Relay.{relay, unlines, prefixed, line_prefix, relay-unlines}
use buildfarm.Base.{
  ℕ, List, [], ◌∷◌, true, false, none, some, Bytes, String, codes, elem, eqb, ◌≡◌, inr, refl, here,
  there, Member,
}
use buildfarm.Base.Map.{Map, lookup, insert}
use buildfarm.Base.Result.{Error, foreign, wrapf, ok, err}
use buildfarm.Base.Int.{pos}
use buildfarm.Types.{BuildOptions, BuildReport, ImageBuilder, ListBuilder}
use buildfarm.Farm.{Builders, Assignment}
use buildfarm.Farm.Build.{
  Uses, Job, make_jobs, parse_platform, build, output_format, choose_list_builder,
  oci_v1_image_manifest,
}
use buildfarm.Farm.Build.Jobs.{last_for}
use buildfarm.Farm.Build.Runs.{Run}
use buildfarm.Farm.Build.Outcome.{Prepared, builds, failures, build-failure}
use buildfarm.Farm.Build.Success.{Complete, build-success}
use buildfarm.Farm.Build.Platforms.{PlatformBuilt, build-every_platform}
use buildfarm.Farm.Build.Refusals.{build-refusal}
use buildfarm.Farm.Build.Targets.{Asked, run-target}
use buildfarm.Farm.Delivery.{wired}
use buildfarm.Builder.Examples.{storage, copier}
use buildfarm.Farm.Examples.{node, amd64, arm64, image, first, pair, join, plan}

abbrev pub saves : ListBuilder ℕ
saves = record { build = λ images w. (ok (codes "list"), w) }

abbrev pub uses : Uses ℕ
uses = record {
  normalize = λ p. p;
  join = join;
  out_pipe = λ p. 1;
  err_pipe = λ p. 2;
  new_file_list_builder = λ location o w. (ok saves, w);
  new_local_list_builder = λ name o w. (ok saves, w);
}

abbrev pub options : BuildOptions
options = record {
  output_format = [];
  out = none;
  err = none;
  force_remove_intermediate_containers = false;
  remove_intermediate_containers = false;
  remove_intermediate_images = false;
  prune_images_on_success = false;
  platforms = [];
  pull = false;
  iid_file = [];
  context_directory = [];
  labels = [];
  args = none;
  shm_size = [];
  ulimit = [];
  memory = pos 0;
  memory_swap = pos 0;
  cpu_shares = 0;
  cpu_quota = pos 0;
  cpu_period = 0;
  cpu_set_cpus = [];
  cpu_set_mems = [];
  cgroup_parent = [];
  no_cache = false;
  quiet = false;
  cache_from = [];
  cache_to = [];
  add_host = [];
  target = [];
  configure_network = none;
}

abbrev pub files : List Bytes
files = codes "Dockerfile" ∷ []

build-success_example : Complete uses pair (codes "dir:out") true plan plan files options 0
build-success_example =
    build-success uses pair (codes "dir:out") true plan plan files options 0
      (unfold elem eqb in (refl, (refl, tt))) (unfold build eqb lookup insert in refl)

build-every_platform_example :
    (c : Complete uses pair (codes "dir:out") true plan plan files options 0) × ((platform
        name : Bytes)
      → Member (platform, name) plan
      → PlatformBuilt uses pair (codes "dir:out") true plan plan files options 0 c platform name)
build-every_platform_example =
    build-every_platform uses pair (codes "dir:out") true plan plan files options 0
      (unfold elem eqb in (refl, (refl, tt))) (unfold elem eqb in (refl, (refl, tt)))
      (λ x. (λ m. m, λ m. m)) (unfold build eqb lookup insert in refl)

-- The list builders of the program, which go over the images in the same order twice.
abbrev same_order : List (BuildReport × ImageBuilder ℕ) → List (BuildReport × ImageBuilder ℕ)
same_order l = l

abbrev real : Uses ℕ
real = wired uses storage copier same_order same_order

-- A farm whose second builder fails.
abbrev pub broken : Builders ℕ
broken = first ∷ (codes "b", node "b" (arm64 ∷ []) [] (err (foreign 5))) ∷ []

abbrev pub job_at : Bytes → String → Bytes × ImageBuilder ℕ → Bytes × Job ℕ
job_at platform arch (name, b) = (
  name,
  record {
    platform = platform;
    target = record { os = codes "linux"; arch = codes arch; variant = [] };
    builder = b;
  },
)

abbrev pub half_jobs : Map (Job ℕ)
half_jobs =
    job_at amd64 "amd64" first
    ∷ job_at arm64 "arm64" (codes "b", node "b" (arm64 ∷ []) [] (err (foreign 5)))
    ∷ []

half_jobs_lem : make_jobs uses broken plan [] ≡ ok half_jobs
unfolding make_jobs lookup insert eqb parse_platform
half_jobs_lem = refl

abbrev half : Prepared uses broken (codes "dir:out") true plan plan files options 0
half = record {
  format = oci_v1_image_manifest;
  jobs = half_jobs;
  list_builder = saves;
  world = 0;
  known_format = unfold output_format eqb in refl;
  all_jobs = half_jobs_lem;
  chosen = unfold choose_list_builder eqb in refl;
}

-- The build of the second builder.
abbrev failed_run : Run ℕ
failed_run = record {
  platform = arm64;
  name = codes "b";
  answer = some (
    (job_at arm64 "arm64" (codes "b", node "b" (arm64 ∷ []) [] (err (foreign 5)))).1,
    err (foreign 5),
  );
}

build-failure_example :
    (build uses broken (codes "dir:out") true plan plan files options 0 ≡ (
      err (
          wrapf "building: %w" [] (
            uses.join
              (failures uses broken (codes "dir:out") true plan plan files options 0 half))),
      (builds uses broken (codes "dir:out") true plan plan files options 0 half).1,
    ))
    × Member
        (wrapf "building for %q on %q: %w" (arm64 ∷ codes "b" ∷ []) (foreign 5))
        (failures uses broken (codes "dir:out") true plan plan files options 0 half)
build-failure_example =
    build-failure uses broken (codes "dir:out") true plan plan files options 0 half failed_run
      (job_at arm64 "arm64" (codes "b", node "b" (arm64 ∷ []) [] (err (foreign 5)))).1 (foreign 5)
      (unfold lookup eqb in there here) refl

build-refusal_example :
    (e : Error) × (build uses pair
        (codes "dir:out")
        true
        ((amd64, codes "c") ∷ [])
        ((amd64, codes "c") ∷ [])
        files
        options
        0
      ≡ (err e, 0))
build-refusal_example =
    build-refusal uses pair (codes "dir:out") true ((amd64, codes "c") ∷ [])
      ((amd64, codes "c") ∷ []) files options 0 (inr (λ k. k.0 (unfold lookup eqb in refl)))

-- Two platforms on one builder: the goroutine of the first asks for the second.
abbrev shared : Assignment
shared = (amd64, codes "a") ∷ (arm64, codes "a") ∷ []

abbrev shared_jobs : Map (Job ℕ)
shared_jobs = job_at arm64 "arm64" first ∷ []

abbrev job_a : Bytes → String → Job ℕ
job_a platform arch = (job_at platform arch first).1

abbrev run_of : Job ℕ → Run ℕ
run_of j = record { platform = amd64; name = codes "a"; answer = some (j, image "1") }

run-target_example :
    (last_for (codes "a") shared ≡ some arm64)
    × (lookup (codes "a") pair ≡ some first.1)
    × ((job_a arm64 "arm64").target ≡ uses.normalize (parse_platform arm64))
    × Asked uses files options amd64 (job_a arm64 "arm64") (image "1")
run-target_example =
    run-target uses files options pair shared shared shared_jobs 0 (run_of (job_a arm64 "arm64"))
      (job_a arm64 "arm64") (image "1") (unfold make_jobs lookup insert eqb parse_platform in refl)
      (unfold lookup eqb in here) refl

relay-unlines_example :
    relay amd64 (codes "a") (unlines (codes "one" ∷ [] ∷ []) ++ codes "rest")
    ≡ prefixed (line_prefix amd64 (codes "a")) (codes "one" ∷ [] ∷ [])
relay-unlines_example =
    relay-unlines amd64 (codes "a") (codes "one" ∷ [] ∷ []) (codes "rest")
      (((refl, (refl, (refl, tt))), (tt, tt))) (refl, (refl, (refl, (refl, tt))))
