-- ===== src/Builder/Docker/Build.antt =====
-- `Build` of docker.go.
use buildfarm.Builder.Docker.Parsing.{put_labels, parse_ulimits, build_args}
use buildfarm.Base.{ℕ, List, [], ◌∷◌, Option, none, some, Bytes}
use buildfarm.Base.Int.{ℤ}
use buildfarm.Base.Map.{Map}
use buildfarm.Base.Result.{
  Error, errorf, wrapf, Result, ok, err, ◌>>=◌, Attempt, panicked, returned,
}
use buildfarm.Types.{Platform, BuildOptions, BuildReport, Call}
use buildfarm.Builder.Local.{Fetched, platform_name}
use buildfarm.Builder.Remote.{fetched_platform}
use buildfarm.Builder.Docker.Numbers.{to_int64}
use buildfarm.Builder.Docker.{ULimit, BuildImageOptions, Docker}

abbrev pub first_file : List Bytes → Bytes
first_file [] = []
first_file (f ∷ fs) = f

-- `buildOptions`, once everything that is parsed is there.
abbrev pub image_options :
    Bytes
    → List Bytes
    → BuildOptions
    → Platform
    → Map Bytes
    → ℤ
    → List ULimit
    → ℕ
    → BuildImageOptions
image_options reference files o p labels shm_size ulimits archive = record {
  name = reference;
  input_stream = archive;
  platform = platform_name p;
  context_dir = o.context_directory;
  dockerfile = first_file files;
  rm_tmp_container = o.remove_intermediate_containers;
  force_rm_tmp_container = o.force_remove_intermediate_containers;
  labels = labels;
  memory = o.memory;
  memswap = o.memory_swap;
  shm_size = shm_size;
  cpu_shares = to_int64 o.cpu_shares;
  cpu_quota = o.cpu_quota;
  cpu_period = to_int64 o.cpu_period;
  cpu_set_cpus = o.cpu_set_cpus;
  cgroup_parent = o.cgroup_parent;
  no_cache = o.no_cache;
  suppress_output = o.quiet;
  pull = o.pull;
  build_args = build_args o.args;
  ulimits = ulimits;
}

abbrev pub shm_error : Bytes → Result ℤ → Result ℤ
shm_error size (ok n) = ok n
shm_error size (err e) = err (errorf "parsing requested shmsize %q" (size ∷ []))

module _ {W : Type 0} (d : Docker W) where
  -- What `Build` parses before it makes the archive.
  unfoldable pub image_request :
      Bytes → List Bytes → BuildOptions → Platform → Result (ℕ → BuildImageOptions)
  unfolding put_labels parse_ulimits platform_name
  image_request reference files o p = put_labels o.labels [] >>= λ labels.
      shm_error o.shm_size (d.ram_in_bytes o.shm_size) >>= λ shm_size.
      parse_ulimits d o.ulimit >>= λ ulimits.
      ok (image_options reference files o p labels shm_size ulimits)

  -- The report is a nil pointer, which is followed where the engine has built the image.
  abbrev pub after_build : Bytes → Option Error → Attempt (Result BuildReport)
  after_build platform (some e) =
      returned (err (wrapf "building for %v on %q: %w" (platform ∷ d.name ∷ []) e))
  after_build platform none = panicked

  abbrev pub with_archive :
      Bytes → (ℕ → BuildImageOptions) → Result ℕ → Call W (Attempt (Result BuildReport))
  with_archive dir request (err e) w = (returned (err (wrapf "archiving %q: %w" (dir ∷ []) e)), w)
  with_archive dir request (ok archive) w =
      let (e, w1) = d.build_image (request archive) w in
      (after_build (request archive).platform e, d.close archive w1)

  abbrev pub with_request :
      Bytes → Result (ℕ → BuildImageOptions) → Call W (Attempt (Result BuildReport))
  with_request dir (err e) w = (returned (err e), w)
  with_request dir (ok request) w =
      let (archive, w1) = d.tar dir w in with_archive dir request archive w1

  -- `Build`; the platform is that of the cache.
  unfoldable pub docker_build :
      Bytes → List Bytes → BuildOptions → Option Fetched → Call W (Attempt (Result BuildReport))
  unfolding image_request
  docker_build reference files o c w =
      with_request o.context_directory (image_request reference files o (fetched_platform c)) w
