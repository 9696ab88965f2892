-- ===== src/Command/Flags.antt =====
-- The flags that main.go, build.go and prune.go of cmd/buildfarm define, and the settings and options that they
-- make. cobra and pflag read the command line.
pub mod Given
use buildfarm.Base.{ℕ, List, [], Bool, true, false, none, Bytes, codes, ◌≡◌}
use buildfarm.Base.Int.{ℤ, pos}
use buildfarm.Types.{BuildOptions, PruneImageOptions}
use buildfarm.Command.{Settings}
use buildfarm.Command.Build.{CliOptions}

-- A command line that has been read: which flags are given, and what is left in the variable of a
-- flag that has been defined with a name and a default.
pub record Flags : Type 0 where
  pub is_given : Bytes → Bool
  pub string_var : Bytes → Bytes → Bytes
  pub string_slice_var : Bytes → List Bytes → List Bytes
  pub bool_var : Bytes → Bool → Bool
  pub int64_var : Bytes → ℤ → ℤ
  pub uint64_var : Bytes → ℕ → ℕ

-- pflag leaves the default in the variable of a flag that is not given.
pub record Defaulted (f : Flags) : Type 0 where
  pub string : (name d : Bytes) → f.is_given name ≡ false → f.string_var name d ≡ d
  pub string_slice :
      (name : Bytes) (d : List Bytes) → f.is_given name ≡ false → f.string_slice_var name d ≡ d
  pub bool : (name : Bytes) (d : Bool) → f.is_given name ≡ false → f.bool_var name d ≡ d
  pub int64 : (name : Bytes) (d : ℤ) → f.is_given name ≡ false → f.int64_var name d ≡ d
  pub uint64 : (name : Bytes) (d : ℕ) → f.is_given name ≡ false → f.uint64_var name d ≡ d

-- The flags of `main`, without --debug.
abbrev pub settings_of : Flags → Settings
settings_of f = record {
  farm_name = f.string_var (codes "farm") [];
  ad_hoc_farm_nodes = f.string_slice_var (codes "node") [];
  local = f.bool_var (codes "local") false;
}

-- The flags of `buildCommand` that are build options; the other fields stay as they are.
abbrev pub build_options_of : Flags → BuildOptions
build_options_of f = record {
  output_format = [];
  out = none;
  err = none;
  labels = f.string_slice_var (codes "label") [];
  remove_intermediate_containers = f.bool_var (codes "rm") true;
  force_remove_intermediate_containers = f.bool_var (codes "force-rm") true;
  remove_intermediate_images = f.bool_var (codes "rm-images") true;
  prune_images_on_success = f.bool_var (codes "prune") false;
  add_host = f.string_slice_var (codes "add-host") [];
  cpu_period = f.uint64_var (codes "cpu-period") 0;
  cpu_quota = f.int64_var (codes "cpu-quota") (pos 0);
  cpu_shares = f.uint64_var (codes "cpu-shares") 0;
  cpu_set_cpus = f.string_var (codes "cpuset-cpus") [];
  cpu_set_mems = f.string_var (codes "cpuset-mems") [];
  iid_file = f.string_var (codes "iidfile") [];
  memory = f.int64_var (codes "memory") (pos 0);
  memory_swap = f.int64_var (codes "memory-swap") (pos 0);
  no_cache = f.bool_var (codes "no-cache") false;
  pull = f.bool_var (codes "pull") false;
  quiet = f.bool_var (codes "quiet") false;
  shm_size = f.string_var (codes "shm-size") [];
  target = f.string_var (codes "target") [];
  ulimit = f.string_slice_var (codes "ulimit") [];
  platforms = [];
  context_directory = [];
  args = none;
  cgroup_parent = [];
  cache_from = [];
  cache_to = [];
  configure_network = none;
}

-- The flags of `buildCommand`, without --isolation. There is none for the cache's targets.
abbrev pub cli_of : Flags → CliOptions
cli_of f = record {
  output = f.string_var (codes "tag") [];
  dockerfiles = f.string_slice_var (codes "file") [];
  build_options = build_options_of f;
  platforms = f.string_slice_var (codes "platform") [];
  build_arg = f.string_slice_var (codes "build-arg") [];
  cache_from = f.string_slice_var (codes "cache-from") [];
  cache_to = [];
  network = f.string_var (codes "network") [];
}

-- The flag of `pruneCommand`.
abbrev pub prune_options_of : Flags → PruneImageOptions
prune_options_of f = record { all = f.bool_var (codes "all") false }
