-- ===== src/Builder/Podman.antt =====
-- podman.go and copy.go: the options that podman's engine builds with.
use buildfarm.Base.{ℕ, List, [], ◌∷◌, Bool, true, Option, none, some, if◌then◌else◌, Bytes}
use buildfarm.Base.Int.{ℤ}
use buildfarm.Base.Map.{Map, insert}
use buildfarm.Types.{Platform, BuildOptions}

-- The values of `define.PullPolicy` and `define.NetworkConfigurationPolicy` that are used.
pub data PullPolicy : Type 0 where
  pull_if_missing pull_always : PullPolicy

pub data NetworkPolicy : Type 0 where
  network_default network_enabled network_disabled : NetworkPolicy

pub record CommonBuildOptions : Type 0 where
  pub shm_size : Bytes
  pub ulimit : List Bytes
  pub memory : ℤ
  pub memory_swap : ℤ
  pub cpu_shares : ℕ
  pub cpu_quota : ℤ
  pub cpu_period : ℕ
  pub cpu_set_cpus : Bytes
  pub cpu_set_mems : Bytes
  pub cgroup_parent : Bytes
  pub add_host : List Bytes

-- `entities.BuildOptions`, with the fields that the code sets.
pub record EngineOptions : Type 0 where
  pub layers : Bool
  pub common : CommonBuildOptions
  pub output_format : Bytes
  pub out : Option ℕ
  pub err : Option ℕ
  pub force_rm_intermediate_ctrs : Bool
  pub remove_intermediate_ctrs : Bool
  pub platforms : List Platform
  pub pull_policy : PullPolicy
  pub iid_file : Bytes
  pub context_directory : Bytes
  pub labels : List Bytes
  pub args : Option (Map Bytes)
  pub no_cache : Bool
  pub quiet : Bool
  pub cache_from : List Bytes
  pub cache_to : List Bytes
  pub target : Bytes
  pub configure_network : NetworkPolicy

-- The loop of `copyStringStringMap`.
unfoldable pub copy_into : Map Bytes → Map Bytes → Map Bytes
copy_into [] m = m
copy_into ((k, v) ∷ l) m = copy_into l (insert k v m)

-- `copyStringStringMap`
unfoldable pub copy_string_string_map : Option (Map Bytes) → Option (Map Bytes)
unfolding copy_into
copy_string_string_map none = none
copy_string_string_map (some m) = some (copy_into m [])

abbrev pub network_policy : Option Bool → NetworkPolicy
network_policy none = network_default
network_policy (some b) = if b then network_enabled else network_disabled

-- `podmanBuildOptionsFromBuildOptions`; the copies of slices are the slices.
unfoldable pub podman_build_options : BuildOptions → Bytes → Bytes → Bytes → EngineOptions
unfolding copy_string_string_map
podman_build_options o os arch variant = record {
  layers = true;
  common = record {
    shm_size = o.shm_size;
    ulimit = o.ulimit;
    memory = o.memory;
    memory_swap = o.memory_swap;
    cpu_shares = o.cpu_shares;
    cpu_quota = o.cpu_quota;
    cpu_period = o.cpu_period;
    cpu_set_cpus = o.cpu_set_cpus;
    cpu_set_mems = o.cpu_set_mems;
    cgroup_parent = o.cgroup_parent;
    add_host = o.add_host;
  };
  output_format = o.output_format;
  out = o.out;
  err = o.err;
  force_rm_intermediate_ctrs = o.force_remove_intermediate_containers;
  remove_intermediate_ctrs = o.remove_intermediate_containers;
  platforms = record { os = os; arch = arch; variant = variant } ∷ [];
  pull_policy = if o.pull then pull_always else pull_if_missing;
  iid_file = o.iid_file;
  context_directory = o.context_directory;
  labels = o.labels;
  args = copy_string_string_map o.args;
  no_cache = o.no_cache;
  quiet = o.quiet;
  cache_from = o.cache_from;
  cache_to = o.cache_to;
  target = o.target;
  configure_network = network_policy o.configure_network;
}
