-- ===== src/Builder/Docker.antt =====
-- The builder of docker.go, on a docker engine: its client, and the options that it builds with.
pub mod Numbers
pub mod Parsing
pub mod Build
pub mod Platforms
pub mod Images
pub mod Refusals
pub mod Numerals
pub mod Limits
mod Examples
use buildfarm.Base.{ℕ, List, Bool, Option, Bytes}
use buildfarm.Base.Int.{ℤ}
use buildfarm.Base.Map.{Map}
use buildfarm.Base.Result.{Error, Result}
use buildfarm.Types.{Call}
use buildfarm.Builder.Remote.{Host}

-- `docker.ULimit`
pub record ULimit : Type 0 where
  pub name : Bytes
  pub soft : ℤ
  pub hard : ℤ

-- `docker.BuildImageOptions`, with the fields that the code sets to more than nothing; an archive is a
-- number.
pub record BuildImageOptions : Type 0 where
  pub name : Bytes
  pub input_stream : ℕ
  pub platform : Bytes
  pub context_dir : Bytes
  pub dockerfile : Bytes
  pub rm_tmp_container : Bool
  pub force_rm_tmp_container : Bool
  pub labels : Map Bytes
  pub memory : ℤ
  pub memswap : ℤ
  pub shm_size : ℤ
  pub cpu_shares : ℤ
  pub cpu_quota : ℤ
  pub cpu_period : ℤ
  pub cpu_set_cpus : Bytes
  pub cgroup_parent : Bytes
  pub no_cache : Bool
  pub suppress_output : Bool
  pub pull : Bool
  pub build_args : List (Bytes × Bytes)
  pub ulimits : List ULimit

-- What docker.go takes from elsewhere: the client, archives, files, and `units.RAMInBytes`.
-- `prune_images` has the field `Deleted` of each image that was pruned.
pub record Docker (W : Type 0) : Type 0 where
  pub name : Bytes
  pub info : Call W (Result Host)
  pub ping : Call W (Option Error)
  pub build_image : BuildImageOptions → Call W (Option Error)
  pub export_image : Bytes → Bytes → Call W (Option Error)
  pub remove_image : Bytes → Call W (Option Error)
  pub prune_images : Map (List Bytes) → Call W (Result (List Bytes))
  pub tar : Bytes → Call W (Result ℕ)
  pub close : ℕ → W → W
  pub create : Bytes → Call W (Option Error)
  pub ram_in_bytes : Bytes → Result ℤ
