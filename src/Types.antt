-- ===== src/Types.antt =====
-- types.go: the records that the parts of the program exchange, and the two interfaces.
use buildfarm.Base.{ℕ, List, Bool, Option, Bytes}
use buildfarm.Base.Int.{ℤ}
use buildfarm.Base.Map.{Map}
use buildfarm.Base.Result.{Error, Result}

pub record Info : Type 0 where
  pub native_platforms : List Bytes
  pub emulated_platforms : List Bytes

-- `struct{ OS, Arch, Variant string }`
pub record Platform : Type 0 where
  pub os : Bytes
  pub arch : Bytes
  pub variant : Bytes

-- An `io.Writer` is a number; a nil one is `none`.
pub record BuildOptions : Type 0 where
  pub output_format : Bytes
  pub out : Option ℕ
  pub err : Option ℕ
  pub force_remove_intermediate_containers : Bool
  pub remove_intermediate_containers : Bool
  pub remove_intermediate_images : Bool
  pub prune_images_on_success : Bool
  pub platforms : List Platform
  pub pull : Bool
  pub iid_file : Bytes
  pub context_directory : Bytes
  pub labels : List Bytes
  pub args : Option (Map Bytes)
  pub shm_size : Bytes
  pub ulimit : List Bytes
  pub memory : ℤ
  pub memory_swap : ℤ
  pub cpu_shares : ℕ
  pub cpu_quota : ℤ
  pub cpu_period : ℕ
  pub cpu_set_cpus : Bytes
  pub cpu_set_mems : Bytes
  pub cgroup_parent : Bytes
  pub no_cache : Bool
  pub quiet : Bool
  pub cache_from : List Bytes
  pub cache_to : List Bytes
  pub add_host : List Bytes
  pub target : Bytes
  pub configure_network : Option Bool

pub record BuildReport : Type 0 where
  pub image_id : Bytes
  pub save_format : Bytes

pub record PullToFileOptions : Type 0 where
  pub image_id : Bytes
  pub save_format : Bytes
  pub save_file : Bytes

-- The destination engine is a number; a nil one is `none`.
pub record PullToLocalOptions : Type 0 where
  pub image_id : Bytes
  pub save_format : Bytes
  pub destination : Option ℕ

pub record RemoveImageOptions : Type 0 where
  pub image_id : Bytes

pub record PruneImageOptions : Type 0 where
  pub all : Bool

pub record PruneImageReport : Type 0 where
  pub image_ids : List Bytes
  pub image_names : List Bytes

pub record ListBuilderOptions : Type 0 where
  pub force_remove_intermediate_containers : Bool
  pub remove_intermediate_containers : Bool
  pub remove_intermediate_images : Bool
  pub prune_images_on_success : Bool
  pub iid_file : Bytes

-- A call on the world of engines and files `W`: what it returns, and the world behind it.
abbrev pub Call : Type 0 → Type 0 → Type 0
Call W A = W → A × W

-- `ImageBuilder`. A `(T, error)` is a `Result`, a lone `error` an `Option`.
pub record ImageBuilder (W : Type 0) : Type 0 where
  pub driver : Bytes
  pub name : Bytes
  pub status : Call W (Option Error)
  pub info : Call W (Result Info)
  pub native_platforms : Call W (Result (List Bytes))
  pub emulated_platforms : Call W (Result (List Bytes))
  pub build : Bytes → List Bytes → BuildOptions → Call W (Result BuildReport)
  pub pull_to_file : PullToFileOptions → Call W (Result Bytes)
  pub pull_to_local : PullToLocalOptions → Call W (Result Bytes)
  pub remove_image : RemoveImageOptions → Call W (Option Error)
  pub prune_images : PruneImageOptions → Call W (Result PruneImageReport)
  pub done : Call W (Option Error)

-- `ListBuilder`, on the images in the order in which `range` visits them.
pub record ListBuilder (W : Type 0) : Type 0 where
  pub build : List (BuildReport × ImageBuilder W) → Call W (Result Bytes)
