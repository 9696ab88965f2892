-- ===== src/Builder/Engine.antt =====
-- What the builders take from elsewhere: podman's engine and the files of the machine.
use buildfarm.Base.{ℕ, List, Bool, Option, Bytes}
use buildfarm.Base.Result.{Error, Result}
use buildfarm.Types.{Platform, Call}
use buildfarm.Builder.Podman.{EngineOptions}

-- `reports.RemoveReport` and the errors beside it.
pub record Removal : Type 0 where
  pub exit_code : ℕ
  pub errors : List Error

-- `reports.PruneReport`
pub record PruneEntry : Type 0 where
  pub id : Bytes
  pub err : Option Error

-- The operations of `entities.ImageEngine` that the code calls; a lone `error` is an `Option`.
pub record Engine (W : Type 0) : Type 0 where
  pub config : Call W (Option Error)
  pub build : List Bytes → EngineOptions → Call W (Result Bytes)
  pub save : Bytes → Bytes → Bytes → Call W (Option Error)
  pub exists : Bytes → Call W (Result Bool)
  pub load : Bytes → Call W (Option Error)
  pub remove : Bytes → Call W Removal
  pub prune : Bool → List Bytes → Call W (Result (List PruneEntry))

-- The machine: its engines, temporary files, the platform of the process, and the emulators.
pub record Machine (W : Type 0) : Type 0 where
  pub engine_of : ℕ → Engine W
  pub temp_file : Call W (Result Bytes)
  pub remove_file : Bytes → W → W
  pub default_platform : Bytes
  pub normalize : Platform → Platform
  pub registered : Call W (List Bytes)
  pub join : List Error → Error
