-- ===== src/Command/Opening.antt =====
-- How the commands of cmd/buildfarm open their farm.
use buildfarm.Base.{Option, some, Bytes, ◌≡◌, refl}
use buildfarm.Base.Result.{Error, ok}
use buildfarm.Types.{Call}
use buildfarm.Farm.Open.{OpenFarm}
use buildfarm.Command.{Settings, Globals, Outside, get_farm, on_farm}

module _ {W : Type 0} (outside : Outside W) where
  -- A command runs on the farm that it opens.
  pub on_farm-opened :
      (s : Settings) (g : Globals W) (run : OpenFarm W → Call W (Bytes × Option Error))
      (f : OpenFarm W) (w v : W)
      → get_farm outside s g w ≡ (ok f, v)
      → on_farm outside s g run w ≡ (
          let ((printed, e), v1) = run f v in
          (record { printed = printed; globals = record g { farm = some f }; error = e }, v1))
  on_farm-opened s g run f w v h = rw h refl
