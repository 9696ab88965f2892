-- ===== src/Command/Build/Delivery.antt =====
-- What it takes for `buildCmd` to succeed: its options, the farm, the schedule and the builds together.
use buildfarm.Base.{true, Bytes, elem, ◌≡◌}
use buildfarm.Base.Map.{keys, lookup}
use buildfarm.Base.Result.{Result, ok}
use buildfarm.Base.Sort.{IsNodup}
use buildfarm.Farm.{Assignment, schedule}
use buildfarm.Farm.Build.Success.{Complete}
use buildfarm.Farm.Open.{OpenFarm}
use buildfarm.Command.{Settings, Globals, Outside, get_farm}
use buildfarm.Command.Build.{CliOptions, Tools, prepare}

-- Going over a map in another order changes neither its keys nor its values.
pub record Reorders {W : Type 0} (tools : Tools W) : Type 0 where
  pub nodup : (s : Assignment) → IsNodup (keys s) → IsNodup (keys (tools.range_schedule s))
  pub values : (s : Assignment) (p : Bytes) → lookup p (tools.range_schedule s) ≡ lookup p s

module _ {W : Type 0} (tools : Tools W) (outside : Outside W) where
  -- A command that has delivered its list: the options were prepared, the farm was opened, there was a
  -- schedule with every platform that was asked for, and the build of that schedule is complete.
  pub record Delivered (dir : Bytes) (o : CliOptions) (s : Settings) (g : Globals W) (w : W)
      : Type 0 where
    pub options : CliOptions
    pub ready : W
    pub prepares : prepare tools dir o w ≡ (ok options, ready)
    pub farm : OpenFarm W
    pub reached : W
    pub opens : get_farm outside s g ready ≡ (ok farm, reached)
    pub plan : Assignment
    pub planned : W
    pub schedules :
        schedule outside.connections.join farm.builders
          (tools.range_builders farm.builders)
          options.platforms
          reached
        ≡ (ok plan, planned)
    pub every :
        (p : Bytes)
        → elem p options.platforms ≡ true
        → elem p (keys (tools.range_schedule plan)) ≡ true
    pub complete :
        Complete tools.uses farm.builders options.output farm.has_store plan
          (tools.range_schedule plan)
          options.dockerfiles
          options.build_options
          planned

  module _ (r : Reorders tools) (dir : Bytes) (o : CliOptions) (s : Settings) (g : Globals W)
      (w : W) where
    module _ (p : CliOptions) (ready : W) (f : OpenFarm W) (reached : W) where
      -- The schedule of the farm.
      Plans : Assignment → W → Type 0
      Plans plan v =
          schedule outside.connections.join f.builders (tools.range_builders f.builders) p.platforms
            reached
          ≡ (ok plan, v)
