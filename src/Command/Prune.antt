-- ===== src/Command/Prune.antt =====
-- `pruneCmd` of cmd/buildfarm/prune.go.
pub mod Losses
use buildfarm.Base.{List, [], ◌∷◌, ◌++◌, Option, none, some, Bytes, codes}
use buildfarm.Base.Result.{Error, wrapf}
use buildfarm.Types.{PruneImageOptions, PruneImageReport, Call}
use buildfarm.Farm.Members.{Reports, prune_images}
use buildfarm.Farm.Open.{OpenFarm}
use buildfarm.Command.{Settings, Globals, Outside, Ran, on_farm, named_farm}

-- One of the two inner loops.
unfoldable pub image_lines : Bytes → List Bytes → Bytes
image_lines name [] = []
image_lines name (x ∷ xs) = (name ++ codes ": " ++ x ++ 10 ∷ []) ++ image_lines name xs

-- The loop over the reports.
unfoldable pub report_lines : Reports → Bytes
unfolding image_lines
report_lines [] = []
report_lines ((name, r) ∷ rest) =
    image_lines name r.image_names ++ (image_lines name r.image_ids ++ report_lines rest)

abbrev pub print_reports : Reports → Option Error → Bytes × Option Error
print_reports reports (some e) = ([], some (wrapf "prune: %w" [] e))
print_reports reports none = (report_lines reports, none)

module _ {W : Type 0} (outside : Outside W) where
  abbrev pub run_prune : PruneImageOptions → OpenFarm W → Call W (Bytes × Option Error)
  run_prune options f w =
      let ((reports, e), w1) = prune_images outside.connections.join f.builders options w in
      (print_reports reports e, w1)

  -- `pruneCmd`
  unfoldable pub prune_cmd : List Bytes → PruneImageOptions → Settings → Globals W → Call W (Ran W)
  unfolding report_lines
  prune_cmd args options s g w = on_farm outside (named_farm args s) g (run_prune options) w
