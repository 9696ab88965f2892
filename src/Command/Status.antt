-- ===== src/Command/Status.antt =====
-- `statusCmd` of cmd/buildfarm/status.go.
pub mod Ready
use buildfarm.Base.{List, [], ◌∷◌, ◌++◌, Option, none, some, if◌then◌else◌, Bytes, codes, eqb}
use buildfarm.Base.Map.{Map, lookup, keys}
use buildfarm.Base.Sort.{sort_strings}
use buildfarm.Base.Result.{Error, wrapf}
use buildfarm.Types.{Call}
use buildfarm.Farm.Members.{farm_status}
use buildfarm.Farm.Open.{OpenFarm}
use buildfarm.Command.{Settings, Globals, Outside, Ran, on_farm, named_farm}

abbrev pub node_name : Bytes → Bytes
node_name name = if eqb name [] then codes "local node" else name

abbrev pub ready_line : Bytes → Bytes
ready_line name = node_name name ++ codes ": ready" ++ 10 ∷ []

-- `status[nodeName]`; a key that is not there has a nil error.
abbrev pub status_at : Option (Option Error) → Option Error
status_at none = none
status_at (some e) = e

module _ (show_error : Error → Bytes) where
  abbrev pub status_line : Bytes → Option Error → Bytes
  status_line name none = ready_line name
  status_line name (some e) = node_name name ++ codes ": " ++ show_error e ++ 10 ∷ []

  -- The loop over the sorted names.
  unfoldable pub status_lines : Map (Option Error) → List Bytes → Bytes
  status_lines m [] = []
  status_lines m (n ∷ ns) = status_line n (status_at (lookup n m)) ++ status_lines m ns

  abbrev pub print_status : Map (Option Error) → Option Error → Bytes × Option Error
  print_status m (some e) = ([], some (wrapf "status: %w" [] e))
  print_status m none = (status_lines m (sort_strings (keys m)), none)

module _ {W : Type 0} (outside : Outside W) where
  abbrev pub run_status : OpenFarm W → Call W (Bytes × Option Error)
  run_status f w =
      let ((m, e), w1) = farm_status outside.connections.join f.builders w in
      (print_status outside.show_error m e, w1)

  -- `statusCmd`
  unfoldable pub status_cmd : List Bytes → Settings → Globals W → Call W (Ran W)
  unfolding status_lines
  status_cmd args s g w = on_farm outside (named_farm args s) g run_status w
