-- ===== src/Command/Platforms.antt =====
-- `platformsCmd` of cmd/buildfarm/platforms.go.
use buildfarm.Base.{List, [], ◌∷◌, ◌++◌, Option, none, some, Bytes, codes}
use buildfarm.Base.Result.{Error, wrapf, Result, ok, err}
use buildfarm.Base.Sort.{sort_strings}
use buildfarm.Types.{Call}
use buildfarm.Farm.{Builders, native_platforms, emulated_platforms}
use buildfarm.Farm.Open.{OpenFarm}
use buildfarm.Command.{Settings, Globals, Outside, Ran, on_farm, named_farm}

-- The loop, from its second round on.
unfoldable pub comma_list : List Bytes → Bytes
comma_list [] = []
comma_list (p ∷ ps) = codes ", " ++ p ++ comma_list ps

abbrev pub first_and_rest : List Bytes → Bytes
first_and_rest [] = []
first_and_rest (p ∷ ps) = p ++ comma_list ps

-- One of the two lines.
unfoldable pub platforms_line : Bytes → List Bytes → Bytes
unfolding comma_list
platforms_line title [] = title ++ codes "(none)" ++ 10 ∷ []
platforms_line title (p ∷ ps) = title ++ first_and_rest (sort_strings (p ∷ ps)) ++ 10 ∷ []

abbrev pub print_platforms : List Bytes → List Bytes → Bytes
print_platforms native emulated =
    platforms_line (codes "Native: ") native ++ platforms_line (codes "Emulated: ") emulated

module _ {W : Type 0} (outside : Outside W) where
  abbrev pub after_emulated : List Bytes → Result (List Bytes) → Bytes × Option Error
  after_emulated native (err e) = ([], some (wrapf "getting emulated platforms: %w" [] e))
  after_emulated native (ok emulated) = (print_platforms native emulated, none)

  abbrev pub after_native : Builders W → Result (List Bytes) → Call W (Bytes × Option Error)
  after_native bs (err e) w = (([], some (wrapf "getting native platforms: %w" [] e)), w)
  after_native bs (ok native) w =
      let (r, w1) = emulated_platforms outside.connections.join bs w in
      (after_emulated native r, w1)

  abbrev pub run_platforms : OpenFarm W → Call W (Bytes × Option Error)
  run_platforms f w =
      let (r, w1) = native_platforms outside.connections.join f.builders w in
      after_native f.builders r w1

  -- `platformsCmd`
  unfoldable pub platforms_cmd : List Bytes → Settings → Globals W → Call W (Ran W)
  unfolding platforms_line
  platforms_cmd args s g w = on_farm outside (named_farm args s) g run_platforms w
