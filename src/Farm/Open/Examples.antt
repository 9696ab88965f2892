-- ===== src/Farm/Open/Examples.antt =====
-- The theorems on opening a farm, with two destinations.
use buildfarm.Base.{ℕ, List, [], ◌∷◌, true, false, Option, some, Bytes, codes, elem, eqb, ◌≡◌, refl}
use buildfarm.Base.Map.{keys, insert}
use buildfarm.Base.Result.{Result, ok, err}
use buildfarm.Farm.Examples.{node, join, image}
use buildfarm.Farm.Open.{OpenFarm, Connections, want_builder, new_farm_with_builders}
use buildfarm.Farm.Open.Wanted.{expects, open-keys}

abbrev two_names : List Bytes
two_names = codes "a" ∷ codes "b" ∷ []

abbrev connections : Connections ℕ
connections = record {
  read_custom_config = λ w. (ok two_names, w);
  new_remote = λ d w. (ok (node "remote" [] [] (image "1")), w);
  new_local = λ w. (ok (node "(local)" [] [] (image "2")), w);
  join = join;
}

-- The farm that a call opens.
abbrev farm_of : Result (OpenFarm ℕ) → OpenFarm ℕ
farm_of (ok f) = f
farm_of (err e) = record { has_store = false; builders = [] }

abbrev only_a : Option (List Bytes)
only_a = some (codes "a" ∷ [] ∷ [])

open-keys_example :
    (dests : List Bytes) × ((connections.read_custom_config 0).0 ≡ ok dests)
    × ((k : Bytes)
        → elem k (keys (farm_of (new_farm_with_builders connections only_a true 0).0).builders)
          ≡ expects connections only_a true dests k)
open-keys_example =
    open-keys connections true 0 (farm_of (new_farm_with_builders connections only_a true 0).0)
      only_a (unfold new_farm_with_builders want_builder elem eqb insert in refl)
