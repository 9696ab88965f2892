-- ===== src/Command/Nodes.antt =====
-- `before` and `getFarm` of cmd/buildfarm: the flag --local.
use buildfarm.Base.{
  List, [], ◌∷◌, true, false, Option, none, some, Bytes, elem, eqb, ◌≡◌, sym, ◌∙◌, inl, inr,
  Bool-cases, arith,
}
use buildfarm.Base.Map.{keys}
use buildfarm.Base.Result.{Error, errorf, wrapf, Result, ok, err, map_err}
use buildfarm.Farm.Open.{
  OpenFarm, Connections, new_farm_with_builders, new_farm, new_ad_hoc_farm, new_default_farm,
}
use buildfarm.Farm.Open.Wanted.{expects, open-keys}
use buildfarm.Command.{Settings, Globals, Outside, before, choose_farm, get_farm}

map_err-ok :
    {A : Type 0} (wrap : Error → Error) (r : Result A) (a : A) → map_err wrap r ≡ ok a → r ≡ ok a
map_err-ok wrap (err e) a h = cc
map_err-ok wrap (ok b) a h = h

expects-destination :
    {W : Type 0} (c : Connections W) (want : Option (List Bytes)) (dests : List Bytes) (k : Bytes)
    → expects c want false dests k ≡ true
    → elem k dests ≡ true
expects-destination c want dests k h = ground arith

module _ {W : Type 0} (outside : Outside W) where
  -- Every builder of the farm is a destination of the configuration.
  abbrev pub OnlyDestinations : OpenFarm W → W → Type 0
  OnlyDestinations f v =
      (dests : List Bytes) × ((outside.connections.read_custom_config v).0 ≡ ok dests)
      × ((k : Bytes) → elem k (keys f.builders) ≡ true → elem k dests ≡ true)

  opened-OnlyDestinations :
      (want : Option (List Bytes)) (f : OpenFarm W) (v : W)
      → (new_farm_with_builders outside.connections want false v).0 ≡ ok f
      → OnlyDestinations f v
  opened-OnlyDestinations want f v h =
      let (dests, config, keep) = open-keys outside.connections false v f want h in
      (
        dests,
        config,
        λ k i. expects-destination outside.connections want dests k (sym (keep k) ∙ i),
      )

  named-OnlyDestinations :
      (name : Bytes) (f : OpenFarm W) (v : W)
      → (new_farm outside.connections name false v).0 ≡ ok f
      → OnlyDestinations f v
  unfolding new_farm new_default_farm
  named-OnlyDestinations name f v h = elim (Bool-cases (eqb name [])) [
    | inl e ↦ opened-OnlyDestinations none f v (rw e at h)
    | inr e ↦ absurd (mismatch (rw e at h))
  ]
    where
      mismatch : ◌≡◌ {A = Result (OpenFarm W)} (err (errorf "not implemented" [])) (ok f) → ⊥
      mismatch e = cc

  chosen-OnlyDestinations :
      (nodes : List Bytes) (name : Bytes) (f : OpenFarm W) (v : W)
      → (choose_farm outside nodes name false v).0 ≡ ok f
      → OnlyDestinations f v
  unfolding new_ad_hoc_farm
  chosen-OnlyDestinations [] name f v h = named-OnlyDestinations name f v h
  chosen-OnlyDestinations (n ∷ ns) name f v h = opened-OnlyDestinations (some (n ∷ ns)) f v h

  -- Without the flag --local, what `before` has done makes the commands open farms whose builders are
  -- all destinations of the configuration, also where "(local)" is among the nodes that are named.
  pub get_farm-OnlyDestinations :
      (s : Settings) (g : Globals W) (w v : W) (f : OpenFarm W)
      → s.local ≡ false
      → (get_farm outside s (before outside s g w).0.1 v).0 ≡ ok f
      → OnlyDestinations f v
  unfolding get_farm before
  get_farm-OnlyDestinations s g w v f e h =
      chosen-OnlyDestinations s.ad_hoc_farm_nodes s.farm_name f v (
        rw e at (
          map_err-ok (wrapf "initializing: %w" [])
            (choose_farm outside s.ad_hoc_farm_nodes s.farm_name
              (before outside s g w).0.1.has_storage_options v).0
            f h))
