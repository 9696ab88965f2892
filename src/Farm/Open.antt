-- ===== src/Farm/Open.antt =====
-- `newFarmWithBuilders`, `NewDefaultFarm`, `NewFarm` and `NewAdHocFarm` of buildfarm.go.
pub mod Wanted
mod Examples
use buildfarm.Base.{
  List, [], ◌∷◌, ◌++◌, Bool, true, false, ◌&&◌, Option, none, some, if◌then◌else◌, Bytes, codes,
  elem, eqb,
}
use buildfarm.Base.Map.{Map, insert}
use buildfarm.Base.Result.{Error, errorf, wrapf, Result, ok, err}
use buildfarm.Types.{ImageBuilder, Call}
use buildfarm.Farm.{Builders, error_or}

-- `LocalImageBuilderName` of local.go.
abbrev pub local_image_builder_name : Bytes
local_image_builder_name = codes "(local)"

-- The farm that is opened; its name and its flags are not used by what is modelled.
pub record OpenFarm (W : Type 0) : Type 0 where
  pub has_store : Bool
  pub builders : Builders W

-- What opening takes from elsewhere: the names of the service destinations, in the order in which
-- `range` has them, the two kinds of builders, and what go-multierror makes of a list of errors.
pub record Connections (W : Type 0) : Type 0 where
  pub read_custom_config : Call W (Result (List Bytes))
  pub new_remote : Bytes → Call W (Result (ImageBuilder W))
  pub new_local : Call W (Result (ImageBuilder W))
  pub join : List Error → Error

-- `wantBuilder`; every builder is wanted where the list is `allBuilders`.
unfoldable pub want_builder : Option (List Bytes) → Bytes → Bool
want_builder none name = true
want_builder (some names) name = elem name names

-- The map that the goroutines fill, and their errors.
pub record Opened (W : Type 0) : Type 0 where
  pub builders : Builders W
  pub errors : List Error

module _ {W : Type 0} where
  abbrev pub add_builder : Bytes → Result (ImageBuilder W) → Opened W → Opened W
  add_builder name (ok b) o = record o { builders = insert name b o.builders }
  add_builder name (err e) o = record o { errors = o.errors ++ e ∷ [] }

  abbrev pub open_if :
      Bool → Bytes → Call W (Result (ImageBuilder W)) → Opened W → Call W (Opened W)
  open_if false name new o w = (o, w)
  open_if true name new o w = let (r, w1) = new w in (add_builder name r o, w1)

module _ {W : Type 0} (c : Connections W) where
  -- The loop over the destinations.
  unfoldable pub connect : Option (List Bytes) → List Bytes → Opened W → Call W (Opened W)
  unfolding want_builder
  connect want [] o w = (o, w)
  connect want (dest ∷ dests) o w =
      let (o1, w1) = open_if (want_builder want dest) dest (c.new_remote dest) o w in
      connect want dests o1 w1

  abbrev pub some_builders : Bool → Builders W → Result (OpenFarm W)
  some_builders has_store [] = err (errorf "no builders configured" [])
  some_builders has_store (b ∷ bs) = ok (record { has_store = has_store; builders = b ∷ bs })

  abbrev pub nothing_opened : Opened W
  nothing_opened = record { builders = []; errors = [] }

  -- The local builder, which has the empty name; the flag is `storeOptions != nil`.
  abbrev pub connect_local : Option (List Bytes) → Bool → Opened W → Call W (Opened W)
  connect_local want has_store o w =
      open_if (has_store && want_builder want local_image_builder_name) [] c.new_local o w

  abbrev pub connect_all :
      Option (List Bytes) → Bool → Result (List Bytes) → Call W (Result (OpenFarm W))
  connect_all want has_store (err e) w = (err (wrapf "reading custom config: %w" [] e), w)
  connect_all want has_store (ok dests) w =
      let (o, w1) = connect want dests nothing_opened w in
      let (o2, w2) = connect_local want has_store o w1 in
      (error_or c.join o2.errors (some_builders has_store o2.builders), w2)

  -- `newFarmWithBuilders`
  unfoldable pub new_farm_with_builders : Option (List Bytes) → Bool → Call W (Result (OpenFarm W))
  unfolding connect
  new_farm_with_builders want has_store w =
      let (r, w1) = c.read_custom_config w in connect_all want has_store r w1

  -- `NewDefaultFarm`
  unfoldable pub new_default_farm : Bool → Call W (Result (OpenFarm W))
  unfolding new_farm_with_builders
  new_default_farm has_store w = new_farm_with_builders none has_store w

  -- `NewFarm`
  unfoldable pub new_farm : Bytes → Bool → Call W (Result (OpenFarm W))
  unfolding new_default_farm
  new_farm name has_store w =
      if eqb name [] then new_default_farm has_store w else (err (errorf "not implemented" []), w)

  -- `NewAdHocFarm`
  unfoldable pub new_ad_hoc_farm : List Bytes → Bool → Call W (Result (OpenFarm W))
  unfolding new_farm_with_builders
  new_ad_hoc_farm destinations has_store w = new_farm_with_builders (some destinations) has_store w

  -- `CreateFarm`
  abbrev pub create_farm : Bytes → Call W (Result (OpenFarm W))
  create_farm name w = (err (errorf "not implemented" []), w)

  -- `UpdateFarm`
  abbrev pub update_farm : List Bytes → List Bytes → Call W (Result (OpenFarm W))
  update_farm add remove w = (err (errorf "not implemented" []), w)
