-- ===== src/Builder/Local/Opening.antt =====
-- `NewPodmanLocalImageBuilder` of local.go: how the engine is configured.
use buildfarm.Base.{List, [], Option, none, some, Bytes}
use buildfarm.Base.Result.{Error, wrapf, Result, ok, err}
use buildfarm.Types.{Call}
use buildfarm.Builder.Engine.{Engine}

-- `storage.StoreOptions`, with the fields that are read.
pub record StoreOptions : Type 0 where
  pub graph_root : Bytes
  pub run_root : Bytes
  pub graph_driver_name : Bytes
  pub graph_driver_options : List Bytes

-- `entities.PodmanConfig`, with the fields that are set to values of the caller.
pub record PodmanConfig : Type 0 where
  pub runroot : Bytes
  pub storage_driver : Bytes
  pub storage_opts : List Bytes

-- What the constructor takes from elsewhere.
pub record LocalEngines (W : Type 0) : Type 0 where
  pub read_custom_config : Call W (Option Error)
  pub new_image_engine : PodmanConfig → Call W (Result (Engine W))

-- `podmanLocal`, as it is constructed.
pub record PodmanLocal (W : Type 0) : Type 0 where
  pub store_options : StoreOptions
  pub engine : Engine W

abbrev pub store_options_of : Option StoreOptions → StoreOptions
store_options_of none = record {
  graph_root = [];
  run_root = [];
  graph_driver_name = [];
  graph_driver_options = [];
}
store_options_of (some s) = s

abbrev pub podman_config : StoreOptions → PodmanConfig
podman_config s = record {
  runroot = s.run_root;
  storage_driver = s.graph_driver_name;
  storage_opts = s.graph_driver_options;
}

module _ {W : Type 0} (engines : LocalEngines W) where
  abbrev pub local_on : StoreOptions → Result (Engine W) → Result (PodmanLocal W)
  local_on s (err e) = err (wrapf "initializing local image engine: %w" [] e)
  local_on s (ok engine) = ok (record { store_options = s; engine = engine })

  abbrev pub with_config : StoreOptions → Option Error → Call W (Result (PodmanLocal W))
  with_config s (some e) w = (err (wrapf "reading custom config: %w" [] e), w)
  with_config s none w =
      let (r, w1) = engines.new_image_engine (podman_config s) w in (local_on s r, w1)

  -- `NewPodmanLocalImageBuilder`; the graph root is kept, and not handed to the engine.
  unfoldable pub new_podman_local_image_builder :
      Option StoreOptions → Call W (Result (PodmanLocal W))
  new_podman_local_image_builder options w =
      let (e, w1) = engines.read_custom_config w in with_config (store_options_of options) e w1
