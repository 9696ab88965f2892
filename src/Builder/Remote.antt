-- ===== src/Builder/Remote.antt =====
-- The builder of remote.go, on a podman service behind a connection.
pub mod Session
pub mod Opening
use buildfarm.Base.{
  ℕ, List, [], ◌∷◌, ◌++◌, Bool, false, Option, none, some, if◌then◌else◌, ◌==◌, Bytes, codes, eqb,
}
use buildfarm.Base.Map.{Map, lookup}
use buildfarm.Base.Result.{Error, errorf, wrapf, Result, ok, err}
use buildfarm.Types.{
  Info, Platform, BuildOptions, BuildReport, PullToFileOptions, PullToLocalOptions,
  RemoveImageOptions, PruneImageOptions, PruneImageReport, ImageBuilder, Call,
}
use buildfarm.Farm.Build.{docker_v2_image_manifest}
use buildfarm.Builder.Podman.{podman_build_options}
use buildfarm.Builder.Engine.{Engine, Machine}
use buildfarm.Builder.Local.{
  Fetched, Cached, no_platform, failed_fetch, or_platforms_error, saving, storage_reference,
  prune_report,
}
use buildfarm.Builder.Local.Builder.{LocalWorld, cached, uncached}

-- `config.Destination`
pub record Destination : Type 0 where
  pub uri : Bytes
  pub identity : Bytes
  pub is_machine : Bool

-- The host of an engine, as far as it is read.
pub record Host : Type 0 where
  pub os : Bytes
  pub arch : Bytes

-- What remote.go takes from podman's bindings; a context with a connection is a number.
pub record Bindings (W : Type 0) : Type 0 where
  pub read_custom_config : Call W (Result (Map Destination))
  pub new_connection : Bytes → Call W (Result ℕ)
  pub new_connection_with_identity : Bytes → Bytes → Bool → Call W (Result ℕ)
  pub new_image_engine : Bytes → Bytes → Call W (Result (Engine W))
  pub info : ℕ → Call W (Result Host)
  pub shutdown : ℕ → W → W

-- `podmanRemote`, as it is constructed; what `sync.Once` guards is the cache of its calls.
pub record Remote (W : Type 0) : Type 0 where
  pub name : Bytes
  pub uri : Bytes
  pub identity : Bytes
  pub is_machine : Bool
  pub context : ℕ
  pub engine : Engine W

-- What a look-up yields where there is no such key.
abbrev pub zero_destination : Destination
zero_destination = record { uri = []; identity = []; is_machine = false }

abbrev pub destination_or_zero : Option Destination → Destination
destination_or_zero none = zero_destination
destination_or_zero (some d) = d

module _ {W : Type 0} (b : Bindings W) where
  abbrev pub connected : Bytes → Destination → Result ℕ → Result ℕ
  connected name d (ok context) = ok context
  connected name d (err e) =
      if eqb d.identity []
      then err (wrapf "connecting to %q at %q: %w" (name ∷ d.uri ∷ []) e)
      else err (wrapf "connecting to %q at %q as %q: %w" (name ∷ d.uri ∷ d.identity ∷ []) e)

  -- The branch on the identity.
  abbrev pub connect_to : Bytes → Destination → Call W (Result ℕ)
  connect_to name d w =
      let (r, w1) =
        if eqb d.identity []
        then b.new_connection d.uri w
        else b.new_connection_with_identity d.uri d.identity d.is_machine w in
      (connected name d r, w1)

  abbrev pub remote_on : Bytes → Destination → ℕ → Result (Engine W) → Result (Remote W)
  remote_on name d context (err e) =
      err (wrapf "initializing image engine at %q: %w" (d.uri ∷ []) e)
  remote_on name d context (ok engine) = ok (record {
    name = name;
    uri = d.uri;
    identity = d.identity;
    is_machine = d.is_machine;
    context = context;
    engine = engine;
  })

  abbrev pub with_connection : Bytes → Destination → Result ℕ → Call W (Result (Remote W))
  with_connection name d (err e) w = (err e, w)
  with_connection name d (ok context) w =
      let (r, w1) = b.new_image_engine d.uri d.identity w in (remote_on name d context r, w1)

  abbrev pub with_destination : Bytes → Destination → Call W (Result (Remote W))
  with_destination name d w = let (r, w1) = connect_to name d w in with_connection name d r w1

  -- The error for a name that is not among the destinations is overwritten by the connection's.
  abbrev pub with_destinations : Bytes → Result (Map Destination) → Call W (Result (Remote W))
  with_destinations name (err e) w = (err (wrapf "reading custom config: %w" [] e), w)
  with_destinations name (ok dests) w =
      with_destination name (destination_or_zero (lookup name dests)) w

  -- `NewPodmanRemoteImageBuilder`
  unfoldable pub new_podman_remote_image_builder : Bytes → Call W (Result (Remote W))
  new_podman_remote_image_builder name w =
      let (r, w1) = b.read_custom_config w in with_destinations name r w1

abbrev pub host_platform : Bytes → Result Host → Fetched
host_platform name (err e) = failed_fetch (wrapf "retrieving host info from %q: %w" (name ∷ []) e)
host_platform name (ok h) = record {
  platform = record { os = h.os; arch = h.arch; variant = [] };
  native_platforms = (h.os ++ b'/' ∷ h.arch) ∷ [];
  emulated_platforms = [];
  error = none;
}

abbrev pub remote_report : Bytes → BuildOptions → Result Bytes → Result BuildReport
remote_report name options (err e) = err (wrapf "building for %v on %q: %w" (name ∷ []) e)
remote_report name options (ok id) = ok (record {
  image_id = id;
  save_format =
      if eqb options.output_format docker_v2_image_manifest
      then codes "docker-archive"
      else codes "oci-archive";
})

-- The fields `os`, `arch` and `variant`, which are empty until the platforms were asked for.
abbrev pub fetched_platform : Option Fetched → Platform
fetched_platform none = no_platform
fetched_platform (some f) = f.platform

module _ {W : Type 0} (b : Bindings W) (r : Remote W) where
  -- `fetchInfo`
  unfoldable pub remote_fetch_info : Call W Fetched
  remote_fetch_info w = let (h, w1) = b.info r.context w in (host_platform r.name h, w1)

  -- `r.platforms.Do(...)`
  unfoldable pub remote_fetch_once : Cached W Fetched
  unfolding remote_fetch_info
  remote_fetch_once (some f) w = (f, some f, w)
  remote_fetch_once none w = let (f, w1) = remote_fetch_info w in (f, some f, w1)

  -- `Info`
  unfoldable pub remote_info : Cached W (Result Info)
  unfolding remote_fetch_once
  remote_info c w =
      let (f, c1, w1) = remote_fetch_once c w in
      (
        or_platforms_error f
            (record { native_platforms = f.native_platforms; emulated_platforms = [] }),
        c1,
        w1,
      )

  -- `NativePlatforms`
  unfoldable pub remote_native_platforms : Cached W (Result (List Bytes))
  unfolding remote_fetch_once
  remote_native_platforms c w =
      let (f, c1, w1) = remote_fetch_once c w in (or_platforms_error f f.native_platforms, c1, w1)

  -- `EmulatedPlatforms`
  unfoldable pub remote_emulated_platforms : Cached W (Result (List Bytes))
  unfolding remote_fetch_once
  remote_emulated_platforms c w =
      let (f, c1, w1) = remote_fetch_once c w in (or_platforms_error f [], c1, w1)

  -- `Status`
  unfoldable pub remote_status : Cached W (Option Error)
  unfolding remote_fetch_once
  remote_status c w =
      let (f, c1, w1) = remote_fetch_once c w in let (e, w2) = r.engine.config w1 in (e, c1, w2)

module _ {W : Type 0} (r : Remote W) where
  -- `Build`
  unfoldable pub remote_build : List Bytes → BuildOptions → Cached W (Result BuildReport)
  unfolding podman_build_options
  remote_build files options c w =
      let p = fetched_platform c in
      let (id, w1) = r.engine.build files (podman_build_options options p.os p.arch p.variant) w in
      (remote_report r.name options id, c, w1)

  -- `PullToFile`
  unfoldable pub remote_pull_to_file : PullToFileOptions → Call W (Result Bytes)
  remote_pull_to_file o w =
      let (e, w1) = r.engine.save o.image_id o.save_format o.save_file w in
      (saving o.image_id e (ok (o.save_format ++ b':' ∷ o.save_file)), w1)

  -- `PruneImages`
  unfoldable pub remote_prune_images : PruneImageOptions → Call W (Result PruneImageReport)
  remote_prune_images o w =
      let filter = if o.all then codes "dangling=false" else codes "dangling=true" in
      let (p, w1) = r.engine.prune o.all (filter ∷ []) w in (prune_report p, w1)

abbrev pub load_error : Bytes → Option Error → Result Bytes
load_error id none = ok (storage_reference id)
load_error id (some e) = err (wrapf "loading image %q: %w" (id ∷ []) e)

module _ {W : Type 0} (m : Machine W) (r : Remote W) where
  abbrev pub load_remote : Option ℕ → Bytes → Bytes → Call W (Result Bytes)
  load_remote none id file w = (err (errorf "internal error: options.Destination not set" []), w)
  load_remote (some d) id file w =
      let (e, w1) = (m.engine_of d).load file w in (load_error id e, w1)

  abbrev pub load_if_saved : PullToLocalOptions → Bytes → Option Error → Call W (Result Bytes)
  load_if_saved o file (some e) w =
      (err (wrapf "saving image %q to temporary file: %w" (o.image_id ∷ []) e), w)
  load_if_saved o file none w = load_remote o.destination o.image_id file w

  -- The deferred removal of the file comes last.
  abbrev pub through_file : PullToLocalOptions → Result Bytes → Call W (Result Bytes)
  through_file o (err e) w = (err e, w)
  through_file o (ok file) w =
      let (e, w1) = r.engine.save o.image_id o.save_format file w in
      let (ref, w2) = load_if_saved o file e w1 in (ref, m.remove_file file w2)

  -- `PullToLocal`
  unfoldable pub remote_pull_to_local : PullToLocalOptions → Call W (Result Bytes)
  remote_pull_to_local o w = let (file, w1) = m.temp_file w in through_file o file w1

  -- What `RemoveImage` makes of the exit code and the errors.
  abbrev pub remote_removal_error : Bytes → ℕ → List Error → Option Error
  remote_removal_error id code [] =
      if code == 0
      then none
      else some
          (errorf "removing intermediate image %q from remote %q: status %d" (id ∷ r.name ∷ []))
  remote_removal_error id code (e ∷ []) =
      some (wrapf "removing intermediate image %q from local storage: %w" (id ∷ []) e)
  remote_removal_error id code (e ∷ f ∷ es) = some (
      wrapf "removing intermediate image %q from remote %q: %w" (id ∷ r.name ∷ [])
        (m.join (e ∷ f ∷ es)))

  -- `RemoveImage`
  unfoldable pub remote_remove_image : RemoveImageOptions → Call W (Option Error)
  remote_remove_image o w =
      let (report, w1) = r.engine.remove o.image_id w in
      (remote_removal_error o.image_id report.exit_code report.errors, w1)
