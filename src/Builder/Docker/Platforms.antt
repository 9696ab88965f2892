-- ===== src/Builder/Docker/Platforms.antt =====
-- `NewDockerImageBuilder` of docker.go, and the operations that ask for the platforms.
use buildfarm.Base.{Option, none, some, if◌then◌else◌, not, ◌||◌, eqb, List, [], Bytes, codes}
use buildfarm.Base.Result.{Error, wrapf, ok, err, Result}
use buildfarm.Types.{Info, Call}
use buildfarm.Builder.Local.{Fetched, Cached, or_platforms_error}
use buildfarm.Builder.Remote.{host_platform}
use buildfarm.Builder.Docker.{Docker}

-- What the constructor takes from elsewhere; a client has no name yet.
pub record Clients (W : Type 0) : Type 0 where
  pub read_custom_config : Call W (Option Error)
  pub new_client : Bytes → Call W (Result (Docker W))
  pub new_tls_client : Bytes → Bytes → Bytes → Bytes → Call W (Result (Docker W))

module _ {W : Type 0} (s : Clients W) where
  abbrev pub with_name : Bytes → Result (Docker W) → Result (Docker W)
  with_name name (err e) = err e
  with_name name (ok d) = ok (record d { name = name })

  abbrev pub connect_client : Bytes → Bytes → Bytes → Bytes → Call W (Result (Docker W))
  connect_client endpoint cert key ca w =
      if not (eqb cert []) || not (eqb key []) || not (eqb ca [])
      then s.new_tls_client endpoint cert key ca w
      else s.new_client endpoint w

  abbrev pub configured : Bytes → Option Error → Call W (Result (Docker W))
  configured name (some e) w = (err (wrapf "reading custom config: %w" [] e), w)
  configured name none w = let (r, w1) = connect_client [] [] [] [] w in (with_name name r, w1)

  -- `NewDockerImageBuilder`
  unfoldable pub new_docker_image_builder : Bytes → Call W (Result (Docker W))
  new_docker_image_builder name w = let (e, w1) = s.read_custom_config w in configured name e w1

module _ {W : Type 0} (d : Docker W) where
  -- `Status`
  unfoldable pub docker_status : Call W (Option Error)
  docker_status w = d.ping w

  -- `fetchInfo`
  unfoldable pub docker_fetch_info : Call W Fetched
  docker_fetch_info w = let (h, w1) = d.info w in (host_platform d.name h, w1)

  -- `r.platforms.Do(...)`
  unfoldable pub docker_fetch_once : Cached W Fetched
  unfolding docker_fetch_info
  docker_fetch_once (some f) w = (f, some f, w)
  docker_fetch_once none w = let (f, w1) = docker_fetch_info w in (f, some f, w1)

  -- `Info`
  unfoldable pub docker_info : Cached W (Result Info)
  unfolding docker_fetch_once
  docker_info c w =
      let (f, c1, w1) = docker_fetch_once c w in
      (
        or_platforms_error f
            (record { native_platforms = f.native_platforms; emulated_platforms = [] }),
        c1,
        w1,
      )

  -- `NativePlatforms`
  unfoldable pub docker_native_platforms : Cached W (Result (List Bytes))
  unfolding docker_fetch_once
  docker_native_platforms c w =
      let (f, c1, w1) = docker_fetch_once c w in (or_platforms_error f f.native_platforms, c1, w1)

  -- `EmulatedPlatforms`
  unfoldable pub docker_emulated_platforms : Cached W (Result (List Bytes))
  unfolding docker_fetch_once
  docker_emulated_platforms c w =
      let (f, c1, w1) = docker_fetch_once c w in (or_platforms_error f [], c1, w1)

  -- `Driver`
  abbrev pub docker_driver : Bytes
  docker_driver = codes "docker"

  -- `Done`
  abbrev pub docker_done : Call W (Option Error)
  docker_done w = (none, w)
