-- ===== src/Builder/Contract/Remote.antt =====
-- The builder of remote.go goes by the abstract machine of the platforms.
use buildfarm.Base.{[], none, some, ◌≡◌, refl, ap}
use buildfarm.Base.Result.{Result, ok, ◌>>=◌}
use buildfarm.Types.{Info}
use buildfarm.Builder.Engine.{Machine}
use buildfarm.Builder.Local.{Fetched, or_platforms_error}
use buildfarm.Builder.Remote.{
  Bindings, Remote, remote_info, remote_native_platforms, remote_emulated_platforms, remote_status,
  remote_build, remote_fetch_once, remote_fetch_info,
}
use buildfarm.Builder.Remote.Session.{remote_builder}
use buildfarm.Builder.Local.Builder.{LocalWorld}
use buildfarm.Builder.Local.Cache.{or_error-bind}
use buildfarm.Builder.Requests.{
  asks_status, asks_info, asks_native, asks_emulated, builds, pulls_to_file, pulls_to_local,
  removes, prunes, finishes, of_platforms, serve,
}
use buildfarm.Builder.Contract.{Known, Move, Refines}

-- What the cache knows; no platform is emulated.
abbrev pub info_of : Fetched → Info
info_of f = record { native_platforms = f.native_platforms; emulated_platforms = [] }

abbrev pub info_fetched : Fetched → Result Info
info_fetched f = or_platforms_error f (info_of f)

abbrev pub known_remotely : {W : Type 0} → LocalWorld W → Known
known_remotely (none, w) = none
known_remotely (some f, w) = some (info_fetched f)

native-fetched :
    (f : Fetched)
    → of_platforms (or_platforms_error f f.native_platforms)
      ≡ of_platforms (info_fetched f >>= λ i. ok i.native_platforms)
native-fetched f = ap of_platforms (or_error-bind f.error (info_of f) (λ i. i.native_platforms))

emulated-fetched :
    (f : Fetched)
    → of_platforms (or_platforms_error f [])
      ≡ of_platforms (info_fetched f >>= λ i. ok i.emulated_platforms)
emulated-fetched f = ap of_platforms (or_error-bind f.error (info_of f) (λ i. i.emulated_platforms))

module _ {W : Type 0} (b : Bindings W) (m : Machine W) (r : Remote W) where
  pub remote_builder-Refines : Refines (remote_builder b m r) known_remotely
  unfolding serve remote_builder remote_info remote_native_platforms remote_emulated_platforms
      remote_status remote_build remote_fetch_once
  remote_builder-Refines asks_info (none, w) = Move.settle _ refl
  remote_builder-Refines asks_info (some f, w) = Move.recall _ refl
  remote_builder-Refines asks_native (none, w) =
      Move.settle _ (native-fetched (remote_fetch_info b r w).0)
  remote_builder-Refines asks_native (some f, w) = Move.recall _ (native-fetched f)
  remote_builder-Refines asks_emulated (none, w) =
      Move.settle _ (emulated-fetched (remote_fetch_info b r w).0)
  remote_builder-Refines asks_emulated (some f, w) = Move.recall _ (emulated-fetched f)
  remote_builder-Refines asks_status (none, w) = Move.settle _ tt
  remote_builder-Refines asks_status (some f, w) = Move.quiet refl
  remote_builder-Refines (builds reference files options) (none, w) = Move.quiet refl
  remote_builder-Refines (builds reference files options) (some f, w) = Move.quiet refl
  remote_builder-Refines finishes (none, w) = Move.quiet refl
  remote_builder-Refines finishes (some f, w) = Move.quiet refl
  remote_builder-Refines (pulls_to_file o) (none, w) = Move.quiet refl
  remote_builder-Refines (pulls_to_file o) (some f, w) = Move.quiet refl
  remote_builder-Refines (pulls_to_local o) (none, w) = Move.quiet refl
  remote_builder-Refines (pulls_to_local o) (some f, w) = Move.quiet refl
  remote_builder-Refines (removes o) (none, w) = Move.quiet refl
  remote_builder-Refines (removes o) (some f, w) = Move.quiet refl
  remote_builder-Refines (prunes o) (none, w) = Move.quiet refl
  remote_builder-Refines (prunes o) (some f, w) = Move.quiet refl
