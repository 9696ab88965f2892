-- ===== src/Builder/Remote/Opening.antt =====
-- `Build` of remote.go: what it builds for.
use buildfarm.Base.{List, [], ◌∷◌, ◌++◌, Option, none, Bytes, ◌≡◌, refl, sym, ap}
use buildfarm.Base.Result.{Result, ok, err, ok-injective}
use buildfarm.Types.{Info, Platform, BuildOptions}
use buildfarm.Builder.Podman.{podman_build_options}
use buildfarm.Builder.Local.{Fetched, or_platforms_error}
use buildfarm.Builder.Remote.{
  Host, Bindings, Remote, remote_info, remote_build, remote_report, host_platform,
  remote_fetch_info, remote_fetch_once,
}

-- The platform that a builder asks its engine for, whatever platforms the options ask for.
abbrev pub BuildsFor : {W : Type 0} → Remote W → Option Fetched → Platform → Type 0
BuildsFor {W} r c p =
    (files : List Bytes) (options : BuildOptions) (ps : List Platform) (v : W)
    → remote_build r files (record options { platforms = ps }) c v ≡ (
        let (id, v1) =
          r.engine.build files (podman_build_options options p.os p.arch p.variant) v in
        (remote_report r.name options id, c, v1))

host_known :
    (name : Bytes) (r : Result Host) (i : Info)
    → or_platforms_error (host_platform name r) (record {
      native_platforms = (host_platform name r).native_platforms;
      emulated_platforms = [];
    })
      ≡ ok i
    → (h : Host) × (r ≡ ok h) × (i.native_platforms ≡ (h.os ++ b'/' ∷ h.arch) ∷ [])
host_known name (err e) i p = cc
host_known name (ok h) i p = (h, refl, ap (λ x. x.native_platforms) (sym (ok-injective p)))

module _ {W : Type 0} (b : Bindings W) (r : Remote W) where
  -- Whatever platforms a build is asked for, the remote builder has its engine build for the one
  -- native platform that `Info` named, without a variant; before any call that asks for the platforms
  -- it has the engine build for a platform without a name.
  pub remote_build-host :
      (w : W)
      → BuildsFor r none (record { os = []; arch = []; variant = [] })
        × ((i : Info)
            → (remote_info b r none w).0 ≡ ok i
            → (h : Host) × (i.native_platforms ≡ (h.os ++ b'/' ∷ h.arch) ∷ [])
              × BuildsFor r
                  (remote_info b r none w).1
                  (record { os = h.os; arch = h.arch; variant = [] }))
  unfolding remote_build remote_info remote_fetch_once remote_fetch_info
  remote_build-host w = (
    (λ files options ps v. refl),
    λ i e.
        let (h, p, q) = host_known r.name (b.info r.context w).0 i e in
        (h, q, rw p (λ files options ps v. refl)),
  )
