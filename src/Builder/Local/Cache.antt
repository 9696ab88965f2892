-- ===== src/Builder/Local/Cache.antt =====
-- The platforms of the local builder: asked for once, and the same in every answer and every build.
use mathlib.Core.Path.{subst}
use buildfarm.Base.{
  List, [], ◌∷◌, Option, none, some, Bytes, ◌≡◌, ◌≢◌, refl, sym, ap, ◌∙◌, inl, inr, Option-cases,
}
use buildfarm.Base.Result.{Error, Result, ok, err, ◌>>=◌, ok-injective}
use buildfarm.Types.{Info, Platform, BuildOptions}
use buildfarm.Builder.Podman.{podman_build_options}
use buildfarm.Builder.Engine.{Engine, Machine}
use buildfarm.Builder.Local.{
  Fetched, platform_name, parse_default, split_n, fetch_for, fetch_info, fetch_once,
  or_platforms_error, local_info, local_native_platforms, local_emulated_platforms, local_status,
  build_report, build_for, local_build,
}

pub or_error-bind :
    {A B : Type 0} (m : Option Error) (a : A) (h : A → B)
    → ◌≡◌ {A = Result B}
        (elim m [ none ↦ ok (h a) | some e ↦ err e ])
        (elim m as (λ _. Result A) [ none ↦ ok a | some e ↦ err e ] >>= λ x. ok (h x))
or_error-bind none a h = refl
or_error-bind (some e) a h = refl

abbrev info_of : Fetched → Info
info_of f = record {
  native_platforms = f.native_platforms;
  emulated_platforms = f.emulated_platforms;
}

module _ {W : Type 0} (m : Machine W) where
  -- Once `Info` has answered, each later call for platforms gives the answer that `Info` gave,
  -- in whatever state the machine is by then, and leaves the machine as it is.
  pub info-once :
      (c : Option Fetched) (w v : W)
      → (local_info m (local_info m c w).1 v ≡ ((local_info m c w).0, (local_info m c w).1, v))
        × (local_native_platforms m (local_info m c w).1 v
            ≡ (((local_info m c w).0 >>= λ i. ok i.native_platforms), (local_info m c w).1, v))
        × (local_emulated_platforms m (local_info m c w).1 v
            ≡ (((local_info m c w).0 >>= λ i. ok i.emulated_platforms), (local_info m c w).1, v))
  unfolding local_info local_native_platforms local_emulated_platforms fetch_once
  info-once none w v =
      let f = (fetch_info m w).0 in
      (
        refl,
        ap (λ r. (r, some f, v)) (or_error-bind f.error (info_of f) (λ i. i.native_platforms)),
        ap (λ r. (r, some f, v)) (or_error-bind f.error (info_of f) (λ i. i.emulated_platforms)),
      )
  info-once (some f) w v = (
    refl,
    ap (λ r. (r, some f, v)) (or_error-bind f.error (info_of f) (λ i. i.native_platforms)),
    ap (λ r. (r, some f, v)) (or_error-bind f.error (info_of f) (λ i. i.emulated_platforms)),
  )

  -- What the cache may hold: an error, or one native platform, the name of the platform fetched.
  abbrev pub IsFetched : Fetched → Type 0
  IsFetched f = f.error ≡ none → f.native_platforms ≡ platform_name f.platform ∷ []

  abbrev pub IsCache : Option Fetched → Type 0
  IsCache none = Unit
  IsCache (some f) = IsFetched f

  fetch_info-IsFetched : (w : W) → IsFetched (fetch_info m w).0
  unfolding fetch_info
  fetch_info-IsFetched w =
      by_platform (parse_default m.default_platform (split_n b'/' 2 [] m.default_platform))
    where
      by_platform : (r : Result Platform) → IsFetched (fetch_for m r w).0
      by_platform (err e) h = cc
      by_platform (ok raw) h = refl

  fetch_once-IsCache : (c : Option Fetched) (w : W) → IsCache c → IsFetched (fetch_once m c w).0
  unfolding fetch_once
  fetch_once-IsCache none w h = fetch_info-IsFetched w
  fetch_once-IsCache (some f) w h = h

  fetch_once-cache : (c : Option Fetched) (w : W) → (fetch_once m c w).1 ≡ some (fetch_once m c w).0
  unfolding fetch_once
  fetch_once-cache none w = refl
  fetch_once-cache (some f) w = refl

module _ {W : Type 0} (m : Machine W) (engine : Engine W) where
  info_ok :
      (f : Fetched) (i : Info)
      → or_platforms_error f (info_of f) ≡ ok i
      → (f.error ≡ none) × (i.native_platforms ≡ f.native_platforms)
  info_ok f i h = elim (Option-cases f.error) [
    | inl e ↦ (e, ap (λ x. x.native_platforms) (sym (ok-injective (rw e at h))))
    | inr (x, e) ↦ absurd (mismatch (rw e at h))
  ]
    where
      mismatch : {x : Error} {y : Info} → err x ≢ ok y
      mismatch e = cc

  -- Whatever platforms a build is asked for, the local builder has its engine build for the one
  -- native platform that `Info` names, and for no other.
  pub build-native :
      (c : Option Fetched) (w : W) (i : Info)
      → IsCache m c
      → (local_info m c w).0 ≡ ok i
      → (p : Platform) × (i.native_platforms ≡ platform_name p ∷ [])
        × ((files : List Bytes) (options : BuildOptions) (ps : List Platform)
            → local_build m engine files (record options { platforms = ps }) c w ≡ (
                let (_, c1, w1) = local_info m c w in
                let (r, w2) =
                  engine.build files (podman_build_options options p.os p.arch p.variant) w1 in
                (build_report options r, c1, w2)))
  unfolding local_info local_build
  build-native c w i h k =
      let f = (fetch_once m c w).0 in
      let (none_e, native) = info_ok f i k in
      (
        f.platform,
        native ∙ fetch_once-IsCache m c w h none_e,
        λ files options ps.
            ap
              (λ e.
                let (r, w2) =
                  build_for m engine e f.platform files (record options { platforms = ps })
                    (fetch_once m c w).2 in
                (r, (fetch_once m c w).1, w2))
              none_e,
      )

  -- The operations that ask for the platforms leave behind a cache of that kind.
  pub cached-IsCache :
      (c : Option Fetched) (w : W)
      → IsCache m c
      → IsCache m (local_info m c w).1
        × IsCache m (local_native_platforms m c w).1
        × IsCache m (local_emulated_platforms m c w).1
        × IsCache m (local_status m engine c w).1
  unfolding local_info local_native_platforms local_emulated_platforms local_status
  cached-IsCache c w h =
      let after = subst (IsCache m) (sym (fetch_once-cache m c w)) (fetch_once-IsCache m c w h) in
      (after, after, after, after)

  pub local_build-IsCache :
      (files : List Bytes) (options : BuildOptions) (c : Option Fetched) (w : W)
      → IsCache m c
      → IsCache m (local_build m engine files options c w).1
  unfolding local_build
  local_build-IsCache files options c w h =
      subst (IsCache m) (sym (fetch_once-cache m c w)) (fetch_once-IsCache m c w h)
