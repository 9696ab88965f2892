-- ===== src/Builder/Local.antt =====
-- The builder of local.go. What `sync.Once` guards is a cache: empty before the first call.
pub mod Cache
pub mod Requests
pub mod Builder
pub mod Opening
use buildfarm.Base.{
  ℕ, zero, suc, List, [], ◌∷◌, ◌++◌, Bool, true, false, not, ◌&&◌, Option, none, some,
  if◌then◌else◌, ◌==◌, Bytes, String, codes, eqb,
}
use buildfarm.Base.Result.{Error, errorf, wrapf, Result, ok, err}
use buildfarm.Types.{
  Info, Platform, BuildOptions, BuildReport, PullToFileOptions, PullToLocalOptions,
  RemoveImageOptions, PruneImageOptions, PruneImageReport, Call,
}
use buildfarm.Farm.Build.{docker_v2_image_manifest}
use buildfarm.Builder.Podman.{EngineOptions, podman_build_options}
use buildfarm.Builder.Engine.{Removal, PruneEntry, Engine, Machine}

-- What `fetchInfo` returns; the platforms beside an error are empty.
pub record Fetched : Type 0 where
  pub platform : Platform
  pub native_platforms : List Bytes
  pub emulated_platforms : List Bytes
  pub error : Option Error

-- `strings.SplitN(s, string(c), n + 1)`; `part` is the part read so far.
unfoldable pub split_n : ℕ → ℕ → Bytes → Bytes → List Bytes
split_n c zero part xs = (part ++ xs) ∷ []
split_n c (suc n) part [] = part ∷ []
split_n c (suc n) part (x ∷ xs) =
    let next = split_n c n [] xs in
    let longer = split_n c (suc n) (part ++ x ∷ []) xs in if x == c then part ∷ next else longer

unfoldable pub platform_name : Platform → Bytes
platform_name p =
    let base = p.os ++ b'/' ∷ p.arch in if eqb p.variant [] then base else base ++ b'/' ∷ p.variant

abbrev pub no_platform : Platform
no_platform = record { os = []; arch = []; variant = [] }

abbrev pub failed_fetch : Error → Fetched
failed_fetch e = record {
  platform = no_platform;
  native_platforms = [];
  emulated_platforms = [];
  error = some e;
}

-- The switch on the number of parts.
unfoldable pub parse_default : Bytes → List Bytes → Result Platform
parse_default s (o ∷ a ∷ []) = ok (record { os = o; arch = a; variant = [] })
parse_default s (o ∷ a ∷ v ∷ []) = ok (record { os = o; arch = a; variant = v })
parse_default s _ = err (errorf "unparseable default platform %q" (s ∷ []))

-- The value that stands beside `platformsErr`.
abbrev pub or_platforms_error : {A : Type 0} → Fetched → A → Result A
or_platforms_error f a = elim f.error [ none ↦ ok a | some e ↦ err e ]

-- A call that reads and writes the cache.
abbrev pub Cached : Type 0 → Type 0 → Type 0
Cached W A = Option Fetched → W → A × Option Fetched × W

module _ {W : Type 0} (m : Machine W) where
  abbrev pub fetch_for : Result Platform → Call W Fetched
  fetch_for (err e) w = (failed_fetch e, w)
  fetch_for (ok raw) w =
      let (emulated, w1) = m.registered w in
      let p = m.normalize raw in
      (
        record {
          platform = p;
          native_platforms = platform_name p ∷ [];
          emulated_platforms = emulated;
          error = none;
        },
        w1,
      )

  -- `fetchInfo`
  unfoldable pub fetch_info : Call W Fetched
  unfolding parse_default split_n platform_name
  fetch_info w =
      fetch_for (parse_default m.default_platform (split_n b'/' 2 [] m.default_platform)) w

  -- `l.platforms.Do(...)`
  unfoldable pub fetch_once : Cached W Fetched
  fetch_once (some f) w = (f, some f, w)
  fetch_once none w = let (f, w1) = fetch_info w in (f, some f, w1)

  -- `Info`
  unfoldable pub local_info : Cached W (Result Info)
  unfolding fetch_once
  local_info c w =
      let (f, c1, w1) = fetch_once c w in
      (
        or_platforms_error f (record {
          native_platforms = f.native_platforms;
          emulated_platforms = f.emulated_platforms;
        }),
        c1,
        w1,
      )

  -- `NativePlatforms`
  unfoldable pub local_native_platforms : Cached W (Result (List Bytes))
  unfolding fetch_once
  local_native_platforms c w =
      let (f, c1, w1) = fetch_once c w in (or_platforms_error f f.native_platforms, c1, w1)

  -- `EmulatedPlatforms`
  unfoldable pub local_emulated_platforms : Cached W (Result (List Bytes))
  unfolding fetch_once
  local_emulated_platforms c w =
      let (f, c1, w1) = fetch_once c w in (or_platforms_error f f.emulated_platforms, c1, w1)

abbrev pub build_report : BuildOptions → Result Bytes → Result BuildReport
build_report options (err e) = err (wrapf "building for %v locally: %w" [] e)
build_report options (ok id) = ok (record {
  image_id = id;
  save_format =
      if eqb options.output_format docker_v2_image_manifest
      then codes "docker-archive"
      else codes "oci-archive";
})

abbrev pub saving : Bytes → Option Error → Result Bytes → Result Bytes
saving id none r = r
saving id (some e) r = err (wrapf "saving image %q: %w" (id ∷ []) e)

abbrev pub storage_reference : Bytes → Bytes
storage_reference id = codes "containers-storage:" ++ id

-- The loop of `PruneImages`.
unfoldable pub pruned_ids : List PruneEntry → List Bytes
pruned_ids [] = []
pruned_ids (p ∷ ps) =
    let rest = pruned_ids ps in
    elim p.err [ some e ↦ rest | none ↦ if eqb p.id [] then rest else p.id ∷ rest ]

abbrev pub prune_report : Result (List PruneEntry) → Result PruneImageReport
prune_report (err e) = err (wrapf "removing unused images from local storage: %w" [] e)
prune_report (ok ps) = ok (record { image_ids = pruned_ids ps; image_names = [] })

module _ {W : Type 0} (m : Machine W) (engine : Engine W) where
  -- `Status`
  unfoldable pub local_status : Cached W (Option Error)
  unfolding fetch_once
  local_status c w =
      let (f, c1, w1) = fetch_once m c w in let (e, w2) = engine.config w1 in (e, c1, w2)

  abbrev pub build_for :
      Option Error → Platform → List Bytes → BuildOptions → Call W (Result BuildReport)
  build_for (some e) p files options w = (err (wrapf "determining local platform: %w" [] e), w)
  build_for none p files options w =
      let (r, w1) = engine.build files (podman_build_options options p.os p.arch p.variant) w in
      (build_report options r, w1)

  -- `Build`
  unfoldable pub local_build : List Bytes → BuildOptions → Cached W (Result BuildReport)
  unfolding fetch_once podman_build_options
  local_build files options c w =
      let (f, c1, w1) = fetch_once m c w in
      let (r, w2) = build_for f.error f.platform files options w1 in (r, c1, w2)

  -- `PullToFile`
  unfoldable pub local_pull_to_file : PullToFileOptions → Call W (Result Bytes)
  local_pull_to_file o w =
      let (e, w1) = engine.save o.image_id o.save_format o.save_file w in
      (saving o.image_id e (ok (o.save_format ++ b':' ∷ o.save_file)), w1)

  abbrev pub destination_of : Option ℕ → Engine W
  destination_of none = engine
  destination_of (some d) = m.engine_of d

  abbrev pub load_saved :
      Engine W → PullToLocalOptions → Bytes → Option Error → Call W (Result Bytes)
  load_saved d o file (some e) w = (err (wrapf "saving image %q: %w" (o.image_id ∷ []) e), w)
  load_saved d o file none w =
      let (e, w1) = d.load file w in
      (elim e [ none ↦ ok (storage_reference o.image_id) | some x ↦ err x ], w1)

  abbrev pub transfer : Engine W → PullToLocalOptions → Result Bytes → Call W (Result Bytes)
  transfer d o (err e) w = (err e, w)
  transfer d o (ok file) w =
      let (e, w1) = engine.save o.image_id o.save_format file w in
      let (r, w2) = load_saved d o file e w1 in (r, m.remove_file file w2)

  abbrev pub unless_present : Engine W → PullToLocalOptions → Result Bool → Call W (Result Bytes)
  unless_present d o (err e) w = (err e, w)
  unless_present d o (ok true) w = (ok (storage_reference o.image_id), w)
  unless_present d o (ok false) w = let (t, w1) = m.temp_file w in transfer d o t w1

  -- `PullToLocal`
  unfoldable pub local_pull_to_local : PullToLocalOptions → Call W (Result Bytes)
  local_pull_to_local o w =
      let (present, w1) = (destination_of o.destination).exists o.image_id w in
      unless_present (destination_of o.destination) o present w1

  -- What `RemoveImage` makes of the exit code and the errors.
  abbrev pub removal_error : Bytes → ℕ → List Error → Option Error
  removal_error id code [] =
      if code == 0
      then none
      else some (errorf "removing intermediate image %q from local storage: status %d" (id ∷ []))
  removal_error id code (e ∷ []) =
      some (wrapf "removing intermediate image %q from local storage: %w" (id ∷ []) e)
  removal_error id code (e ∷ f ∷ es) = some (
      wrapf "removing intermediate image %q from local storage: %w" (id ∷ []) (m.join (e ∷ f ∷ es)))

  -- `RemoveImage`
  unfoldable pub local_remove_image : RemoveImageOptions → Call W (Option Error)
  local_remove_image o w =
      let (r, w1) = engine.remove o.image_id w in
      (removal_error o.image_id r.exit_code r.errors, w1)

  -- `PruneImages`
  unfoldable pub local_prune_images : PruneImageOptions → Call W (Result PruneImageReport)
  unfolding pruned_ids
  local_prune_images o w =
      let filter = if o.all then codes "dangling=false" else codes "dangling=true" in
      let (r, w1) = engine.prune o.all (filter ∷ []) w in (prune_report r, w1)
