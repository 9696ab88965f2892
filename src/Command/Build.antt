-- ===== src/Command/Build.antt =====
-- `buildCmd` of cmd/buildfarm/build.go.
pub mod Args
pub mod Delivery
use buildfarm.Base.{
  ℕ, List, [], ◌∷◌, ◌++◌, Bool, true, false, ◌||◌, Option, none, some, if◌then◌else◌, ◌==◌, Bytes,
  codes, eqb,
}
use buildfarm.Base.Map.{Map, insert, delete}
use buildfarm.Base.Result.{Error, errorf, wrapf, Result, ok, err, map_err, ◌>>=◌}
use buildfarm.Types.{BuildOptions, Call}
use buildfarm.Farm.{Builders, Assignment, schedule}
use buildfarm.Farm.Build.{Uses, build}
use buildfarm.Farm.Open.{OpenFarm}
use buildfarm.Builder.Local.{split_n}
use buildfarm.Command.{Settings, Globals, Outside, Ran, failed_command, on_farm}

-- `buildOptions`, with the flags that are read; the flag --isolation is not.
pub record CliOptions : Type 0 where
  pub output : Bytes
  pub dockerfiles : List Bytes
  pub build_options : BuildOptions
  pub platforms : List Bytes
  pub build_arg : List Bytes
  pub cache_from : List Bytes
  pub cache_to : List Bytes
  pub network : Bytes

-- What the command takes from elsewhere: `filepath.Abs`, which asks for the working directory,
-- `reference.ParseNamed`, `util.DiscoverContainerfile`, what `Build` of the farm takes, and the orders
-- in which a second `range` goes over the maps of builders and of a schedule.
pub record Tools (W : Type 0) : Type 0 where
  pub abs : Bytes → Call W (Result Bytes)
  pub parse_named : Bytes → Result Bytes
  pub discover : Bytes → Call W (Result Bytes)
  pub uses : Uses W
  pub range_builders : Builders W → Builders W
  pub range_schedule : Assignment → Assignment

-- `filepath.IsAbs` on Unix.
abbrev pub is_abs : Bytes → Bool
is_abs [] = false
is_abs (c ∷ cs) = c == b'/'

-- The map that is made where there is none.
abbrev pub args_of : Option (Map Bytes) → Map Bytes
args_of none = []
args_of (some m) = m

abbrev pub put_arg : List Bytes → Map Bytes → Map Bytes
put_arg (k ∷ v ∷ _) m = insert k v m
put_arg (k ∷ []) m = delete k m
put_arg [] m = m

-- The loop over the build arguments.
unfoldable pub put_args : List Bytes → Option (Map Bytes) → Option (Map Bytes)
put_args [] m = m
put_args (a ∷ rest) m = put_args rest (some (put_arg (split_n b'=' 1 [] a) (args_of m)))

module _ {W : Type 0} (tools : Tools W) where
  -- A loop over the cache sources or targets.
  unfoldable pub parse_references : List Bytes → List Bytes → Result (List Bytes)
  parse_references [] names = ok names
  parse_references (r ∷ rs) names =
      map_err (wrapf "parsing reference %q: %w" (r ∷ [])) (tools.parse_named r) >>= λ name.
      parse_references rs (names ++ name ∷ [])

  abbrev pub network_option : Bytes → Option Bool → Option Bool
  network_option network o = if eqb network (codes "none") then some false else o

  abbrev pub absolute : Bytes → Call W (Result Bytes)
  absolute path w = if is_abs path then (ok path, w) else tools.abs path w

  -- The options, from the build arguments on.
  unfoldable pub with_context : Bytes → CliOptions → Result CliOptions
  unfolding put_args parse_references
  with_context dir o =
      let b = o.build_options in
      parse_references o.cache_from b.cache_from >>= λ from.
      parse_references o.cache_to b.cache_to >>= λ to. ok (record o {
        build_options = record b {
          context_directory = dir;
          args = put_args o.build_arg b.args;
          cache_from = from;
          cache_to = to;
          configure_network = network_option o.network b.configure_network;
        };
      })

  abbrev pub absolute_file : Result Bytes → Call W (Result Bytes)
  absolute_file (err e) w = (err e, w)
  absolute_file (ok file) w = absolute file w

  abbrev pub add_file : CliOptions → Result Bytes → Result CliOptions
  add_file o (err e) = err e
  add_file o (ok file) = ok (record o { dockerfiles = o.dockerfiles ++ file ∷ [] })

  abbrev pub discover_file : CliOptions → Call W (Result CliOptions)
  discover_file o w =
      let (file, w1) = tools.discover o.build_options.context_directory w in
      let (path, w2) = absolute_file file w1 in (add_file o path, w2)

  abbrev pub with_file : List Bytes → CliOptions → Call W (Result CliOptions)
  with_file [] o w = discover_file o w
  with_file (f ∷ fs) o w = (ok o, w)

  abbrev pub with_files : Result CliOptions → Call W (Result CliOptions)
  with_files (err e) w = (err e, w)
  with_files (ok o) w = with_file o.dockerfiles o w

  abbrev pub in_directory : CliOptions → Result Bytes → Call W (Result CliOptions)
  in_directory o (err e) w = (err e, w)
  in_directory o (ok dir) w = with_files (with_context dir o) w

  -- `buildCmd` up to the farm; the argument is the directory of the build.
  unfoldable pub prepare : Bytes → CliOptions → Call W (Result CliOptions)
  unfolding with_context
  prepare dir o w =
      if eqb o.output []
      then (
        err (
            errorf
              "no output specified: expected -t \"dir:/directory/path\" or -t \"registry.tld/repository/name:tag\""
              []),
        w,
      )
      else if eqb dir []
      then (err (errorf "expected location of build context" []), w)
      else (let (path, w1) = absolute dir w in in_directory o path w1)

abbrev pub error_of_build : Result (Unit {0}) → Option Error
error_of_build (err e) = some (wrapf "build: %w" [] e)
error_of_build (ok u) = none

module _ {W : Type 0} (tools : Tools W) (outside : Outside W) where
  abbrev pub build_scheduled :
      CliOptions → OpenFarm W → Result Assignment → Call W (Bytes × Option Error)
  build_scheduled o f (err e) w = (([], some (wrapf "scheduling builds: %w" [] e)), w)
  build_scheduled o f (ok s) w =
      let (r, w1) =
        build tools.uses f.builders o.output f.has_store s (tools.range_schedule s) o.dockerfiles
          o.build_options w in
      (([], error_of_build r), w1)

  abbrev pub run_build : CliOptions → OpenFarm W → Call W (Bytes × Option Error)
  run_build o f w =
      let (s, w1) =
        schedule outside.connections.join f.builders (tools.range_builders f.builders) o.platforms
          w in
      build_scheduled o f s w1

  abbrev pub prepared : Result CliOptions → Settings → Globals W → Call W (Ran W)
  prepared (err e) s g w = (failed_command outside g e, w)
  prepared (ok o) s g w = on_farm outside s g (run_build o) w

  -- `buildCmd`
  unfoldable pub build_cmd : Bytes → CliOptions → Settings → Globals W → Call W (Ran W)
  unfolding prepare
  build_cmd dir o s g w = let (r, w1) = prepare tools dir o w in prepared r s g w1
