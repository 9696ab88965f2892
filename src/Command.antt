-- ===== src/Command.antt =====
-- The command line in cmd/buildfarm: main.go and store_supported.go, the state that the commands
-- share, how they open a farm, and what they leave behind. A module for each command.
mod Examples
pub mod Opening
pub mod Nodes
pub mod Status
pub mod Prune
pub mod Platforms
pub mod Build
pub mod Flags
use buildfarm.Base.{List, [], ◌∷◌, Bool, true, false, Option, none, some, if◌then◌else◌, Bytes}
use buildfarm.Base.Int.{ℤ, pos}
use buildfarm.Base.Result.{Error, wrapf, Result, ok, err, map_err}
use buildfarm.Types.{Call}
use buildfarm.Farm.Members.{farm_done}
use buildfarm.Farm.Open.{OpenFarm, Connections, new_farm, new_ad_hoc_farm}

-- `globalSettings`, without the level of the log.
pub record Settings : Type 0 where
  pub local : Bool
  pub farm_name : Bytes
  pub ad_hoc_farm_nodes : List Bytes

-- `globalStorageOptions != nil`, `globalStore != nil` and `globalFarm`.
pub record Globals (W : Type 0) : Type 0 where
  pub has_storage_options : Bool
  pub has_store : Bool
  pub farm : Option (OpenFarm W)

-- What the commands take from elsewhere: the farm's connections, the storage, the text of an error
-- for `%v`, and the exit status of the `exec.ExitError` that an error has in it.
pub record Outside (W : Type 0) : Type 0 where
  pub connections : Connections W
  pub default_store_options : Call W (Option Error)
  pub get_store : Call W (Option Error)
  pub shutdown_store : Call W (Option Error)
  pub show_error : Error → Bytes
  pub exit_status : Error → Option ℤ

-- What a command comes to: its standard output, the shared state, and its error.
pub record Ran (W : Type 0) : Type 0 where
  pub printed : Bytes
  pub globals : Globals W
  pub error : Option Error

module _ {W : Type 0} (outside : Outside W) where
  -- `init` of store_supported.go.
  unfoldable pub initial_globals : Call W (Globals W)
  initial_globals w =
      let (e, w1) = outside.default_store_options w in
      (
        record {
          has_storage_options = elim e [ none ↦ true | some x ↦ false ];
          has_store = false;
          farm = none;
        },
        w1,
      )

  abbrev pub note_store : Option Error → Globals W → Option Error × Globals W
  note_store (some e) g = (some e, g)
  note_store none g = (none, record g { has_store = true })

  abbrev pub open_store : Option Error → Globals W → Call W (Option Error × Globals W)
  open_store (some e) g w = ((none, g), w)
  open_store none g w =
      let (e, w1) = outside.get_store w in
      (note_store e (record g { has_storage_options = true }), w1)

  -- `storeBefore`
  unfoldable pub store_before : Settings → Globals W → Call W (Option Error × Globals W)
  store_before s g w =
      let (e, w1) = outside.default_store_options w in
      if s.local then open_store e g w1 else ((none, record g { has_storage_options = false }), w)

  -- `before`
  unfoldable pub before : Settings → Globals W → Call W (Option Error × Globals W)
  unfolding store_before
  before s g w = store_before s g w

  -- `storeAfter`
  unfoldable pub store_after : Globals W → Call W (Option Error)
  store_after g w = if g.has_store then outside.shutdown_store w else (none, w)

  abbrev pub finish_farm : Option (OpenFarm W) → Call W (Option Error)
  finish_farm none w = (none, w)
  finish_farm (some f) w = farm_done outside.connections.join f.builders w

  abbrev pub unless_failed : Option Error → Globals W → Call W (Option Error)
  unless_failed (some e) g w = (some e, w)
  unless_failed none g w = store_after g w

  -- `after`
  unfoldable pub after : Globals W → Call W (Option Error)
  unfolding store_after
  after g w = let (e, w1) = finish_farm g.farm w in unless_failed e g w1

  abbrev pub choose_farm : List Bytes → Bytes → Bool → Call W (Result (OpenFarm W))
  choose_farm [] name has_store w = new_farm outside.connections name has_store w
  choose_farm (n ∷ ns) name has_store w = new_ad_hoc_farm outside.connections (n ∷ ns) has_store w

  -- `getFarm`
  unfoldable pub get_farm : Settings → Globals W → Call W (Result (OpenFarm W))
  get_farm s g w =
      let (r, w1) = choose_farm s.ad_hoc_farm_nodes s.farm_name g.has_storage_options w in
      (map_err (wrapf "initializing: %w" []) r, w1)

  abbrev pub failed_command : Globals W → Error → Ran W
  failed_command g e = record { printed = []; globals = g; error = some e }

  abbrev pub with_farm :
      Globals W
      → Result (OpenFarm W)
      → (OpenFarm W → Call W (Bytes × Option Error))
      → Call W (Ran W)
  with_farm g (err e) run w = (failed_command g (wrapf "initializing: %w" [] e), w)
  with_farm g (ok f) run w =
      let ((printed, e), w1) = run f w in
      (record { printed = printed; globals = record g { farm = some f }; error = e }, w1)

  -- How each command starts: it opens its farm and keeps it for `after`.
  abbrev pub on_farm :
      Settings → Globals W → (OpenFarm W → Call W (Bytes × Option Error)) → Call W (Ran W)
  on_farm s g run w = let (r, w1) = get_farm s g w in with_farm g r run w1

  abbrev pub status_or : ℤ → Option ℤ → ℤ
  status_or code none = code
  status_or code (some n) = n

  -- The exit code of `main`.
  unfoldable pub exit_code : Option Error → ℤ
  exit_code none = pos 0
  exit_code (some e) = status_or (pos 1) (outside.exit_status e)

-- The argument of a command that takes the name of a farm.
abbrev pub named_farm : List Bytes → Settings → Settings
named_farm [] s = s
named_farm (name ∷ rest) s = record s { farm_name = name }
