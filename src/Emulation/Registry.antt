-- ===== src/Emulation/Registry.antt =====
-- `registeredBinfmtMisc` of emulation/binfmtmisc_linux.go and `Registered` of emulation/emulation.go.
-- The file system is what a list of visits says: WalkDir calls the callback for each in turn. A
-- `none` is a panic.
pub mod Walk
pub mod Orders
pub mod Switch
pub mod Panics
mod Examples
use buildfarm.Base.{
  ℕ, List, [], ◌∷◌, ◌++◌, Bool, true, false, not, Option, none, some, if◌then◌else◌, Bytes, codes,
  eqb,
}
use buildfarm.Base.Map.{Map}
use buildfarm.Base.Result.{Error, errorf, Result, ok, err}
use buildfarm.Base.Sort.{sort_strings}
use buildfarm.Emulation.GoText.{ℤ, pos, negsuc, trim_space}
use buildfarm.Emulation.Binfmt.{Parsed, entry, ignored, failed, crashed, parse_binfmt_misc}
use buildfarm.Emulation.Magic.{magic_match}

-- An open file: what it yields, and the error that ends it, if one does.
pub record File : Type 0 where
  pub contents : Bytes
  pub read_error : Option Error

-- A directory entry: `d.Info()` with whether the file is regular, and `os.Open(path)`.
pub record DirEntry : Type 0 where
  pub is_regular : Result Bool
  pub opened : Result File

-- The error that WalkDir hands on; `os.ErrNotExist` is told apart.
pub data WalkError : Type 0 where
  no_error not_exist : WalkError
  other_error : Error → WalkError

pub record Visit : Type 0 where
  pub path : Bytes
  pub base : Bytes
  pub dir_entry : Option DirEntry
  pub error : WalkError

-- The variables that the callback writes, the global one too.
pub record State : Type 0 where
  pub registered : List Bytes
  pub global_enabled : Bool
  pub global_platform : Bytes

-- A return of the callback, or a panic in it.
pub data Step : Type 0 where
  proceed : State → Step
  halt : State → Error → Step
  panic : Step

abbrev pub Table : Type 0
Table = Map (List Bytes)

-- The inner loop over the headers of one platform.
unfoldable pub try_headers : Bytes → ℕ → Bytes → Bytes → List Bytes → State → State
try_headers platform offset mask magic [] s = s
try_headers platform offset mask magic (h ∷ hs) s =
    let s' = record s { global_platform = platform } in
    if magic_match h offset mask magic
    then record s' { registered = s.registered ++ platform ∷ [] }
    else try_headers platform offset mask magic hs s'

-- The loop over `getKnownELFPlatformHeaders()`, in the order in which `range` visits it.
unfoldable pub try_platforms : ℕ → Bytes → Bytes → Table → State → State
unfolding try_headers
try_platforms offset mask magic [] s = s
try_platforms offset mask magic ((platform, headers) ∷ t) s =
    try_platforms offset mask magic t (try_headers platform offset mask magic headers s)

unfoldable pub use_entry : Table → Parsed → State → Step
unfolding try_platforms
use_entry t (entry (pos offset) magic mask) s = proceed (try_platforms offset mask magic t s)
use_entry t (entry (negsuc n) magic mask) s = proceed s
use_entry t ignored s = proceed s
use_entry t (failed e) s = halt s e
use_entry t crashed s = panic

unfoldable pub use_status : Bytes → State → Bytes → Step
use_status path s status =
    if eqb status (codes "disabled")
    then proceed (record s { global_enabled = false })
    else if eqb status (codes "enabled")
    then proceed (record s { global_enabled = true })
    else halt s (errorf "unrecognized binfmt_misc status value %q in %q" (status ∷ path ∷ []))

-- `io.ReadAll(f)`, and the switch on what was read.
unfoldable pub read_status : Bytes → State → File → Step
unfolding use_status
read_status path s f = elim f.read_error [
  | some e ↦ halt s e
  | none ↦ use_status path s (trim_space f.contents)
]

unfoldable pub use_file : Table → Visit → State → File → Step
unfolding read_status use_entry
use_file t v s f =
    if eqb v.base (codes "status")
    then read_status v.path s f
    else use_entry t (parse_binfmt_misc v.path f.contents) s

abbrev pub open_regular : Table → Visit → State → DirEntry → Bool → Step
open_regular t v s d false = proceed s
open_regular t v s d true = elim d.opened [ err e ↦ halt s e | ok f ↦ use_file t v s f ]

-- From `d.Info()` on; `d` may be nil.
unfoldable pub use_dir_entry : Table → Visit → State → Option DirEntry → Step
unfolding use_file
use_dir_entry t v s none = panic
use_dir_entry t v s (some d) = elim d.is_regular [
  | err e ↦ halt s e
  | ok regular ↦ open_regular t v s d regular
]

abbrev pub check_error : State → WalkError → Step → Step
check_error s (other_error e) k = halt s e
check_error s no_error k = k
check_error s not_exist k = k

-- The callback.
unfoldable pub visit : Table → Visit → State → Step
unfolding use_dir_entry
visit t v s =
    if eqb v.base (codes "register")
    then proceed s
    else check_error s v.error (use_dir_entry t v s v.dir_entry)

abbrev pub after : Step → (State → Step) → Step
after (proceed s) k = k s
after (halt s e) k = halt s e
after panic k = panic

-- `filepath.WalkDir`: the first error ends it. Each visit comes with the order in which `range`
-- goes over the table in it.
unfoldable pub walk_dir : List (Table × Visit) → State → Step
unfolding visit
walk_dir [] s = proceed s
walk_dir ((t, v) ∷ vs) s = after (visit t v s) (walk_dir vs)

abbrev pub initial : State
initial = record { registered = []; global_enabled = false; global_platform = [] }

-- What stands behind the walk; the result is `(registered, err)`.
unfoldable pub registered_result : State → Option Error → List Bytes × Option Error
registered_result s e = if not s.global_enabled then ([], none) else (sort_strings s.registered, e)

abbrev pub returned : Step → Option (List Bytes × Option Error)
returned (proceed s) = some (registered_result s none)
returned (halt s e) = some (registered_result s (some e))
returned panic = none

unfoldable pub registered_binfmt_misc : List (Table × Visit) → Option (List Bytes × Option Error)
unfolding walk_dir registered_result
registered_binfmt_misc vs = returned (walk_dir vs initial)

abbrev pub warn_or : List Bytes × Option Error → List Bytes
warn_or (binfmt, some e) = []
warn_or (binfmt, none) = binfmt

abbrev pub warned : Option (List Bytes × Option Error) → Option (List Bytes)
warned none = none
warned (some r) = some (warn_or r)

-- `Registered()`
unfoldable pub registered : List (Table × Visit) → Option (List Bytes)
unfolding registered_binfmt_misc
registered vs = warned (registered_binfmt_misc vs)
