-- ===== src/Emulation/Registry/Examples.antt =====
-- The theorems on the registry at a registry with one entry.
use mathlib.Core.List.Perm
use buildfarm.Base.{false}
use buildfarm.Base.{
  List, [], ◌∷◌, true, none, some, if◌then◌else◌, Bytes, String, codes, eqb, ◌≡◌, ◌≢◌, ◌↔◌, refl,
}
use buildfarm.Base.Result.{Error, foreign, ok, err}
use buildfarm.Base.Sort.{sort_strings}
use buildfarm.Emulation.Magic.{magic_match}
use buildfarm.Emulation.GoText.{contains_byte, trim_space, fields, parse_int8, decode_hex}
use buildfarm.Emulation.Binfmt.{parse_binfmt_misc}
use buildfarm.Emulation.Registry.{
  DirEntry, no_error, not_exist, other_error, Visit, visit, panic, State, Table, walk_dir, initial,
  registered, registered_binfmt_misc,
}
use buildfarm.Emulation.Registry.Walk.{all_platforms, registered-walk_dir}
use buildfarm.Emulation.Registry.Orders.{same_visit, none_left, registered-order}
use buildfarm.Emulation.Registry.Switch.{registered-early_error}
use buildfarm.Emulation.Registry.Panics.{visit-panic_iff}
use buildfarm.Emulation.Examples.{some_path}

-- A registry with one entry, which one platform of the table matches.
abbrev table : Table
table = (codes "linux/arm", (127 ∷ 69 ∷ 76 ∷ []) ∷ []) ∷ []

abbrev regular : Bytes → DirEntry
regular contents = record {
  is_regular = ok true;
  opened = ok (record { contents = contents; read_error = none });
}

abbrev entry_visit : Visit
entry_visit = record {
  path = some_path;
  base = codes "qemu-arm";
  dir_entry = some (regular (codes "enabled\nflags: F\noffset 0\nmagic 7f45\nmask ffff\n"));
  error = no_error;
}

abbrev status_visit : Visit
status_visit = record {
  path = codes "/proc/sys/fs/binfmt_misc/status";
  base = codes "status";
  dir_entry = some (regular (codes "enabled\n"));
  error = no_error;
}

abbrev closed_visit : Visit
closed_visit = record {
  path = some_path;
  base = codes "qemu-arm";
  dir_entry = some (record { is_regular = ok true; opened = err (foreign 13) });
  error = no_error;
}

abbrev walked : List (Table × Visit)
walked = (table, entry_visit) ∷ (table, status_visit) ∷ []

abbrev walked_state : State
walked_state = record {
  registered = codes "linux/arm" ∷ [];
  global_enabled = true;
  global_platform = codes "linux/arm";
}

registered-walk_dir_example :
    registered walked ≡ some (if true then sort_strings (all_platforms walked) else [])
registered-walk_dir_example = registered-walk_dir walked walked_state (
    unfold walk_dir eqb parse_binfmt_misc magic_match trim_space fields contains_byte parse_int8
      decode_hex in
    refl)

abbrev row : String → Bytes × List Bytes
row name = (codes name, (127 ∷ 69 ∷ 76 ∷ []) ∷ [])

registered-order_example :
    registered ((row "linux/arm" ∷ row "linux/386" ∷ [], entry_visit) ∷ [])
    ≡ registered ((row "linux/386" ∷ row "linux/arm" ∷ [], entry_visit) ∷ [])
registered-order_example =
    registered-order ((row "linux/arm" ∷ row "linux/386" ∷ [], entry_visit) ∷ [])
      ((row "linux/386" ∷ row "linux/arm" ∷ [], entry_visit) ∷ [])
      (same_visit (Perm.swap (row "linux/386") (row "linux/arm") []) none_left)

registered-early_error_example :
    registered_binfmt_misc ((table, closed_visit) ∷ walked) ≡ some ([], none)
registered-early_error_example =
    registered-early_error ((table, closed_visit) ∷ []) walked initial (foreign 13)
      (unfold eqb in (refl, tt)) (unfold walk_dir eqb in refl)

-- What WalkDir makes of a registry that is missing.
abbrev missing_root : Visit
missing_root = record {
  path = codes "/proc/sys/fs/binfmt_misc";
  base = codes "binfmt_misc";
  dir_entry = none;
  error = not_exist;
}

visit-panic_iff_example : (visit table missing_root initial ≡ panic) ↔ (
    (eqb missing_root.base (codes "register") ≡ false)
    × (missing_root.dir_entry ≡ none)
    × ((e : Error) → missing_root.error ≢ other_error e))
visit-panic_iff_example = visit-panic_iff table missing_root initial
