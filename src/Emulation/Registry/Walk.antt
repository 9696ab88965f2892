-- ===== src/Emulation/Registry/Walk.antt =====
-- What a walk that comes to its end has registered.
use mathlib.Core.List.{filter_map, append_assoc, append-nil}
use mathlib.Core.List
use mathlib.Core.Path.{subst}
use buildfarm.Base.{
  ℕ, List, [], ◌∷◌, ◌++◌, Bool, true, false, ◌||◌, Option, none, some, if◌then◌else◌, if-elim,
  Bytes, codes, eqb, ◌≡◌, refl, sym, ap, ◌∙◌, arith, Bool-cases, inl, inr,
}
use buildfarm.Base.Result.{Error, Result, ok, err}
use buildfarm.Base.Sort.{sort_strings}
use buildfarm.Emulation.GoText.{pos, negsuc, trim_space}
use buildfarm.Emulation.Binfmt.{Parsed, entry, ignored, failed, crashed, parse_binfmt_misc}
use buildfarm.Emulation.Magic.{magic_match}
use buildfarm.Emulation.Registry.{
  File, DirEntry, WalkError, no_error, not_exist, other_error, Visit, State, Step, proceed, halt,
  panic, Table, try_headers, try_platforms, use_entry, use_status, read_status, use_file,
  use_dir_entry, check_error, visit, after, walk_dir, initial, registered, returned, warned,
}

-- Whether a header of a platform fits an entry.
abbrev pub any_header : ℕ → Bytes → Bytes → List Bytes → Bool
any_header offset mask magic [] = false
any_header offset mask magic (h ∷ hs) =
    magic_match h offset mask magic || any_header offset mask magic hs

abbrev pub emulated : ℕ → Bytes → Bytes → Bytes × List Bytes → Option Bytes
emulated offset mask magic (platform, headers) =
    if any_header offset mask magic headers then some platform else none

-- The platforms that an entry emulates, each once.
abbrev pub entry_platforms : Table → Parsed → List Bytes
entry_platforms t (entry (pos offset) magic mask) = filter_map (emulated offset mask magic) t
entry_platforms t _ = []

-- The file that the callback reads at a visit, if it is one.
abbrev pub file_of : Option DirEntry → Option File
file_of none = none
file_of (some d) = elim d.is_regular [
  | err e ↦ none
  | ok r ↦ if r then elim d.opened [ err e ↦ none | ok f ↦ some f ] else none
]

abbrev pub file_platforms : Table → Visit → Option File → List Bytes
file_platforms t v none = []
file_platforms t v (some f) = entry_platforms t (parse_binfmt_misc v.path f.contents)

-- What a visit adds: "register" and "status" add nothing.
abbrev pub visit_platforms : Table × Visit → List Bytes
visit_platforms (t, v) =
    if eqb v.base (codes "register") || eqb v.base (codes "status")
    then []
    else file_platforms t v (file_of v.dir_entry)

abbrev pub all_platforms : List (Table × Visit) → List Bytes
all_platforms [] = []
all_platforms (tv ∷ vs) = visit_platforms tv ++ all_platforms vs

module _ (offset : ℕ) (mask magic : Bytes) where
  try_headers_lem :
      (platform : Bytes) (hs : List Bytes) (s : State)
      → ((try_headers platform offset mask magic hs s).registered
          ≡ s.registered ++ (if any_header offset mask magic hs then platform ∷ [] else []))
        × ((try_headers platform offset mask magic hs s).global_enabled ≡ s.global_enabled)
  unfolding try_headers
  try_headers_lem platform [] s = (sym (append-nil s.registered), refl)
  try_headers_lem platform (h ∷ hs) s = elim (Bool-cases (magic_match h offset mask magic)) [
    | inl e ↦ rw e (refl, refl)
    | inr e ↦ rw e (try_headers_lem platform hs (record s { global_platform = platform }))
  ]

  emulated_cons :
      (platform : Bytes) (hs : List Bytes) (t : Table)
      → (if any_header offset mask magic hs then platform ∷ [] else [])
          ++ filter_map (emulated offset mask magic) t
        ≡ filter_map (emulated offset mask magic) ((platform, hs) ∷ t)
  unfolding List.filter_map
  emulated_cons platform hs t = elim (Bool-cases (any_header offset mask magic hs)) [
    | inl e ↦ rw e refl
    | inr e ↦ rw e refl
  ]

  pub try_platforms_lem :
      (t : Table) (s : State)
      → ((try_platforms offset mask magic t s).registered
          ≡ s.registered ++ filter_map (emulated offset mask magic) t)
        × ((try_platforms offset mask magic t s).global_enabled ≡ s.global_enabled)
  unfolding try_platforms List.filter_map
  try_platforms_lem [] s = (sym (append-nil s.registered), refl)
  try_platforms_lem ((platform, hs) ∷ t) s =
      let one = try_headers_lem platform hs s in
      let rest = try_platforms_lem t (try_headers platform offset mask magic hs s) in
      (
        rest.0
            ∙ ap (λ l. l ++ filter_map (emulated offset mask magic) t) one.0
            ∙ append_assoc s.registered _ _
            ∙ ap (λ l. s.registered ++ l) (emulated_cons platform hs t),
        rest.1 ∙ one.1,
      )

-- A step goes on only with these platforms added to the registered ones.
abbrev Adds : State → List Bytes → Step → Type 0
Adds s l (proceed s') = s'.registered ≡ s.registered ++ l
Adds s l (halt s' e) = Unit
Adds s l panic = Unit

use_entry-Adds :
    (t : Table) (p : Parsed) (s : State) → Adds s (entry_platforms t p) (use_entry t p s)
unfolding use_entry
use_entry-Adds t (entry (pos offset) magic mask) s = (try_platforms_lem offset mask magic t s).0
use_entry-Adds t (entry (negsuc n) magic mask) s = sym (append-nil s.registered)
use_entry-Adds t ignored s = sym (append-nil s.registered)
use_entry-Adds t (failed e) s = tt
use_entry-Adds t crashed s = tt

same-Adds : (s : State) → Adds s [] (proceed s)
same-Adds s = sym (append-nil s.registered)

use_status-Adds : (path : Bytes) (s : State) (status : Bytes) → Adds s [] (use_status path s status)
unfolding use_status
use_status-Adds path s status =
    if-elim (Adds s []) (eqb status (codes "disabled")) (λ _. same-Adds s)
      λ _. if-elim (Adds s []) (eqb status (codes "enabled")) (λ _. same-Adds s) (λ _. tt)

read_status-Adds : (path : Bytes) (s : State) (f : File) → Adds s [] (read_status path s f)
unfolding read_status
read_status-Adds path s f = by_error f.read_error
  where
    by_error :
        (e : Option Error)
        → Adds s []
            (elim e [ some e ↦ halt s e | none ↦ use_status path s (trim_space f.contents) ])
    by_error none = use_status-Adds path s (trim_space f.contents)
    by_error (some e) = tt

module _ (t : Table) (v : Visit) (s : State) where
  file_adds : Option File → List Bytes
  file_adds o = if eqb v.base (codes "status") then [] else file_platforms t v o

  use_file-Adds : (f : File) → Adds s (file_adds (some f)) (use_file t v s f)
  unfolding use_file file_adds
  use_file-Adds f = elim (Bool-cases (eqb v.base (codes "status"))) [
    | inl e ↦ rw e (read_status-Adds v.path s f)
    | inr e ↦ rw e (use_entry-Adds t (parse_binfmt_misc v.path f.contents) s)
  ]

  nothing-Adds : Adds s (file_adds none) (proceed s)
  unfolding file_adds
  nothing-Adds = elim (Bool-cases (eqb v.base (codes "status"))) [
    | inl e ↦ rw e (same-Adds s)
    | inr e ↦ rw e (same-Adds s)
  ]

  use_dir_entry-Adds :
      (d : Option DirEntry) → Adds s (file_adds (file_of d)) (use_dir_entry t v s d)
  unfolding use_dir_entry
  use_dir_entry-Adds none = tt
  use_dir_entry-Adds (some d) = by_info d.is_regular d.opened
    where
      by_info :
          (i : Result Bool) (o : Result File)
          → Adds s
              (file_adds (file_of (some (record { is_regular = i; opened = o }))))
              (use_dir_entry t v s (some (record { is_regular = i; opened = o })))
      by_info (err e) o = tt
      by_info (ok false) o = nothing-Adds
      by_info (ok true) (err e) = tt
      by_info (ok true) (ok f) = use_file-Adds f

  visit-Adds : Adds s (visit_platforms (t, v)) (visit t v s)
  unfolding visit file_adds
  visit-Adds = elim (Bool-cases (eqb v.base (codes "register"))) [
    | inl e ↦ rw e (same-Adds s)
    | inr e ↦ rw e (by_error v.error)
  ]
    where
      by_error :
          (w : WalkError)
          → Adds s
              (file_adds (file_of v.dir_entry))
              (check_error s w (use_dir_entry t v s v.dir_entry))
      by_error no_error = use_dir_entry-Adds v.dir_entry
      by_error not_exist = use_dir_entry-Adds v.dir_entry
      by_error (other_error e) = tt

walk_dir-Adds : (vs : List (Table × Visit)) (s : State) → Adds s (all_platforms vs) (walk_dir vs s)
unfolding walk_dir
walk_dir-Adds [] s = same-Adds s
walk_dir-Adds ((t, v) ∷ vs) s = by_step (visit t v s) (visit-Adds t v s) (walk_dir-Adds vs)
  where
    by_step :
        (k : Step)
        → Adds s (visit_platforms (t, v)) k
        → ((s' : State) → Adds s' (all_platforms vs) (walk_dir vs s'))
        → Adds s (visit_platforms (t, v) ++ all_platforms vs) (after k (walk_dir vs))
    by_step (halt s' e) a rest = tt
    by_step panic a rest = tt
    by_step (proceed s') a rest = onward (walk_dir vs s') (rest s')
      where
        onward :
            (k : Step)
            → Adds s' (all_platforms vs) k
            → Adds s (visit_platforms (t, v) ++ all_platforms vs) k
        onward (proceed s2) b =
            b ∙ ap (λ l. l ++ all_platforms vs) a ∙ append_assoc s.registered _ _
        onward (halt s2 e) b = tt
        onward panic b = tt

-- When no callback fails or panics, `Registered` returns nothing unless the registry as a whole
-- was enabled at the end, and else, in order, the platforms that the entries emulate: for each
-- entry read those with a header that matches its magic.
pub registered-walk_dir :
    (vs : List (Table × Visit)) (s : State)
    → walk_dir vs initial ≡ proceed s
    → registered vs ≡ some (if s.global_enabled then sort_strings (all_platforms vs) else [])
unfolding registered
registered-walk_dir vs s h =
    let adds : s.registered ≡ all_platforms vs =
      subst (Adds initial (all_platforms vs)) h (walk_dir-Adds vs initial) in
    ap (λ k. warned (returned k)) h ∙ ground arith
