-- ===== src/Emulation/Registry/Switch.antt =====
-- Only the file "status" turns the registry on, and what an error before it does.
use mathlib.Core.Path.{subst}
use buildfarm.Base.{
  List, [], ◌∷◌, ◌++◌, Bool, true, false, Option, none, some, All, codes, eqb, ◌≡◌, refl, ap, ◌∙◌,
  if-elim,
}
use buildfarm.Base.Result.{Error, Result, ok, err}
use buildfarm.Emulation.GoText.{pos, negsuc}
use buildfarm.Emulation.Binfmt.{Parsed, entry, ignored, failed, crashed, parse_binfmt_misc}
use buildfarm.Emulation.Registry.{
  File, DirEntry, WalkError, no_error, not_exist, other_error, Visit, State, Step, proceed, halt,
  panic, Table, use_entry, use_file, use_dir_entry, check_error, visit, after, walk_dir, initial,
  registered_binfmt_misc, returned,
}
use buildfarm.Emulation.Registry.Walk.{try_platforms_lem}

-- Whatever a step leaves has the registry switch as it was.
abbrev KeepsSwitch : State → Step → Type 0
KeepsSwitch s (proceed s') = s'.global_enabled ≡ s.global_enabled
KeepsSwitch s (halt s' e) = s'.global_enabled ≡ s.global_enabled
KeepsSwitch s panic = Unit

use_entry-KeepsSwitch : (t : Table) (p : Parsed) (s : State) → KeepsSwitch s (use_entry t p s)
unfolding use_entry
use_entry-KeepsSwitch t (entry (pos offset) magic mask) s =
    (try_platforms_lem offset mask magic t s).1
use_entry-KeepsSwitch t (entry (negsuc n) magic mask) s = refl
use_entry-KeepsSwitch t ignored s = refl
use_entry-KeepsSwitch t (failed e) s = refl
use_entry-KeepsSwitch t crashed s = tt

module _ (t : Table) (v : Visit) (s : State) (n : eqb v.base (codes "status") ≡ false) where
  use_file-KeepsSwitch : (f : File) → KeepsSwitch s (use_file t v s f)
  unfolding use_file
  use_file-KeepsSwitch f = rw n (use_entry-KeepsSwitch t (parse_binfmt_misc v.path f.contents) s)

  use_dir_entry-KeepsSwitch : (d : Option DirEntry) → KeepsSwitch s (use_dir_entry t v s d)
  unfolding use_dir_entry
  use_dir_entry-KeepsSwitch none = tt
  use_dir_entry-KeepsSwitch (some d) = by_info d.is_regular d.opened
    where
      by_info :
          (i : Result Bool) (o : Result File)
          → KeepsSwitch s (use_dir_entry t v s (some (record { is_regular = i; opened = o })))
      by_info (err e) o = refl
      by_info (ok false) o = refl
      by_info (ok true) (err e) = refl
      by_info (ok true) (ok f) = use_file-KeepsSwitch f

  visit-KeepsSwitch : KeepsSwitch s (visit t v s)
  unfolding visit
  visit-KeepsSwitch =
      if-elim (KeepsSwitch s) (eqb v.base (codes "register")) (λ _. refl) (λ _. by_error v.error)
    where
      by_error : (w : WalkError) → KeepsSwitch s (check_error s w (use_dir_entry t v s v.dir_entry))
      by_error no_error = use_dir_entry-KeepsSwitch v.dir_entry
      by_error not_exist = use_dir_entry-KeepsSwitch v.dir_entry
      by_error (other_error e) = refl

abbrev pub IsNoStatus : Table × Visit → Type 0
IsNoStatus (t, v) = eqb v.base (codes "status") ≡ false

walk_dir-KeepsSwitch :
    (vs : List (Table × Visit)) (s : State) → All IsNoStatus vs → KeepsSwitch s (walk_dir vs s)
unfolding walk_dir
walk_dir-KeepsSwitch [] s n = refl
walk_dir-KeepsSwitch ((t, v) ∷ vs) s n =
    by_step (visit t v s) (visit-KeepsSwitch t v s n.0) (λ s'. walk_dir-KeepsSwitch vs s' n.1)
  where
    by_step :
        (k : Step)
        → KeepsSwitch s k
        → ((s' : State) → KeepsSwitch s' (walk_dir vs s'))
        → KeepsSwitch s (after k (walk_dir vs))
    by_step (halt s' e) a rest = a
    by_step panic a rest = tt
    by_step (proceed s') a rest = onward (walk_dir vs s') (rest s')
      where
        onward : (k : Step) → KeepsSwitch s' k → KeepsSwitch s k
        onward (proceed s2) b = b ∙ a
        onward (halt s2 e) b = b ∙ a
        onward panic b = tt

walk_dir-append :
    (vs ws : List (Table × Visit)) (s : State)
    → walk_dir (vs ++ ws) s ≡ after (walk_dir vs s) (walk_dir ws)
unfolding walk_dir
walk_dir-append [] ws s = refl
walk_dir-append ((t, v) ∷ vs) ws s = by_step (visit t v s) (walk_dir-append vs ws)
  where
    by_step :
        (k : Step)
        → ((s' : State) → walk_dir (vs ++ ws) s' ≡ after (walk_dir vs s') (walk_dir ws))
        → after k (walk_dir (vs ++ ws)) ≡ after (after k (walk_dir vs)) (walk_dir ws)
    by_step (proceed s') h = h s'
    by_step (halt s' e) h = refl
    by_step panic h = refl

-- An error at an entry that WalkDir visits before the file "status" is lost: the walk ends there
-- with the registry still taken for disabled, and the result is no platform and no error, whatever
-- the visits that would have followed hold.
pub registered-early_error :
    (vs ws : List (Table × Visit)) (s : State) (e : Error)
    → All IsNoStatus vs
    → walk_dir vs initial ≡ halt s e
    → registered_binfmt_misc (vs ++ ws) ≡ some ([], none)
unfolding registered_binfmt_misc
registered-early_error vs ws s e n h =
    let off : s.global_enabled ≡ false =
      subst (KeepsSwitch initial) h (walk_dir-KeepsSwitch vs initial n) in
    ap returned (walk_dir-append vs ws initial ∙ ap (λ k. after k (walk_dir ws)) h) ∙ rw off refl
