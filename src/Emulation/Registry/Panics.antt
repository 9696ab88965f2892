-- ===== src/Emulation/Registry/Panics.antt =====
-- Where `Registered` panics, and where it cannot.
use mathlib.Core.Path.{subst}
use buildfarm.Base.{
  List, [], ◌∷◌, Bool, true, false, Option, none, some, All, Bytes, codes, eqb, ◌≡◌, ◌≢◌, refl,
  if-elim, Bool-cases, inl, inr, ◌↔◌, sym, ap, ◌∙◌,
}
use buildfarm.Base.Result.{Error, Result, ok, err}
use buildfarm.Emulation.Binfmt.Exits.{parse-ne-crashed}
use buildfarm.Emulation.GoText.{trim_space, pos, negsuc}
use buildfarm.Emulation.Binfmt.{Parsed, entry, ignored, failed, crashed}
use buildfarm.Emulation.Registry.{
  File, DirEntry, WalkError, no_error, not_exist, other_error, Visit, State, Step, proceed, halt,
  panic, Table, use_entry, use_file, use_dir_entry, check_error, visit, after, walk_dir, initial,
  registered, returned, warned, read_status, use_status,
}

abbrev NoPanic : Step → Type 0
NoPanic panic = ⊥
NoPanic _ = Unit

use_entry-NoPanic : (t : Table) (p : Parsed) (s : State) → p ≢ crashed → NoPanic (use_entry t p s)
unfolding use_entry
use_entry-NoPanic t (entry (pos offset) magic mask) s n = tt
use_entry-NoPanic t (entry (negsuc k) magic mask) s n = tt
use_entry-NoPanic t ignored s n = tt
use_entry-NoPanic t (failed e) s n = tt
use_entry-NoPanic t crashed s n = n refl

use_status-NoPanic :
    (path : Bytes) (s : State) (status : Bytes) → NoPanic (use_status path s status)
unfolding use_status
use_status-NoPanic path s status =
    if-elim NoPanic (eqb status (codes "disabled")) (λ _. tt)
      λ _. if-elim NoPanic (eqb status (codes "enabled")) (λ _. tt) (λ _. tt)

read_status-NoPanic : (path : Bytes) (s : State) (f : File) → NoPanic (read_status path s f)
unfolding read_status
read_status-NoPanic path s f = by_error f.read_error
  where
    by_error :
        (e : Option Error)
        → NoPanic (elim e [ some e ↦ halt s e | none ↦ use_status path s (trim_space f.contents) ])
    by_error none = use_status-NoPanic path s (trim_space f.contents)
    by_error (some e) = tt

module _ (t : Table) (v : Visit) (s : State) where
  use_file-NoPanic : (f : File) → NoPanic (use_file t v s f)
  unfolding use_file
  use_file-NoPanic f =
      if-elim NoPanic (eqb v.base (codes "status")) (λ _. read_status-NoPanic v.path s f)
        (λ _. use_entry-NoPanic t _ s (parse-ne-crashed v.path f.contents))

  use_dir_entry-NoPanic : (d : Option DirEntry) → d ≢ none → NoPanic (use_dir_entry t v s d)
  unfolding use_dir_entry
  use_dir_entry-NoPanic none n = n refl
  use_dir_entry-NoPanic (some d) n = by_info d.is_regular d.opened
    where
      by_info :
          (i : Result Bool) (o : Result File)
          → NoPanic (use_dir_entry t v s (some (record { is_regular = i; opened = o })))
      by_info (err e) o = tt
      by_info (ok false) o = tt
      by_info (ok true) (err e) = tt
      by_info (ok true) (ok f) = use_file-NoPanic f

  visit-NoPanic : v.dir_entry ≢ none → NoPanic (visit t v s)
  unfolding visit
  visit-NoPanic n =
      if-elim NoPanic (eqb v.base (codes "register")) (λ _. tt) (λ _. by_error v.error)
    where
      by_error : (w : WalkError) → NoPanic (check_error s w (use_dir_entry t v s v.dir_entry))
      by_error no_error = use_dir_entry-NoPanic v.dir_entry n
      by_error not_exist = use_dir_entry-NoPanic v.dir_entry n
      by_error (other_error e) = tt

module _ (t : Table) (v : Visit) (s : State) where
  visit-register : eqb v.base (codes "register") ≡ true → visit t v s ≡ proceed s
  unfolding visit
  visit-register e = rw e refl

  visit-other :
      eqb v.base (codes "register") ≡ false
      → visit t v s ≡ check_error s v.error (use_dir_entry t v s v.dir_entry)
  unfolding visit
  visit-other e = rw e refl

-- The callback panics exactly where it is called with no directory entry, with no error or with
-- `os.ErrNotExist`, on a path that does not end in "register". WalkDir calls it like that, with
-- `os.ErrNotExist`, for the root of a registry that is missing.
pub visit-panic_iff :
    (t : Table) (v : Visit) (s : State)
    → (visit t v s ≡ panic) ↔ (
        (eqb v.base (codes "register") ≡ false)
        × (v.dir_entry ≡ none)
        × ((e : Error) → v.error ≢ other_error e))
visit-panic_iff t v s = elim (Bool-cases (eqb v.base (codes "register"))) [
  | inl e ↦ (
    λ h. absurd (proceeds (sym (visit-register t v s e) ∙ h)),
    λ p. absurd (differ (sym e ∙ p.0)),
  )
  | inr e ↦ (
    λ h. (e, by_entry v.dir_entry refl h, by_error e v.error refl h),
    λ p. panics e p.1 v.error refl p.2,
  )
]
  where
    proceeds : proceed s ≢ panic
    proceeds h = cc

    stops : (e : Error) → halt s e ≢ panic
    stops e h = cc

    differ : true ≢ false
    differ h = cc

    by_entry : (d : Option DirEntry) → v.dir_entry ≡ d → visit t v s ≡ panic → v.dir_entry ≡ none
    by_entry none q h = q
    by_entry (some d) q h = absurd (subst NoPanic h (visit-NoPanic t v s (λ n. filled (sym q ∙ n))))
      where
        filled : some d ≢ none
        filled h = cc

    by_error :
        eqb v.base (codes "register") ≡ false
        → (w : WalkError) → v.error ≡ w
        → visit t v s ≡ panic
        → (e : Error) → v.error ≢ other_error e
    by_error n w q h e k = stops e (
        sym (ap (λ x. check_error s x (use_dir_entry t v s v.dir_entry)) k)
        ∙ sym (visit-other t v s n)
        ∙ h)

    panics :
        eqb v.base (codes "register") ≡ false
        → v.dir_entry ≡ none
        → (w : WalkError) → v.error ≡ w
        → ((e : Error) → v.error ≢ other_error e)
        → visit t v s ≡ panic
    panics n d (other_error e) q h = absurd (h e q)
    panics n d no_error q h =
        visit-other t v s n
        ∙ ap (λ x. check_error s x (use_dir_entry t v s v.dir_entry)) q
        ∙ ap (use_dir_entry t v s) d
        ∙ unfold use_dir_entry in refl
    panics n d not_exist q h =
        visit-other t v s n
        ∙ ap (λ x. check_error s x (use_dir_entry t v s v.dir_entry)) q
        ∙ ap (use_dir_entry t v s) d
        ∙ unfold use_dir_entry in refl

abbrev pub HasDirEntry : Table × Visit → Type 0
HasDirEntry (t, v) = v.dir_entry ≢ none

walk_dir-NoPanic :
    (vs : List (Table × Visit)) (s : State) → All HasDirEntry vs → NoPanic (walk_dir vs s)
unfolding walk_dir
walk_dir-NoPanic [] s n = tt
walk_dir-NoPanic ((t, v) ∷ vs) s n =
    by_step (visit t v s) (visit-NoPanic t v s n.0) (λ s'. walk_dir-NoPanic vs s' n.1)
  where
    by_step :
        (k : Step)
        → NoPanic k
        → ((s' : State) → NoPanic (walk_dir vs s'))
        → NoPanic (after k (walk_dir vs))
    by_step (proceed s') a rest = rest s'
    by_step (halt s' e) a rest = tt
    by_step panic a rest = a

-- Where every visit has a directory entry, whatever the files hold and whatever fails,
-- `Registered` returns: it does not panic.
pub registered-ne-none : (vs : List (Table × Visit)) → All HasDirEntry vs → registered vs ≢ none
unfolding registered
registered-ne-none vs n = by_step (walk_dir vs initial) (walk_dir-NoPanic vs initial n)
  where
    by_step : (k : Step) → NoPanic k → warned (returned k) ≢ none
    by_step (proceed s) a e = cc
    by_step (halt s x) a e = cc
    by_step panic a e = a
