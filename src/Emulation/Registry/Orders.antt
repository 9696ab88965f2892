-- ===== src/Emulation/Registry/Orders.antt =====
-- `range` over the table of headers goes in no fixed order; the result does not show it.
use mathlib.Core.List.{Perm}
use mathlib.Core.List.Perm
use mathlib.Core.Path.{subst₂}
use buildfarm.Base.{
  ℕ, List, [], ◌∷◌, Bool, true, false, Option, none, some, Bytes, codes, eqb, ◌≡◌, refl, sym, ap,
  ◌∙◌, arith, Bool-cases, inl, inr,
}
use buildfarm.Base.Result.{Error, Result, ok, err}
use buildfarm.Base.Sort.{Perm-sort_strings}
use buildfarm.Emulation.GoText.{pos, negsuc, trim_space}
use buildfarm.Emulation.Binfmt.{Parsed, entry, ignored, failed, crashed, parse_binfmt_misc}
use buildfarm.Emulation.Registry.{
  File, DirEntry, WalkError, no_error, not_exist, other_error, Visit, State, Step, proceed, halt,
  panic, Table, try_platforms, use_entry, use_status, read_status, use_file, use_dir_entry,
  check_error, visit, after, walk_dir, initial, registered_result, registered, returned, warned,
}
use buildfarm.Emulation.Registry.Walk.{emulated, try_platforms_lem}

-- The same but for the order of the registered platforms and for the global variable.
abbrev SameState : State → State → Type 0
SameState s s' = Perm s.registered s'.registered × (s.global_enabled ≡ s'.global_enabled)

abbrev SameStep : Step → Step → Type 0
SameStep (proceed s) (proceed s') = SameState s s'
SameStep (halt s e) (halt s' e') = SameState s s' × (e ≡ e')
SameStep panic panic = Unit
SameStep _ _ = ⊥

module _ (t u : Table) (p : Perm t u) where
  try_platforms-SameState :
      (offset : ℕ) (mask magic : Bytes) (s s' : State)
      → SameState s s'
      → SameState (try_platforms offset mask magic t s) (try_platforms offset mask magic u s')
  try_platforms-SameState offset mask magic s s' h =
      let a = try_platforms_lem offset mask magic t s in
      let b = try_platforms_lem offset mask magic u s' in
      (
        subst₂ Perm (sym a.0) (sym b.0)
            (Perm.append h.0 (Perm.filter_map (emulated offset mask magic) p)),
        a.1 ∙ h.1 ∙ sym b.1,
      )

  use_entry-SameStep :
      (q : Parsed) (s s' : State) → SameState s s' → SameStep (use_entry t q s) (use_entry u q s')
  unfolding use_entry
  use_entry-SameStep (entry (pos offset) magic mask) s s' h =
      try_platforms-SameState offset mask magic s s' h
  use_entry-SameStep (entry (negsuc n) magic mask) s s' h = h
  use_entry-SameStep ignored s s' h = h
  use_entry-SameStep (failed e) s s' h = (h, refl)
  use_entry-SameStep crashed s s' h = tt

  module _ (v : Visit) (s s' : State) (h : SameState s s') where
    use_status-SameStep :
        (path status : Bytes) → SameStep (use_status path s status) (use_status path s' status)
    unfolding use_status
    use_status-SameStep path status = elim (Bool-cases (eqb status (codes "disabled"))) [
      | inl e ↦ rw e (h.0, refl)
      | inr e ↦ elim (Bool-cases (eqb status (codes "enabled"))) [
        | inl f ↦ rw (e, f) (h.0, refl)
        | inr f ↦ rw (e, f) (h, refl)
      ]
    ]

    read_status-SameStep :
        (path : Bytes) (f : File) → SameStep (read_status path s f) (read_status path s' f)
    unfolding read_status
    read_status-SameStep path f = by_error f.read_error
      where
        by_error :
            (e : Option Error)
            → SameStep
                (elim e [ some e ↦ halt s e | none ↦ use_status path s (trim_space f.contents) ])
                (elim e [ some e ↦ halt s' e | none ↦ use_status path s' (trim_space f.contents) ])
        by_error none = use_status-SameStep path (trim_space f.contents)
        by_error (some e) = (h, refl)

    use_file-SameStep : (f : File) → SameStep (use_file t v s f) (use_file u v s' f)
    unfolding use_file
    use_file-SameStep f = elim (Bool-cases (eqb v.base (codes "status"))) [
      | inl e ↦ rw e (read_status-SameStep v.path f)
      | inr e ↦ rw e (use_entry-SameStep (parse_binfmt_misc v.path f.contents) s s' h)
    ]

    use_dir_entry-SameStep :
        (d : Option DirEntry) → SameStep (use_dir_entry t v s d) (use_dir_entry u v s' d)
    unfolding use_dir_entry
    use_dir_entry-SameStep none = tt
    use_dir_entry-SameStep (some d) = by_info d.is_regular d.opened
      where
        by_info :
            (i : Result Bool) (o : Result File)
            → SameStep
                (use_dir_entry t v s (some (record { is_regular = i; opened = o })))
                (use_dir_entry u v s' (some (record { is_regular = i; opened = o })))
        by_info (err e) o = (h, refl)
        by_info (ok false) o = h
        by_info (ok true) (err e) = (h, refl)
        by_info (ok true) (ok f) = use_file-SameStep f

    visit-SameStep : SameStep (visit t v s) (visit u v s')
    unfolding visit
    visit-SameStep = elim (Bool-cases (eqb v.base (codes "register"))) [
      | inl e ↦ rw e h
      | inr e ↦ rw e (by_error v.error)
    ]
      where
        by_error :
            (w : WalkError)
            → SameStep
                (check_error s w (use_dir_entry t v s v.dir_entry))
                (check_error s' w (use_dir_entry u v s' v.dir_entry))
        by_error no_error = use_dir_entry-SameStep v.dir_entry
        by_error not_exist = use_dir_entry-SameStep v.dir_entry
        by_error (other_error e) = (h, refl)

-- The same visits, each with its table in another order.
pub data SameVisits : List (Table × Visit) → List (Table × Visit) → Type 0 where
  none_left : SameVisits [] []
  same_visit :
      {t u : Table} {v : Visit} {vs ws : List (Table × Visit)}
      → Perm t u
      → SameVisits vs ws
      → SameVisits ((t, v) ∷ vs) ((u, v) ∷ ws)

after-SameStep :
    (k k' : Step) (f f' : State → Step)
    → SameStep k k'
    → ((s s' : State) → SameState s s' → SameStep (f s) (f' s'))
    → SameStep (after k f) (after k' f')
after-SameStep (proceed s) (proceed s') f f' h r = r s s' h
after-SameStep (halt s e) (halt s' e') f f' h r = h
after-SameStep panic panic f f' h r = tt
after-SameStep (proceed s) (halt s' e') f f' h r = absurd h
after-SameStep (proceed s) panic f f' h r = absurd h
after-SameStep (halt s e) (proceed s') f f' h r = absurd h
after-SameStep (halt s e) panic f f' h r = absurd h
after-SameStep panic (proceed s') f f' h r = absurd h
after-SameStep panic (halt s' e') f f' h r = absurd h

walk_dir-SameStep :
    {vs ws : List (Table × Visit)} (s s' : State)
    → SameVisits vs ws
    → SameState s s'
    → SameStep (walk_dir vs s) (walk_dir ws s')
unfolding walk_dir
walk_dir-SameStep s s' none_left h = h
walk_dir-SameStep s s' (same_visit {t} {u} {v} {vs} {ws} p r) h =
    after-SameStep (visit t v s) (visit u v s') (walk_dir vs) (walk_dir ws)
      (visit-SameStep t u p v s s' h) (λ q q' k. walk_dir-SameStep q q' r k)

registered_result-same :
    (s s' : State) (e : Option Error)
    → SameState s s'
    → registered_result s e ≡ registered_result s' e
unfolding registered_result
registered_result-same s s' e h = ground (arith, Perm-sort_strings h.0)

returned-same : (k k' : Step) → SameStep k k' → returned k ≡ returned k'
returned-same (proceed s) (proceed s') h = ap some (registered_result-same s s' none h)
returned-same (halt s e) (halt s' e') h =
    ap some (registered_result-same s s' (some e) h.0 ∙ ap (λ x. registered_result s' (some x)) h.1)
returned-same panic panic h = refl
returned-same (proceed s) (halt s' e') h = absurd h
returned-same (proceed s) panic h = absurd h
returned-same (halt s e) (proceed s') h = absurd h
returned-same (halt s e) panic h = absurd h
returned-same panic (proceed s') h = absurd h
returned-same panic (halt s' e') h = absurd h

-- In whatever orders the iterations over the map of headers go, `Registered` returns the same
-- list, fails alike and panics alike.
pub registered-order :
    (vs ws : List (Table × Visit)) → SameVisits vs ws → registered vs ≡ registered ws
unfolding registered
registered-order vs ws h = ap warned (
    returned-same (walk_dir vs initial) (walk_dir ws initial)
      (walk_dir-SameStep initial initial h (Perm.refl [], refl)))
