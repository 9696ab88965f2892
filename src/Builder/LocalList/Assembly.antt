-- ===== src/Builder/LocalList/Assembly.antt =====
-- What it takes for the list builder to succeed.
use buildfarm.Base.{
  ℕ, List, [], ◌∷◌, ◌++◌, true, Option, none, some, Bytes, elem, eqb_refl, ◌≡◌, ◌≢◌, refl, ◌∙◌,
  arith, All,
}
use buildfarm.Base.Map.{Map, keys, elem-keys-insert}
use buildfarm.Base.Result.{Error, wrapf, Result, ok, err}
use buildfarm.Types.{BuildReport, ImageBuilder, ListBuilderOptions}
use buildfarm.Builder.LocalList.{
  Storage, Images, Pulled, pull_options, note_pull, pull_all, after_pull, nothing_pulled, with_list,
  after_removal, clear_inspected, fill_cleared, fill_list, with_runtime, with_engine,
  local_list_build,
}

append-ne : (xs : List Error) (e : Error) → xs ++ e ∷ [] ≢ []
append-ne [] e h = cc
append-ne (x ∷ xs) e h = cc

module _ {W : Type 0} (engine : ℕ) where
  -- An image has been pulled, and its reference is among the ones that go into the list.
  abbrev pub IsPulled : Map (ImageBuilder W) → BuildReport × ImageBuilder W → Type 0
  IsPulled refs (image, b) =
      (v : W) × (ref : Bytes) × ((b.pull_to_local (pull_options engine image) v).0 ≡ ok ref)
      × (elem ref (keys refs) ≡ true)

  note_pull-ok :
      (image : BuildReport) (b : ImageBuilder W) (r : Result Bytes) (p : Pulled W)
      → (note_pull image b r p).errors ≡ []
      → (p.errors ≡ [])
        × ((ref : Bytes) × (r ≡ ok ref) × (elem ref (keys (note_pull image b r p).refs) ≡ true))
        × ((k : Bytes)
            → elem k (keys p.refs) ≡ true
            → elem k (keys (note_pull image b r p).refs) ≡ true)
  note_pull-ok image b (err e) p h = absurd (append-ne p.errors _ h)
  note_pull-ok image b (ok ref) p h = (
    h,
    (ref, refl, elem-keys-insert ref ref b p.refs ∙ ground (arith, eqb_refl ref)),
    λ k e. elem-keys-insert ref k b p.refs ∙ ground arith,
  )

  pull_all-ok :
      (images : Images W) (p : Pulled W) (w : W)
      → (pull_all engine images p w).0.errors ≡ []
      → (p.errors ≡ [])
        × All (IsPulled (pull_all engine images p w).0.refs) images
        × ((k : Bytes)
            → elem k (keys p.refs) ≡ true
            → elem k (keys (pull_all engine images p w).0.refs) ≡ true)
  unfolding pull_all
  pull_all-ok [] p w h = (h, tt, λ k e. e)
  pull_all-ok ((image, b) ∷ rest) p w h =
      let r = (b.pull_to_local (pull_options engine image) w).0 in
      let (e, all, keep) =
        pull_all-ok rest (note_pull image b r p) (b.pull_to_local (pull_options engine image) w).1
          h in
      let (e1, one, kept) = note_pull-ok image b r p e in
      let (ref, q, there_is) = one in
      (e1, ((w, ref, q, keep ref there_is), all), λ k x. keep k (kept k x))

module _ {W : Type 0} (s : Storage W) (name : Bytes) (options : ListBuilderOptions) where
  -- The list has taken a reference.
  abbrev pub IsAdded : ℕ → Bytes × ImageBuilder W → Type 0
  IsAdded list x = (v : W) × ((s.add list x.0 v).0 ≡ none)

  fill_list-ok :
      (list : ℕ) (refs : Map (ImageBuilder W)) (w : W) (r : Bytes)
      → (fill_list s name options list refs w).0 ≡ ok r
      → (r ≡ name) × All (IsAdded list) refs
  unfolding fill_list
  fill_list-ok list [] w r h = (ground arith, tt)
  fill_list-ok list ((ref, b) ∷ rest) w r h =
      by_added (s.add list ref w).0 refl (fill_list-ok list rest (s.add list ref w).1 r) h
    where
      next : Result Bytes × W
      next = fill_list s name options list rest (s.add list ref w).1

      by_added :
          (e : Option Error)
          → (s.add list ref w).0 ≡ e
          → ((fill_list s name options list rest (s.add list ref w).1).0 ≡ ok r
              → (r ≡ name) × All (IsAdded list) rest)
          → (elim e as (λ _. Result Bytes × W) [
            | none ↦ (next.0, next.1)
            | some x ↦
                (err (wrapf "adding image %q to list: %w" (ref ∷ []) x), (s.add list ref w).1)
          ]).0
            ≡ ok r
          → (r ≡ name) × All (IsAdded list) ((ref, b) ∷ rest)
      by_added (some x) q ih k = cc
      by_added none q ih k = let (n, all) = ih k in (n, ((w, q), all))

  -- A list that has been saved: every image has been pulled, and the list has taken the reference
  -- of each.
  pub record Saved (images : Images W) : Type 0 where
    pub engine : ℕ
    pub list : ℕ
    pub refs : Map (ImageBuilder W)
    pub pulled : All (IsPulled engine refs) images
    pub added : All (IsAdded list) refs

  fill_cleared-ok :
      (list : ℕ) (refs : Map (ImageBuilder W)) (e : Option Error) (w : W) (r : Bytes)
      → (fill_cleared s name options list refs e w).0 ≡ ok r
      → (r ≡ name) × All (IsAdded list) refs
  fill_cleared-ok list refs (some e) w r h = cc
  fill_cleared-ok list refs none w r h = fill_list-ok list refs w r h

  clear_inspected-ok :
      (list : ℕ) (refs : Map (ImageBuilder W)) (i : Result (List Bytes)) (w : W) (r : Bytes)
      → (clear_inspected s name options list refs i w).0 ≡ ok r
      → (r ≡ name) × All (IsAdded list) refs
  clear_inspected-ok list refs (err e) w r h = cc
  clear_inspected-ok list refs (ok digests) w r h = fill_cleared-ok list refs _ _ r h

  after_removal-ok :
      (list : ℕ) (refs : Map (ImageBuilder W)) (es : List Error) (w : W) (r : Bytes)
      → (after_removal s name options list refs es w).0 ≡ ok r
      → (r ≡ name) × All (IsAdded list) refs
  after_removal-ok list refs (e ∷ es) w r h = cc
  after_removal-ok list refs [] w r h = clear_inspected-ok list refs _ _ r h

  after_pull-ok :
      (list : ℕ) (images : Images W) (refs : Map (ImageBuilder W)) (es : List Error) (w : W)
      (r : Bytes)
      → (after_pull s name options list images refs es w).0 ≡ ok r
      → (es ≡ []) × (r ≡ name) × All (IsAdded list) refs
  after_pull-ok list images refs (e ∷ es) w r h = cc
  after_pull-ok list images refs [] w r h =
      let (n, all) = after_removal-ok list refs _ _ r h in (refl, n, all)

  with_list-ok :
      (engine : ℕ) (images order : Images W) (l : Result ℕ) (w : W) (r : Bytes)
      → (with_list s name options engine images order l w).0 ≡ ok r
      → (r ≡ name) × Saved images
  with_list-ok engine images order (err e) w r h = cc
  with_list-ok engine images order (ok list) w r h =
      let p = pull_all engine images nothing_pulled w in
      let (no_errors, n, all) = after_pull-ok list order p.0.refs p.0.errors p.1 r h in
      let (_, pulled, _) = pull_all-ok engine images nothing_pulled w no_errors in
      (n, record { engine = engine; list = list; refs = p.0.refs; pulled = pulled; added = all })

  with_runtime-ok :
      (engine : ℕ) (images order : Images W) (e : Option Error) (w : W) (r : Bytes)
      → (with_runtime s name options engine images order e w).0 ≡ ok r
      → (r ≡ name) × Saved images
  with_runtime-ok engine images order (some e) w r h = cc
  with_runtime-ok engine images order none w r h = with_list-ok engine images order _ _ r h

  with_engine-ok :
      (images order : Images W) (e : Result ℕ) (w : W) (r : Bytes)
      → (with_engine s name options images order e w).0 ≡ ok r
      → (r ≡ name) × Saved images
  with_engine-ok images order (err e) w r h = cc
  with_engine-ok images order (ok engine) w r h = with_runtime-ok engine images order _ _ r h

  -- If the list builder succeeds, it returns the name of its list; then every image has been pulled
  -- into local storage by the builder that has it, and each reference that the pulls returned has
  -- been added to the list.
  pub local_list_build-ok :
      (images order : Images W) (w : W) (r : Bytes)
      → (local_list_build s name options images order w).0 ≡ ok r
      → (r ≡ name) × Saved images
  unfolding local_list_build
  local_list_build-ok images order w r h =
      with_engine-ok images order (s.new_engine w).0 (s.new_engine w).1 r h
