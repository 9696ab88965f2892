-- ===== src/Farm/Build/Group/History.antt =====
-- What has happened in a group of goroutines of `Build`, turn by turn.
use mathlib.Core.Path.{subst}
use mathlib.Core.List.Permᴰ
use mathlib.Core.List.{Permᴰ}
use buildfarm.Base.{ℕ, List, [], ◌∷◌, ◌++◌, Bytes, ◌≡◌, refl, sym, ap, ◌∙◌}
use buildfarm.Base.Map.{Map, lookup}
use buildfarm.Base.Removal.{Permᴰ-move}
use buildfarm.Types.{BuildOptions}
use buildfarm.Farm.{Assignment}
use buildfarm.Farm.Build.{Uses, Job, Progress, no_progress}
use buildfarm.Farm.Build.Runs.{Run, answer_of, runs, store_run, store_all}
use buildfarm.Farm.Build.Group.{Group, call_builder, write_outcome, Turn, Turns}

module _ {W : Type 0} (uses : Uses W) (files : List Bytes) (options : BuildOptions)
    (jobs : Map (Job W)) where
  -- A build behind others.
  runs-snoc :
      (s : Assignment) (platform name : Bytes) (w : W)
      → let (rs, v) = runs uses files options jobs s w in
        let (a, v1) = answer_of uses files options platform (lookup name jobs) v in
        runs uses files options jobs (s ++ (platform, name) ∷ []) w
        ≡ (rs ++ record { platform = platform; name = name; answer = a } ∷ [], v1)
  runs-snoc [] platform name w = refl
  runs-snoc ((p, n) ∷ s) platform name w =
      let (a, w1) = answer_of uses files options p (lookup n jobs) w in
      ap (λ x. (record { platform = p; name = n; answer = a } ∷ x.0, x.1))
        (runs-snoc s platform name w1)

  store_all-snoc :
      (rs : List (Run W)) (q : Run W) (p : Progress W)
      → store_all uses files options (rs ++ q ∷ []) p
        ≡ store_run uses files options q (store_all uses files options rs p)
  store_all-snoc [] q p = refl
  store_all-snoc (r ∷ rs) q p = store_all-snoc rs q (store_run uses files options r p)

  -- What stands behind a group: the order of the calls so far, and what was written, in its order.
  pub record History (schedule : Assignment) (w : W) (g : Group W) : Type 0 where
    pub called : Assignment
    pub written : List (Run W)
    pub order : Permᴰ (called ++ g.waiting) schedule
    pub outcomes : Permᴰ (written ++ g.running) (runs uses files options jobs called w).0
    pub world : (runs uses files options jobs called w).1 ≡ g.world
    pub progress : g.progress ≡ store_all uses files options written (no_progress uses)

  -- The builds so far with the next one, which is called in the world that they have left.
  runs-next :
      (s : Assignment) (platform name : Bytes) (w v : W)
      → (runs uses files options jobs s w).1 ≡ v
      → let (a, v1) = answer_of uses files options platform (lookup name jobs) v in
        runs uses files options jobs (s ++ (platform, name) ∷ []) w ≡ (
          (runs uses files options jobs s w).0
              ++ record { platform = platform; name = name; answer = a } ∷ [],
          v1,
        )
  runs-next s platform name w v e =
      subst
        (λ x. runs uses files options jobs (s ++ (platform, name) ∷ []) w ≡ (
          (runs uses files options jobs s w).0
              ++ record {
                platform = platform;
                name = name;
                answer = (answer_of uses files options platform (lookup name jobs) x).0;
              }
                ∷ [],
          (answer_of uses files options platform (lookup name jobs) x).1,
        ))
        e (runs-snoc s platform name w)

  Permᴰ-next :
      (q : Run W) (xs ys zs : List (Run W))
      → Permᴰ (xs ++ ys) zs
      → Permᴰ (xs ++ q ∷ ys) (zs ++ q ∷ [])
  Permᴰ-next q xs ys zs p = Permᴰ.trans (Permᴰ.middle q xs ys) (
      Permᴰ.trans (Permᴰ.cons refl (Permᴰ.trans p (Permᴰ.symm (Permᴰ.append-nil zs))))
        (Permᴰ.symm (Permᴰ.middle q zs [])))

  History-Turn :
      (schedule : Assignment) (w : W) {g h : Group W}
      → History schedule w g
      → Turn uses files options jobs g h
      → History schedule w h
  unfolding call_builder write_outcome
  History-Turn schedule w {g} y (Turn.call (platform, name) rest r e) =
      let snoc = runs-next y.called platform name w g.world y.world in
      let a = (answer_of uses files options platform (lookup name jobs) g.world).0 in
      let q : Run W = record { platform = platform; name = name; answer = a } in
      let past = (runs uses files options jobs y.called w).0 in
      subst (History schedule w) (sym e) (record {
        called = y.called ++ (platform, name) ∷ [];
        written = y.written;
        order = Permᴰ.trans (Permᴰ-move (platform, name) y.called r) y.order;
        outcomes =
            subst (Permᴰ (y.written ++ q ∷ g.running)) (sym (ap (λ x. x.0) snoc))
              (Permᴰ-next q y.written g.running past y.outcomes);
        world = ap (λ x. x.1) snoc;
        progress = y.progress;
      })
  History-Turn schedule w {g} y (Turn.write q rest r e) =
      subst (History schedule w) (sym e) (record {
        called = y.called;
        written = y.written ++ q ∷ [];
        order = y.order;
        outcomes = Permᴰ.trans (Permᴰ-move q y.written r) y.outcomes;
        world = y.world;
        progress =
            ap (store_run uses files options q) y.progress
            ∙ sym (store_all-snoc y.written q (no_progress uses));
      })

  pub History-Turns :
      (schedule : Assignment) (w : W) {h g : Group W} {n : ℕ}
      → History schedule w g
      → Turns uses files options jobs h g n
      → History schedule w h
  History-Turns schedule w y Turns.stop = y
  History-Turns schedule w y (Turns.next t ts) =
      History-Turns schedule w (History-Turn schedule w y t) ts
