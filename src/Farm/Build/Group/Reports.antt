-- ===== src/Farm/Build/Group/Reports.antt =====
-- The reports and the errors of builds of `Build`, written in another order.
use mathlib.Core.Path.{subst, ap₂}
use mathlib.Core.List.Permᴰ
use mathlib.Core.List.{Permᴰ}
use buildfarm.Base.{
  List, ◌∷◌, ◌++◌, Option, none, if◌then◌else◌, Bytes, eqb, eqb_iff, elem, ◌≡◌, refl, ap, ◌∙◌,
  arith,
}
use buildfarm.Base.Removal.{Permᴰ-exchange, Permᴰ-IsNodup}
use buildfarm.Base.Sort.{IsNodup}
use buildfarm.Types.{BuildOptions}
use buildfarm.Farm.Assign.{or_else}
use buildfarm.Farm.Build.{Uses, Built}
use buildfarm.Farm.Build.Runs.{Run, run_errors, error_of, report_of, last_report, platforms_of}

module _ {W : Type 0} (uses : Uses W) (files : List Bytes) (options : BuildOptions) where
  -- The reports do not depend on the order in which they are written, if the platforms differ.
  pub platforms_of-Permᴰ :
      {rs qs : List (Run W)}
      → Permᴰ rs qs
      → Permᴰ (platforms_of uses files options rs) (platforms_of uses files options qs)
  platforms_of-Permᴰ Permᴰ.nil = Permᴰ.nil
  platforms_of-Permᴰ (Permᴰ.cons e p) = Permᴰ.cons (ap (λ q. q.platform) e) (platforms_of-Permᴰ p)
  platforms_of-Permᴰ (Permᴰ.swap e f) = Permᴰ.swap (ap (λ q. q.platform) e) (ap (λ q. q.platform) f)
  platforms_of-Permᴰ (Permᴰ.trans p q) = Permᴰ.trans (platforms_of-Permᴰ p) (platforms_of-Permᴰ q)

  -- What a build says of a platform.
  abbrev report_at : Bytes → Run W → Option (Built W)
  report_at k q = if eqb q.platform k then report_of uses files options q else none

  report_at-exchange :
      (k : Bytes) (a b : Run W) (l : List (Run W)) (o : Option (Built W))
      → IsNodup (platforms_of uses files options (a ∷ b ∷ l))
      → or_else (or_else o (report_at k b)) (report_at k a)
        ≡ or_else (or_else o (report_at k a)) (report_at k b)
  unfolding elem
  report_at-exchange k a b l o d =
      ground (arith, eqb_iff a.platform k, eqb_iff b.platform k, eqb_iff b.platform a.platform)

  pub last_report-Permᴰ :
      (k : Bytes) {rs qs : List (Run W)}
      → Permᴰ rs qs
      → IsNodup (platforms_of uses files options rs)
      → last_report uses files options k rs ≡ last_report uses files options k qs
  last_report-Permᴰ k Permᴰ.nil d = refl
  last_report-Permᴰ k (Permᴰ.cons {a = a} {b = b} e p) d =
      ap₂ (λ o q. or_else o (if eqb q.platform k then report_of uses files options q else none))
        (last_report-Permᴰ k p d.1) e
  last_report-Permᴰ k (Permᴰ.swap {a = a} {b = b} {l = l} e f) d =
      let o = last_report uses files options k l in
      report_at-exchange k a b l o d
      ∙ ap₂ (λ x y. or_else (or_else o (report_at k x)) (report_at k y)) e f
  last_report-Permᴰ k (Permᴰ.trans p q) d =
      last_report-Permᴰ k p d ∙ last_report-Permᴰ k q (Permᴰ-IsNodup (platforms_of-Permᴰ p) d)

  pub run_errors-Permᴰ :
      {rs qs : List (Run W)}
      → Permᴰ rs qs
      → Permᴰ (run_errors uses files options rs) (run_errors uses files options qs)
  run_errors-Permᴰ Permᴰ.nil = Permᴰ.nil
  run_errors-Permᴰ (Permᴰ.cons {a = a} {l₁ = l₁} {l₂ = l} e p) =
      subst
        (λ q.
          Permᴰ (run_errors uses files options (a ∷ l₁))
            (error_of uses files options q ++ run_errors uses files options l))
        e (Permᴰ.append_left (error_of uses files options a) (run_errors-Permᴰ p))
  run_errors-Permᴰ (Permᴰ.swap {a = a} {b = b} {b' = b'} {l = l} e f) =
      let err_of = λ (q : Run W). error_of uses files options q in
      let rest = run_errors uses files options l in
      subst (λ x. Permᴰ (err_of a ++ (err_of b ++ rest)) (err_of x ++ (err_of b' ++ rest))) f
        (subst (λ y. Permᴰ (err_of a ++ (err_of b ++ rest)) (err_of b ++ (err_of y ++ rest))) e
          (Permᴰ-exchange (err_of a) (err_of b) rest))
  run_errors-Permᴰ (Permᴰ.trans p q) = Permᴰ.trans (run_errors-Permᴰ p) (run_errors-Permᴰ q)
