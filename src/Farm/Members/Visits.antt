-- ===== src/Farm/Members/Visits.antt =====
-- What the members of a farm are asked, and what becomes of their answers.
use buildfarm.Base.{
  List, [], ◌∷◌, Option, none, some, if◌then◌else◌, Bytes, eqb, ◌≡◌, refl, ap, sym, ◌∙◌, arith,
}
use mathlib.Core.Path.{subst}
use buildfarm.Base.Sort.{IsNodup}
use buildfarm.Base.Map.{Map, keys, lookup, insert, lookup-insert, insert-IsNodup}
use buildfarm.Base.Result.{Error, Result, ok, err}
use buildfarm.Types.{ImageBuilder, PruneImageOptions, PruneImageReport, Call}
use buildfarm.Farm.{Builders}
use buildfarm.Farm.Assign.{or_else, or_else_assoc}
use buildfarm.Farm.Members.{
  error_or_nil, member_error, for_each, Reports, keep_report, prune_member, prune_images,
  group_error, poll, farm_status,
}

-- One answer to a pruning: the key of the builder, its name, and what it returned.
pub record Pruned : Type 0 where
  pub key : Bytes
  pub name : Bytes
  pub answer : Result PruneImageReport

abbrev pub kept : Result PruneImageReport → Option PruneImageReport
kept (ok r) = some (record { image_ids = r.image_ids; image_names = [] })
kept (err e) = none

-- The last report under a key.
abbrev pub last_kept : Bytes → List Pruned → Option PruneImageReport
last_kept k [] = none
last_kept k (p ∷ ps) = or_else (last_kept k ps) (if eqb p.key k then kept p.answer else none)

abbrev pub failure_of : Result PruneImageReport → Option Error
failure_of (ok r) = none
failure_of (err e) = some e

abbrev pub prune_errors : List Pruned → List Error → List Error
prune_errors [] es = es
prune_errors (p ∷ ps) es = prune_errors ps (member_error p.name (failure_of p.answer) es)

lookup-keep_report :
    (key k : Bytes) (r : Result PruneImageReport) (reports : Reports)
    → lookup k (keep_report key r reports).written
      ≡ or_else (if eqb key k then kept r else none) (lookup k reports)
lookup-keep_report key k (ok r) reports =
    ground
      (arith, lookup-insert key k (record { image_ids = r.image_ids; image_names = [] }) reports)
lookup-keep_report key k (err e) reports = ground arith

module _ {W : Type 0} (join : List Error → Error) (options : PruneImageOptions) where
  -- The answers of all builders, one after the other.
  pub prunes : Builders W → Call W (List Pruned)
  prunes [] w = ([], w)
  prunes ((key, b) ∷ bs) w =
      let (r, w1) = b.prune_images options w in
      let (ps, w2) = prunes bs w1 in (record { key = key; name = b.name; answer = r } ∷ ps, w2)

  prune_step :
      (key : Bytes) (b : ImageBuilder W) (bs : Builders W) (reports : Reports) (es : List Error)
      (w : W)
      → for_each (prune_member join options) ((key, b) ∷ bs) reports es w
        ≡ for_each
            (prune_member join options)
            bs
            (keep_report key (b.prune_images options w).0 reports).written
            (member_error b.name (failure_of (b.prune_images options w).0) es)
            (b.prune_images options w).1
  unfolding for_each
  prune_step key b bs reports es w = by_answer (b.prune_images options w).0
    where
      by_answer :
          (r : Result PruneImageReport)
          → (if (keep_report key r reports).stop
              then (
                (
                  (keep_report key r reports).written,
                  member_error b.name (keep_report key r reports).error es,
                ),
                (b.prune_images options w).1,
              )
              else for_each
                  (prune_member join options)
                  bs
                  (keep_report key r reports).written
                  (member_error b.name (keep_report key r reports).error es)
                  (b.prune_images options w).1)
            ≡ for_each
                (prune_member join options)
                bs
                (keep_report key r reports).written
                (member_error b.name (failure_of r) es)
                (b.prune_images options w).1
      by_answer (ok r) = refl
      by_answer (err e) = refl

  for_each-IsNodup :
      (bs : Builders W) (reports : Reports) (es : List Error) (w : W)
      → IsNodup (keys reports)
      → IsNodup (keys (for_each (prune_member join options) bs reports es w).0.0)
  for_each-IsNodup [] reports es w d = unfold for_each in d
  for_each-IsNodup ((key, b) ∷ bs) reports es w d =
      subst (λ x. IsNodup (keys x.0.0)) (sym (prune_step key b bs reports es w))
        (for_each-IsNodup bs _ _ _ (kept_once (b.prune_images options w).0))
    where
      kept_once : (r : Result PruneImageReport) → IsNodup (keys (keep_report key r reports).written)
      kept_once (err e) = d
      kept_once (ok r) = insert-IsNodup key _ reports d

  pub prune_images-IsNodup :
      (bs : Builders W) (w : W) → IsNodup (keys (prune_images join bs options w).0.0)
  unfolding prune_images
  prune_images-IsNodup bs w = for_each-IsNodup bs [] [] w tt

  for_each-prunes :
      (bs : Builders W) (reports : Reports) (es : List Error) (w : W)
      → ((k : Bytes)
          → lookup k (for_each (prune_member join options) bs reports es w).0.0
            ≡ or_else (last_kept k (prunes bs w).0) (lookup k reports))
        × ((for_each (prune_member join options) bs reports es w).0.1
            ≡ prune_errors (prunes bs w).0 es)
        × ((for_each (prune_member join options) bs reports es w).1 ≡ (prunes bs w).1)
  unfolding prunes
  for_each-prunes [] reports es w = unfold for_each in (λ k. refl, refl, refl)
  for_each-prunes ((key, b) ∷ bs) reports es w =
      let r = (b.prune_images options w).0 in
      let step = prune_step key b bs reports es w in
      let (l, e, v) =
        for_each-prunes bs (keep_report key r reports).written
          (member_error b.name (failure_of r) es) (b.prune_images options w).1 in
      (
        λ k.
            ap (λ x. lookup k x.0.0) step
            ∙ l k
            ∙ ap (or_else (last_kept k (prunes bs (b.prune_images options w).1).0))
                (lookup-keep_report key k r reports)
            ∙ or_else_assoc (last_kept k (prunes bs (b.prune_images options w).1).0)
                (if eqb key k then kept r else none) (lookup k reports),
        ap (λ x. x.0.1) step ∙ e,
        ap (λ x. x.1) step ∙ v,
      )

  -- `PruneImages` asks every builder, whatever the others answer; under a key it returns the IDs
  -- that the builder with that key has removed, without the names, and nothing if that builder
  -- failed; and it returns the errors of all that failed, each with its builder's name.
  pub prune_images-reports :
      (bs : Builders W) (w : W)
      → ((k : Bytes) → lookup k (prune_images join bs options w).0.0 ≡ last_kept k (prunes bs w).0)
        × ((prune_images join bs options w).0.1
            ≡ error_or_nil join (prune_errors (prunes bs w).0 []))
        × ((prune_images join bs options w).1 ≡ (prunes bs w).1)
  unfolding prune_images lookup
  prune_images-reports bs w =
      let (l, e, v) = for_each-prunes bs [] [] w in
      (λ k. l k ∙ or_else_none (last_kept k (prunes bs w).0), ap (error_or_nil join) e, v)
    where
      or_else_none : (o : Option PruneImageReport) → or_else o none ≡ o
      or_else_none none = refl
      or_else_none (some r) = refl

-- What a builder says of its status.
pub record Polled : Type 0 where
  pub name : Bytes
  pub status : Option Error

abbrev pub last_status : Bytes → List Polled → Option (Option Error)
last_status k [] = none
last_status k (p ∷ ps) = or_else (last_status k ps) (if eqb p.name k then some p.status else none)

abbrev pub status_errors : List Polled → List Error → List Error
status_errors [] es = es
status_errors (p ∷ ps) es = status_errors ps (group_error p.status es)

module _ {W : Type 0} (join : List Error → Error) where
  pub polls : Builders W → Call W (List Polled)
  polls [] w = ([], w)
  polls ((key, b) ∷ bs) w =
      let (e, w1) = b.status w in
      let (ps, w2) = polls bs w1 in (record { name = b.name; status = e } ∷ ps, w2)

  poll-polls :
      (bs : Builders W) (m : Map (Option Error)) (es : List Error) (w : W)
      → ((k : Bytes)
          → lookup k (poll join bs m es w).0.0
            ≡ or_else (last_status k (polls bs w).0) (lookup k m))
        × ((poll join bs m es w).0.1 ≡ status_errors (polls bs w).0 es)
        × ((poll join bs m es w).1 ≡ (polls bs w).1)
  unfolding poll polls
  poll-polls [] m es w = (λ k. refl, refl, refl)
  poll-polls ((key, b) ∷ bs) m es w =
      let e = (b.status w).0 in
      let (l, x, v) = poll-polls bs (insert b.name e m) (group_error e es) (b.status w).1 in
      (
        λ k.
            l k
            ∙ ap (or_else (last_status k (polls bs (b.status w).1).0)) (inserted k b.name e)
            ∙ or_else_assoc (last_status k (polls bs (b.status w).1).0)
                (if eqb b.name k then some e else none) (lookup k m),
        x,
        v,
      )
    where
      inserted :
          (k name : Bytes) (e : Option Error)
          → lookup k (insert name e m) ≡ or_else (if eqb name k then some e else none) (lookup k m)
      inserted k name e = ground (arith, lookup-insert name k e m)

  -- `Status` asks every builder, whatever the others answer; it returns, under the name that a
  -- builder gives itself, the status of the last builder of that name, and the errors of all.
  pub farm_status-reports :
      (bs : Builders W) (w : W)
      → ((k : Bytes) → lookup k (farm_status join bs w).0.0 ≡ last_status k (polls bs w).0)
        × ((farm_status join bs w).0.1 ≡ error_or_nil join (status_errors (polls bs w).0 []))
        × ((farm_status join bs w).1 ≡ (polls bs w).1)
  unfolding farm_status lookup
  farm_status-reports bs w =
      let (l, e, v) = poll-polls bs [] [] w in
      (λ k. l k ∙ or_else_none (last_status k (polls bs w).0), ap (error_or_nil join) e, v)
    where
      or_else_none : (o : Option (Option Error)) → or_else o none ≡ o
      or_else_none none = refl
      or_else_none (some r) = refl
