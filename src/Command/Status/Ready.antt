-- ===== src/Command/Status/Ready.antt =====
-- What `statusCmd` prints.
use buildfarm.Base.{
  List, [], ◌∷◌, ◌++◌, ◌||◌, Option, none, some, Bytes, eqb, elem, any, All, ◌≡◌, ◌≢◌, refl, ap,
  ◌∙◌, arith,
}
use buildfarm.Base.Map.{Map, lookup, insert, keys, elem-keys-insert, insert-IsNodup}
use buildfarm.Base.Sort.{
  IsSorted, IsNodup, sort_strings, sort_strings-IsSorted, sort_strings-IsNodup, elem-sort_strings,
}
use buildfarm.Base.Result.{Error, ok}
use buildfarm.Farm.{Builders}
use buildfarm.Farm.Members.{group_error, poll, farm_status, error_or_nil}
use buildfarm.Farm.Members.Visits.{Polled, last_status, status_errors, polls, farm_status-reports}
use buildfarm.Farm.Open.{OpenFarm}
use buildfarm.Command.{Settings, Globals, Outside, get_farm, named_farm}
use buildfarm.Command.Opening.{on_farm-opened}
use buildfarm.Command.Status.{
  ready_line, status_at, status_lines, print_status, run_status, status_cmd,
}

-- A line for each name, that it is ready.
pub ready_lines : List Bytes → Bytes
ready_lines [] = []
ready_lines (n ∷ ns) = ready_line n ++ ready_lines ns

-- No status in the map is an error.
abbrev AllReady : Map (Option Error) → Type 0
AllReady m = (n : Bytes) → status_at (lookup n m) ≡ none

status_lines-ready :
    (show_error : Error → Bytes) (m : Map (Option Error)) (ns : List Bytes)
    → AllReady m
    → status_lines show_error m ns ≡ ready_lines ns
unfolding status_lines ready_lines
status_lines-ready show_error m [] h = refl
status_lines-ready show_error m (n ∷ ns) h =
    rw (h n) (ap (λ t. ready_line n ++ t) (status_lines-ready show_error m ns h))

-- Every builder that was asked has answered without an error.
abbrev pub AllUp : List Polled → Type 0
AllUp ps = All (λ p. p.status ≡ none) ps

last_status-up : (ps : List Polled) (n : Bytes) → AllUp ps → status_at (last_status n ps) ≡ none
last_status-up [] n h = refl
last_status-up (p ∷ ps) n h = ground (arith, h.0, last_status-up ps n h.1)

append-ne-nil : (es : List Error) (e : Error) → es ++ e ∷ [] ≢ []
append-ne-nil [] e h = cc
append-ne-nil (x ∷ es) e h = cc

group_error-nil :
    (e : Option Error) (es : List Error) → group_error e es ≡ [] → (e ≡ none) × (es ≡ [])
group_error-nil none es h = (refl, h)
group_error-nil (some e) es h = absurd (append-ne-nil es e h)

status_errors-up : (ps : List Polled) → AllUp ps → status_errors ps [] ≡ []
status_errors-up [] h = refl
status_errors-up (p ∷ ps) h = rw h.0 (status_errors-up ps h.1)

-- Without an error in the end every builder was up.
up-status_errors :
    (ps : List Polled) (es : List Error) → status_errors ps es ≡ [] → (es ≡ []) × AllUp ps
up-status_errors [] es h = (h, tt)
up-status_errors (p ∷ ps) es h =
    let (e, up) = up-status_errors ps (group_error p.status es) h in
    let (q, k) = group_error-nil p.status es e in (k, (q, up))

pub error_or_nil-none :
    (join : List Error → Error) (es : List Error) → none ≡ error_or_nil join es → es ≡ []
error_or_nil-none join [] h = refl
error_or_nil-none join (e ∷ es) h = cc

pub some-ne-none : {e : Error} → some e ≢ none
some-ne-none h = cc

module _ {W : Type 0} (join : List Error → Error) where
  elem-keys-poll :
      (bs : Builders W) (m : Map (Option Error)) (es : List Error) (w : W) (n : Bytes)
      → elem n (keys (poll join bs m es w).0.0)
        ≡ (any (λ (k, b). eqb b.name n) bs || elem n (keys m))
  unfolding poll
  elem-keys-poll [] m es w n = refl
  elem-keys-poll ((key, b) ∷ bs) m es w n =
      let e = (b.status w).0 in
      ground (
        arith,
        elem-keys-poll bs (insert b.name e m) (group_error e es) (b.status w).1 n,
        elem-keys-insert b.name n e m,
      )

  poll-IsNodup :
      (bs : Builders W) (m : Map (Option Error)) (es : List Error) (w : W)
      → IsNodup (keys m)
      → IsNodup (keys (poll join bs m es w).0.0)
  unfolding poll
  poll-IsNodup [] m es w h = h
  poll-IsNodup ((key, b) ∷ bs) m es w h =
      poll-IsNodup bs (insert b.name (b.status w).0 m) (group_error (b.status w).0 es)
        (b.status w).1 (insert-IsNodup b.name (b.status w).0 m h)

module _ {W : Type 0} (outside : Outside W) where
  -- The names in `l`, sorted and each once, are those that the builders give themselves.
  pub record Names (bs : Builders W) (l : List Bytes) : Type 0 where
    pub sorted : IsSorted l
    pub nodup : IsNodup l
    pub members : (n : Bytes) → elem n l ≡ any (λ (k, b). eqb b.name n) bs

  print-ready :
      (m : Map (Option Error)) (ps : List Polled) (e : Option Error)
      → ((n : Bytes) → lookup n m ≡ last_status n ps)
      → e ≡ error_or_nil outside.connections.join (status_errors ps [])
      → let r = print_status outside.show_error m e in
        (AllUp ps → (r.1 ≡ none) × (r.0 ≡ ready_lines (sort_strings (keys m))))
        × (¬ AllUp ps → (r.1 ≢ none) × (r.0 ≡ []))
  print-ready m ps none found q =
      let no_errors = error_or_nil-none outside.connections.join (status_errors ps []) q in
      let (_, up) = up-status_errors ps [] no_errors in
      (
        λ _. (
          refl,
          status_lines-ready outside.show_error m (sort_strings (keys m))
              (λ n. ap status_at (found n) ∙ last_status-up ps n up),
        ),
        λ down. absurd (down up),
      )
  print-ready m ps (some x) found q = (
    λ up.
        absurd
          (some-ne-none (q ∙ ap (error_or_nil outside.connections.join) (status_errors-up ps up))),
    λ _. (λ k. some-ne-none k, refl),
  )

  -- Once the farm is open, `status` asks every builder for its status. If all are up, it prints a
  -- line for each name that the builders give themselves, in order, that it is ready; if one is not,
  -- the command fails and prints nothing, neither which builder it is nor which ones are ready.
  pub status_cmd-ready :
      (args : List Bytes) (s : Settings) (g : Globals W) (f : OpenFarm W) (w v : W)
      → get_farm outside (named_farm args s) g w ≡ (ok f, v)
      → let (ran, after) = status_cmd outside args s g w in
        let (ps, asked) = polls outside.connections.join f.builders v in
        (after ≡ asked)
        × (AllUp ps
            → (ran.error ≡ none)
              × (l : List Bytes) × Names f.builders l
              × (ran.printed ≡ ready_lines l))
        × (¬ AllUp ps → (ran.error ≢ none) × (ran.printed ≡ []))
  unfolding status_cmd farm_status lookup
  status_cmd-ready args s g f w v h =
      let join = outside.connections.join in
      let m = (poll join f.builders [] [] v).0.0 in
      let (found, errors, asked) = farm_status-reports join f.builders v in
      let (works, fails) =
        print-ready m (polls join f.builders v).0
          (error_or_nil join (poll join f.builders [] [] v).0.1) found errors in
      rw (on_farm-opened outside (named_farm args s) g (run_status outside) f w v h) (
        asked,
        λ up. (
          (works up).0,
          sort_strings (keys m),
          record {
            sorted = sort_strings-IsSorted (keys m);
            nodup = sort_strings-IsNodup (keys m) (poll-IsNodup join f.builders [] [] v tt);
            members = λ n.
                elem-sort_strings n (keys m)
                ∙ elem-keys-poll join f.builders [] [] v n
                ∙ unfold elem in ground arith;
          },
          (works up).1,
        ),
        fails,
      )
