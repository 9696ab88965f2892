-- ===== src/Farm/Answers.antt =====
-- What `Schedule` notes of the answers of its builders.
use mathlib.Core.List.{append-nil, append_assoc}
use buildfarm.Base.{
  List, [], ◌∷◌, ◌++◌, Bool, false, Option, none, some, if◌then◌else◌, Bytes, elem, eqb, eqb_iff,
  ◌≡◌, refl, sym, ◌∙◌, arith,
}
use buildfarm.Base.Map.{lookup, lookup-insert}
use buildfarm.Base.Result.{Error, Result, ok, err}
use buildfarm.Types.{Info, Call}
use buildfarm.Farm.Assign.{or_else}
use buildfarm.Farm.{Builders, Assignment, Notes, note_one, note_first, note, gather}

-- The answers of the builders, in the order of the list.
module _ {W : Type 0} where
  unfoldable pub answers : Builders W → Call W (List (Bytes × Result Info))
  answers [] w = ([], w)
  answers ((name, b) ∷ bs) w =
      let (r, w1) = b.info w in let (rs, w2) = answers bs w1 in ((name, r) ∷ rs, w2)

abbrev pub note_all : List (Bytes × Result Info) → Notes → Notes
note_all [] n = n
note_all ((name, r) ∷ rs) n = note_all rs (note name r n)

module _ {W : Type 0} where
  pub gather-answers :
      (bs : Builders W) (n : Notes) (w : W)
      → gather bs n w ≡ (note_all (answers bs w).0 n, (answers bs w).1)
  unfolding gather answers
  gather-answers [] n w = refl
  gather-answers ((name, b) ∷ bs) n w = gather-answers bs (note name (b.info w).0 n) (b.info w).1

abbrev pub lists_native : Bytes → Result Info → Bool
lists_native p (ok info) = elem p info.native_platforms
lists_native p (err e) = false

abbrev pub lists_emulated : Bytes → Result Info → Bool
lists_emulated p (ok info) = elem p info.emulated_platforms
lists_emulated p (err e) = false

-- The name of the first builder whose answer passes a test.
abbrev pub first_with : (Result Info → Bool) → List (Bytes × Result Info) → Option Bytes
first_with test [] = none
first_with test ((name, r) ∷ rs) = if test r then some name else first_with test rs

-- The builder for a platform: the first that lists it as native, else the first that lists it as
-- emulated.
abbrev pub choice : List (Bytes × Result Info) → Bytes → Option Bytes
choice rs p = or_else (first_with (lists_native p) rs) (first_with (lists_emulated p) rs)

lookup-note_one :
    (name q p : Bytes) (m : Assignment)
    → lookup p (note_one name q m) ≡ or_else (lookup p m) (if eqb q p then some name else none)
unfolding note_one
lookup-note_one name q p m = ground (arith, lookup-insert q p name m, eqb_iff q p)

lookup-note_first :
    (name : Bytes) (ps : List Bytes) (m : Assignment) (p : Bytes)
    → lookup p (note_first name ps m) ≡ or_else (lookup p m) (if elem p ps then some name else none)
lookup-note_first name [] m p = unfold note_first elem in ground arith
lookup-note_first name (q ∷ ps) m p =
    note_first_step name q ps m p
    ∙ lookup-note_first name ps (note_one name q m) p
    ∙ unfold elem in ground (arith, lookup-note_one name q p m)
  where
    note_first_step :
        (name q : Bytes) (ps : List Bytes) (m : Assignment) (p : Bytes)
        → lookup p (note_first name (q ∷ ps) m) ≡ lookup p (note_first name ps (note_one name q m))
    note_first_step name q ps m p = unfold note_first in refl

pub lookup-native :
    (rs : List (Bytes × Result Info)) (n : Notes) (p : Bytes)
    → lookup p (note_all rs n).native ≡ or_else (lookup p n.native) (first_with (lists_native p) rs)
lookup-native [] n p = ground arith
lookup-native ((name, err e) ∷ rs) n p =
    lookup-native rs (note name (err e) n) p ∙ unfold note in refl
lookup-native ((name, ok info) ∷ rs) n p =
    lookup-native rs (note name (ok info) n) p
    ∙ unfold note in ground (arith, lookup-note_first name info.native_platforms n.native p)

pub lookup-emulated :
    (rs : List (Bytes × Result Info)) (n : Notes) (p : Bytes)
    → lookup p (note_all rs n).emulated
      ≡ or_else (lookup p n.emulated) (first_with (lists_emulated p) rs)
lookup-emulated [] n p = ground arith
lookup-emulated ((name, err e) ∷ rs) n p =
    lookup-emulated rs (note name (err e) n) p ∙ unfold note in refl
lookup-emulated ((name, ok info) ∷ rs) n p =
    lookup-emulated rs (note name (ok info) n) p
    ∙ unfold note in ground (arith, lookup-note_first name info.emulated_platforms n.emulated p)

-- The errors that the answers are.
abbrev pub errors_of : List (Bytes × Result Info) → List Error
errors_of [] = []
errors_of ((name, err e) ∷ rs) = e ∷ errors_of rs
errors_of ((name, ok info) ∷ rs) = errors_of rs

pub errors-note_all :
    (rs : List (Bytes × Result Info)) (n : Notes)
    → (note_all rs n).errors ≡ n.errors ++ errors_of rs
errors-note_all [] n = sym (append-nil n.errors)
errors-note_all ((name, err e) ∷ rs) n =
    errors-note_all rs (note name (err e) n)
    ∙ unfold note in append_assoc n.errors (e ∷ []) (errors_of rs)
errors-note_all ((name, ok info) ∷ rs) n =
    errors-note_all rs (note name (ok info) n) ∙ unfold note in refl
