-- ===== src/Command/Build/Args.antt =====
-- The build arguments of `buildCmd`, against a description of what the last one for a name says.
use mathlib.Core.List.{append_assoc, append-nil}
use buildfarm.Base.{
  List, [], ◌∷◌, ◌++◌, Bool, true, false, Option, none, some, if◌then◌else◌, ◌==◌, Bytes, eqb, ◌≡◌,
  refl, sym, ap, ◌∙◌, inl, inr, Bool-cases,
}
use buildfarm.Base.Map.{Map, lookup, lookup-insert, lookup-delete}
use buildfarm.Builder.Local.{split_n}
use buildfarm.Command.Build.{args_of, put_arg, put_args}

-- What stands before the first `=`, and what stands behind it, if there is one.
pub name_of : Bytes → Bytes
name_of [] = []
name_of (x ∷ xs) = if x == b'=' then [] else x ∷ name_of xs

pub value_of : Bytes → Option Bytes
value_of [] = none
value_of (x ∷ xs) = if x == b'=' then some xs else value_of xs

-- What the last argument for `k` says: a value, or that there is none.
pub last_arg : Bytes → List Bytes → Option (Option Bytes)
last_arg k [] = none
last_arg k (a ∷ rest) = elim (last_arg k rest) [
  | some v ↦ some v
  | none ↦ if eqb (name_of a) k then some (value_of a) else none
]

abbrev with_value : Option Bytes → List Bytes
with_value none = []
with_value (some v) = v ∷ []

split-name_of :
    (part s : Bytes) → split_n b'=' 1 part s ≡ (part ++ name_of s) ∷ with_value (value_of s)
unfolding split_n name_of value_of
split-name_of part [] = ap (λ t. t ∷ []) (sym (append-nil part))
split-name_of part (x ∷ s) = elim (Bool-cases (x == b'=')) [
  | inl e ↦ rw e (ap (λ t. t ∷ s ∷ []) (sym (append-nil part)))
  | inr e ↦ rw e (
      split-name_of (part ++ x ∷ []) s
      ∙ ap (λ t. t ∷ with_value (value_of s)) (append_assoc part (x ∷ []) (name_of s)))
]

abbrev said : Option (Option Bytes) → Option Bytes → Option Bytes
said none before = before
said (some v) before = v

said_twice :
    (l : Option (Option Bytes)) (b : Bool) (v o : Option Bytes)
    → said l (if b then v else o)
      ≡ said (elim l [ some v ↦ some v | none ↦ if b then some v else none ]) o
said_twice none true v o = refl
said_twice none false v o = refl
said_twice (some w) b v o = refl

lookup-put_arg :
    (k name : Bytes) (value : Option Bytes) (m : Map Bytes)
    → lookup k (put_arg (name ∷ with_value value) m) ≡ (if eqb name k then value else lookup k m)
lookup-put_arg k name none m = lookup-delete name k m
lookup-put_arg k name (some v) m = lookup-insert name k v m

put_args-from :
    (k : Bytes) (rest : List Bytes) (m : Option (Map Bytes))
    → lookup k (args_of (put_args rest m)) ≡ said (last_arg k rest) (lookup k (args_of m))
unfolding put_args last_arg
put_args-from k [] m = refl
put_args-from k (a ∷ rest) m =
    let next = put_arg (split_n b'=' 1 [] a) (args_of m) in
    put_args-from k rest (some next)
    ∙ ap (said (last_arg k rest)) (
        ap (λ t. lookup k (put_arg t (args_of m))) (split-name_of [] a)
        ∙ lookup-put_arg k (name_of a) (value_of a) (args_of m))
    ∙ said_twice (last_arg k rest) (eqb (name_of a) k) (value_of a) (lookup k (args_of m))

-- The build arguments of a command: the last `--build-arg` for a name decides, with a value if it has
-- an `=`, and otherwise by taking the name out; other names keep what they had.
pub lookup-put_args :
    (k : Bytes) (args : List Bytes) (m : Option (Map Bytes))
    → lookup k (args_of (put_args args m))
      ≡ (elim (last_arg k args) [ some v ↦ v | none ↦ lookup k (args_of m) ])
lookup-put_args k args m = put_args-from k args m ∙ by_said (last_arg k args) (lookup k (args_of m))
  where
    by_said :
        (l : Option (Option Bytes)) (o : Option Bytes)
        → said l o ≡ (elim l [ some v ↦ v | none ↦ o ])
    by_said none o = refl
    by_said (some v) o = refl
