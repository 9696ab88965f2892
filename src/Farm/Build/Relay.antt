-- ===== src/Farm/Build/Relay.antt =====
-- The two goroutines of `Build` of buildfarm.go that relay what a build writes, line by line.
use buildfarm.Base.{
  List, [], ◌∷◌, ◌++◌, false, if◌then◌else◌, ◌==◌, Bytes, codes, All, ◌≡◌, refl, ap, ◌∙◌,
}
use mathlib.Core.List.{append-nil, append_assoc}

-- The text that `[%s@%s] ` makes.
abbrev pub line_prefix : Bytes → Bytes → Bytes
line_prefix platform builder = codes "[" ++ platform ++ codes "@" ++ builder ++ codes "] "

-- What is written for the text that is read until the pipe is closed; `line` is the line read so far,
-- which `ReadString` returns with an error, and the loop drops, where it has no end.
unfoldable pub relay_from : Bytes → Bytes → Bytes → Bytes
relay_from prefix line [] = []
relay_from prefix line (x ∷ xs) =
    let next = relay_from prefix [] xs in
    let longer = relay_from prefix (line ++ x ∷ []) xs in
    if x == 10 then prefix ++ (line ++ 10 ∷ next) else longer

-- A goroutine, with the platform and the builder's name, for everything that the build writes.
unfoldable pub relay : Bytes → Bytes → Bytes → Bytes
unfolding relay_from
relay platform builder text = relay_from (line_prefix platform builder) [] text

-- Lines, each with its end.
pub unlines : List Bytes → Bytes
unlines [] = []
unlines (l ∷ ls) = l ++ 10 ∷ unlines ls

pub prefixed : Bytes → List Bytes → Bytes
prefixed prefix [] = []
prefixed prefix (l ∷ ls) = prefix ++ (l ++ 10 ∷ prefixed prefix ls)

-- A text without the end of a line.
abbrev pub IsLine : Bytes → Type 0
IsLine = All (λ x. (x == 10) ≡ false)

relay_from-line :
    (prefix line l rest : Bytes)
    → IsLine l
    → relay_from prefix line (l ++ 10 ∷ rest)
      ≡ prefix ++ ((line ++ l) ++ 10 ∷ relay_from prefix [] rest)
unfolding relay_from
relay_from-line prefix line [] rest h = rw (append-nil line) refl
relay_from-line prefix line (x ∷ l) rest h = rw h.0 (
    relay_from-line prefix (line ++ x ∷ []) l rest h.1
    ∙ ap (λ t. prefix ++ (t ++ 10 ∷ relay_from prefix [] rest)) (append_assoc line (x ∷ []) l))

relay_from-tail : (prefix line l : Bytes) → IsLine l → relay_from prefix line l ≡ []
unfolding relay_from
relay_from-tail prefix line [] h = refl
relay_from-tail prefix line (x ∷ l) h = rw h.0 (relay_from-tail prefix (line ++ x ∷ []) l h.1)

-- What a build writes is relayed line by line, each line with its platform and builder before it and
-- in order; what the build writes behind the last end of a line is lost.
pub relay-unlines :
    (platform builder : Bytes) (ls : List Bytes) (tail : Bytes)
    → All IsLine ls
    → IsLine tail
    → relay platform builder (unlines ls ++ tail) ≡ prefixed (line_prefix platform builder) ls
unfolding relay unlines prefixed
relay-unlines platform builder [] tail h k =
    relay_from-tail (line_prefix platform builder) [] tail k
relay-unlines platform builder (l ∷ ls) tail h k =
    let p = line_prefix platform builder in
    ap (relay_from p []) (append_assoc l (10 ∷ unlines ls) tail)
    ∙ relay_from-line p [] l (unlines ls ++ tail) h.0
    ∙ ap (λ t. p ++ (l ++ 10 ∷ t)) (relay-unlines platform builder ls tail h.1 k)
