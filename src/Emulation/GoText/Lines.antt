-- ===== src/Emulation/GoText/Lines.antt =====
-- `bufio.Scanner` over lines.
use mathlib.Core.List.{append_assoc, append-nil}
use mathlib.Core.Path.{ap₂}
use buildfarm.Base.{
  ◌<◌, List, [], ◌∷◌, ◌++◌, false, leb, ◌==◌, length, All, Bytes, ◌≡◌, ◌≢◌, refl, ap, ◌∙◌, arith,
}
use buildfarm.Emulation.GoText.{drop_cr, max_scan_token_size, scan_from, scan_lines}

-- No byte ends a line.
abbrev pub IsUnbroken : Bytes → Type 0
IsUnbroken = All (λ c. (c ≢ b'\n') × (c ≢ 13))

-- Each line with its newline.
abbrev pub unlines : List Bytes → Bytes
unlines [] = []
unlines (l ∷ ls) = l ++ b'\n' ∷ unlines ls

drop_cr_lem : (l : Bytes) → IsUnbroken l → drop_cr l ≡ l
unfolding drop_cr
drop_cr_lem [] h = refl
drop_cr_lem (c ∷ []) h = ground (arith, h.0.1)
drop_cr_lem (c ∷ d ∷ r) h = ap (◌∷◌ c) (drop_cr_lem (d ∷ r) h.1)

scan_from-line :
    (acc l rest : Bytes)
    → IsUnbroken l
    → length (acc ++ l) < max_scan_token_size
    → scan_from acc (l ++ b'\n' ∷ rest) ≡ drop_cr (acc ++ l) ∷ scan_from [] rest
unfolding scan_from
scan_from-line acc [] rest h n =
    let e : acc ++ [] ≡ acc = append-nil acc in
    let short : leb max_scan_token_size (length acc) ≡ false = ground (arith, ap length e) in
    rw (short, e) refl
scan_from-line acc (c ∷ l) rest h n =
    let e : (acc ++ c ∷ []) ++ l ≡ acc ++ c ∷ l = append_assoc acc (c ∷ []) l in
    let not_newline : (c == b'\n') ≡ false = ground (arith, h.0.0) in
    rw not_newline (
      scan_from-line (acc ++ c ∷ []) l rest h.1 (omega (arith, ap length e))
      ∙ ap (λ (s : Bytes). drop_cr s ∷ scan_from [] rest) e)

-- Lines that are written with newlines, and that are not too long, are read back.
pub scan_lines-unlines :
    (ls : List Bytes)
    → All (λ l. IsUnbroken l × (length l < max_scan_token_size)) ls
    → scan_lines (unlines ls) ≡ ls
unfolding scan_lines
scan_lines-unlines [] h = refl
scan_lines-unlines (l ∷ ls) h =
    scan_from-line [] l (unlines ls) h.0.0 h.0.1
    ∙ ap₂ ◌∷◌ (drop_cr_lem l h.0.0) (scan_lines-unlines ls h.1)
