-- ===== src/Text/Lines.antt =====
-- Laws of `lines`.
use zboot.Base.{◌≡◌, refl, ap, ap₂, ◌∙◌, List, [], ◌∷◌, ◌++◌, Str, arith, All}
use zboot.Text.{lines, split, strip_cr, end_lines}
use zboot.Text.Split.{Lacks, split-append}

-- Each line with its newline.
abbrev pub unlines : List Str → Str
unlines [] = []
unlines (l ∷ ls) = l ++ b'\n' ∷ unlines ls

strip_cr-Lacks : (l : Str) → Lacks b'\r' l → strip_cr l ≡ l
unfolding strip_cr
strip_cr-Lacks [] h = refl
strip_cr-Lacks (c ∷ []) (h, _) = ground arith
strip_cr-Lacks (c ∷ d ∷ l) (_, h) = ap (λ r. c ∷ r) (strip_cr-Lacks (d ∷ l) h)

split-unlines : (ls : List Str) → All (Lacks b'\n') ls → split b'\n' (unlines ls) ≡ ls ++ [] ∷ []
split-unlines [] h = unfold split in refl
split-unlines (l ∷ ls) (hl, h) =
    split-append b'\n' l (unlines ls) hl ∙ ap (λ r. l ∷ r) (split-unlines ls h)

end_lines-append : (ls : List Str) → All (Lacks b'\r') ls → end_lines (ls ++ [] ∷ []) ≡ ls
unfolding end_lines
end_lines-append [] h = refl
end_lines-append (l ∷ []) (hl, _) = ap (λ r. r ∷ []) (strip_cr-Lacks l hl)
end_lines-append (l ∷ m ∷ ls) (hl, h) =
    ap₂ (λ a r. a ∷ r) (strip_cr-Lacks l hl) (end_lines-append (m ∷ ls) h)

-- The lines of a text of complete lines are those lines.
pub lines-unlines :
    (ls : List Str) → All (Lacks b'\n') ls → All (Lacks b'\r') ls → lines (unlines ls) ≡ ls
unfolding lines
lines-unlines ls hn hr = rw (split-unlines ls hn) (end_lines-append ls hr)
