-- ===== src/Boot/Shell/Words.antt =====
-- The words of a line of the boot shell (boot/src/shell.rs, `tokenize`).
use zboot.Base.{
  ℕ, ◌≡◌, refl, sym, ap, ap₂, ◌∙◌, Bool, true, false, not, ◌&&◌, List, [], ◌∷◌, ◌++◌, map, Str,
  ◌==◌, nat_eq, is_empty, filter, ok, arith, append_assoc, append-nil, Bool-cases, inl, inr,
}
use zboot.Text.{is_whitespace, contains_char, split_matches, split_whitespace, extend, join}
use zboot.Boot.Shell.{Tokens, push_word, token_step, token_loop, token_end, tokenize}

-- A text in front of the first word.
abbrev prepend : Str → List Str → List Str
prepend buf [] = buf ∷ []
prepend buf (p ∷ ps) = (buf ++ p) ∷ ps

abbrev words : List Str → List Str
words = filter (λ w. not (is_empty w))

push_word_lem : (out : List Str) (buf : Str) → push_word out buf ≡ out ++ words (buf ∷ [])
unfolding filter
push_word_lem out [] = sym (append-nil out)
push_word_lem out (c ∷ buf) = refl

words-cons : (buf : Str) (rest : List Str) → words (buf ∷ rest) ≡ words (buf ∷ []) ++ words rest
unfolding filter
words-cons [] rest = refl
words-cons (c ∷ buf) rest = refl

prepend-extend :
    (c : ℕ) (buf : Str) (ps : List Str) → prepend (buf ++ c ∷ []) ps ≡ prepend buf (extend c ps)
prepend-extend c buf [] = refl
prepend-extend c buf (p ∷ ps) = ap (λ q. q ∷ ps) (append_assoc buf (c ∷ []) p)

words-prepend : (ps : List Str) → words (prepend [] ps) ≡ words ps
unfolding filter
words-prepend [] = refl
words-prepend (p ∷ ps) = refl

abbrev open_words : List Str → Str → Tokens
open_words out buf = record { out = out; buf = buf; in_quote = false }

step-space :
    (c : ℕ) (out : List Str) (buf : Str)
    → (c == b'"') ≡ false
    → is_whitespace c ≡ true
    → token_step c (open_words out buf) ≡ open_words (push_word out buf) []
unfolding token_step
step-space c out buf e w = rw (e, w) refl

step-char :
    (c : ℕ) (t : Tokens)
    → (c == b'"') ≡ false
    → (not t.in_quote && is_whitespace c) ≡ false
    → token_step c t ≡ record t { buf = t.buf ++ c ∷ [] }
unfolding token_step
step-char c t e w = rw (e, w) refl

split-space :
    (p : ℕ → Bool) (c : ℕ) (s : Str) → p c ≡ true → split_matches p (c ∷ s) ≡ [] ∷ split_matches p s
unfolding split_matches
split-space p c s e = rw (e) refl

split-char :
    (p : ℕ → Bool) (c : ℕ) (s : Str)
    → p c ≡ false
    → split_matches p (c ∷ s) ≡ extend c (split_matches p s)
unfolding split_matches
split-char p c s e = rw (e) refl

words-space :
    (out : List Str) (buf : Str) (rest : List Str)
    → push_word out buf ++ words (prepend [] rest) ≡ out ++ words (prepend buf ([] ∷ rest))
words-space out buf rest =
    ap₂ (λ o r. o ++ r) (push_word_lem out buf) (words-prepend rest)
    ∙ append_assoc out (words (buf ∷ [])) (words rest)
    ∙ ap (λ o. out ++ o)
        (sym (words-cons buf rest) ∙ ap (λ b. words (b ∷ rest)) (sym (append-nil buf)))

bare_end :
    (s : Str) (out : List Str) (buf : Str)
    → contains_char b'"' s ≡ false
    → token_end (token_loop s (open_words out buf))
      ≡ ok (out ++ words (prepend buf (split_matches is_whitespace s)))
unfolding token_loop contains_char split_matches
bare_end [] out buf h = rw (append-nil buf) (ap ok (push_word_lem out buf))
bare_end (c ∷ s) out buf h =
    let plain : (c == b'"') ≡ false = ground (arith, h) in
    let h' : contains_char b'"' s ≡ false = ground (arith, h) in
    let rest = split_matches is_whitespace s in
    let result = λ (ps : List Str). ok (out ++ words (prepend buf ps)) in
    elim (Bool-cases (is_whitespace c)) [
      | inl w ↦
          ap (λ t. token_end (token_loop s t)) (step-space c out buf plain w)
          ∙ bare_end s (push_word out buf) [] h'
          ∙ ap ok (words-space out buf rest)
          ∙ ap result (sym (split-space is_whitespace c s w))
      | inr w ↦
          ap (λ t. token_end (token_loop s t)) (step-char c (open_words out buf) plain w)
          ∙ bare_end s out (buf ++ c ∷ []) h'
          ∙ ap (λ o. ok (out ++ words o)) (prepend-extend c buf rest)
          ∙ ap result (sym (split-char is_whitespace c s w))
    ]

-- A line without quotes is cut at its whitespace.
pub tokenize-bare :
    (line : Str) → contains_char b'"' line ≡ false → tokenize line ≡ ok (split_whitespace line)
unfolding tokenize split_whitespace
tokenize-bare line h =
    bare_end line [] [] h ∙ ap ok (words-prepend (split_matches is_whitespace line))

abbrev pub quote : Str → Str
quote w = b'"' ∷ (w ++ b'"' ∷ [])

-- A word that can be quoted: it is not empty and has no quote in it.
abbrev pub Quotable : List Str → Type 0
Quotable [] = Unit
Quotable (w ∷ ws) = (is_empty w ≡ false) × (contains_char b'"' w ≡ false) × Quotable ws

-- Whatever stands in quotes is put to the word.
quoted_loop :
    (w rest : Str) (out : List Str) (buf : Str)
    → contains_char b'"' w ≡ false
    → token_loop (w ++ b'"' ∷ rest) (record { out = out; buf = buf; in_quote = true })
      ≡ token_loop rest (open_words out (buf ++ w))
unfolding token_loop token_step contains_char
quoted_loop [] rest out buf h = rw (append-nil buf) refl
quoted_loop (c ∷ w) rest out buf h =
    let plain : (c == b'"') ≡ false = ground (arith, h) in
    let h' : contains_char b'"' w ≡ false = ground (arith, h) in
    ap (token_loop (w ++ b'"' ∷ rest))
      (step-char c (record { out = out; buf = buf; in_quote = true }) plain refl)
    ∙ quoted_loop w rest out (buf ++ c ∷ []) h'
    ∙ ap (λ o. token_loop rest (open_words out o)) (append_assoc buf (c ∷ []) w)

push-full : (out : List Str) (w : Str) → is_empty w ≡ false → push_word out w ≡ out ++ w ∷ []
push-full out w h = rw (h) refl

quoted_end :
    (w : Str) (ws out : List Str)
    → Quotable (w ∷ ws)
    → token_end (token_loop (join (b' ' ∷ []) (map quote (w ∷ ws))) (open_words out []))
      ≡ ok (out ++ w ∷ ws)
unfolding token_loop token_step join is_whitespace
quoted_end w [] out (full, plain, _) =
    ap token_end (quoted_loop w [] out [] plain) ∙ ap ok (push-full out w full)
quoted_end w (v ∷ ws) out (full, plain, h) =
    let rest = join (b' ' ∷ []) (map quote (v ∷ ws)) in
    ap (λ x. token_end (token_loop x (open_words out [])))
      (ap (λ x. b'"' ∷ x) (append_assoc w (b'"' ∷ []) (b' ' ∷ rest)))
    ∙ ap token_end (quoted_loop w (b' ' ∷ rest) out [] plain)
    ∙ ap (λ o. token_end (token_loop rest (open_words o []))) (push-full out w full)
    ∙ quoted_end v ws (out ++ w ∷ []) h
    ∙ ap ok (append_assoc out (w ∷ []) (v ∷ ws))

-- Words that are not empty and hold no quote are read back from a line that has them in quotes, with a
-- space between two of them.
pub tokenize-quote :
    (ws : List Str) → Quotable ws → tokenize (join (b' ' ∷ []) (map quote ws)) ≡ ok ws
unfolding tokenize token_loop join
tokenize-quote [] h = refl
tokenize-quote (w ∷ ws) h = quoted_end w ws [] h
