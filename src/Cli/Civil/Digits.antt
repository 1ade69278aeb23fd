-- ===== src/Cli/Civil/Digits.antt =====
-- The characters of a name by default: digits and letters.
use zboot.Base.{
  ℕ, zero, suc, ◌≡◌, ◌≢◌, refl, ◌∙◌, ◌+◌, ◌-◌, ◌/◌, ◌%◌, ◌<◌, false, ◌||◌, [], ◌∷◌, ◌++◌, Str,
  nat_eq, length, arith,
}
use zboot.Text.{codes, contains_char}
use zboot.Cli.Civil.{CivilTime, decimal_digits, decimal, zeros, padded, stamp}

contains_char-append :
    (c : ℕ) (s t : Str) → contains_char c (s ++ t) ≡ (contains_char c s || contains_char c t)
unfolding contains_char
contains_char-append c [] t = refl
contains_char-append c (x ∷ s) t = ground (arith, contains_char-append c s t)

module _ (c : ℕ) (no_digit : (d : ℕ) → d < 10 → b'0' + d ≢ c) where
  decimal_digits-Lacks :
      (fuel n : ℕ) (s : Str)
      → contains_char c s ≡ false
      → contains_char c (decimal_digits fuel n s) ≡ false
  unfolding decimal_digits contains_char
  decimal_digits-Lacks zero n s h = h
  decimal_digits-Lacks (suc fuel) n s h = ground (
    arith,
    no_digit (n % 10) (omega arith),
    decimal_digits-Lacks fuel (n / 10) ((b'0' + n % 10) ∷ s),
  )

  zeros-Lacks : (n : ℕ) → contains_char c (zeros n) ≡ false
  unfolding zeros contains_char
  zeros-Lacks zero = refl
  zeros-Lacks (suc n) = ground (arith, no_digit 0 (omega arith), zeros-Lacks n)

  padded-Lacks :
      (w n : ℕ) (s : Str) → contains_char c s ≡ false → contains_char c (padded w n ++ s) ≡ false
  unfolding padded decimal
  padded-Lacks w n s h =
      let body = decimal n in
      contains_char-append c (padded w n) s
      ∙ rw h (
          ground (
            arith,
            contains_char-append c (zeros (w - length body)) body,
            zeros-Lacks (w - length body),
            decimal_digits-Lacks 20 n [] (unfold contains_char in refl),
          ))

  pub stamp-Lacks :
      (t : CivilTime)
      → contains_char c (codes "T") ≡ false
      → contains_char c (codes "Z") ≡ false
      → contains_char c (stamp t) ≡ false
  unfolding stamp contains_char
  stamp-Lacks t ht hz = padded-Lacks 4 t.year _ (
      padded-Lacks 2 t.month _ (
        padded-Lacks 2 t.day _ (
          rw (contains_char-append c (codes "T") _, ht)
            (padded-Lacks 2 t.hour _ (padded-Lacks 2 t.minute _ (padded-Lacks 2 t.second _ hz))))))
