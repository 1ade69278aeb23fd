-- ===== src/Tests/Shell.antt =====
-- Lines of the boot shell, and what their words pick.
use zboot.Base.{
  ◌≡◌, refl, Bool, true, false, none, List, [], ◌∷◌, map, Str, nat_eq, str_eq, str_beq, ok, err,
}
use zboot.Text.{codes, contains_char, join}
use zboot.Cli.Io.{unterminated}
use zboot.Boot.Shell.{KernelChoice, BootTarget, tokenize, resolve_pick}
use zboot.Boot.Shell.Words
use zboot.Boot.Shell.Words.{quote}

open_quote : tokenize (codes "boot \"1") ≡ err unterminated
unfolding tokenize
open_quote = refl

abbrev extras : List Str
extras = codes "cmdline" ∷ codes "quiet splash" ∷ []

tokenize-quote_example : tokenize (join (b' ' ∷ []) (map quote extras)) ≡ ok extras
unfolding contains_char
tokenize-quote_example = Words.tokenize-quote extras (refl, refl, (refl, refl, tt))

abbrev kernel : Str → Bool → KernelChoice
kernel name default = record { vmlinuz = name; initrd = codes "initrd.img"; is_default = default }

abbrev be : BootTarget
be = record {
  idx = 1;
  pool = codes "p";
  dataset = codes "p/ROOT/a";
  name = codes "a";
  mount_root = codes "/mnt";
  kernels = kernel (codes "vmlinuz-2") false ∷ kernel (codes "vmlinuz-1") true ∷ [];
  is_active = true;
  readonly = false;
  origin_short = none;
}

picks_default : resolve_pick (codes "1") (be ∷ []) ≡ ok (be, kernel (codes "vmlinuz-1") true)
unfolding resolve_pick str_beq
picks_default = refl
