-- ===== src/Boot/Shell.antt =====
-- boot/src/shell.rs: the words of a line of the boot shell (`tokenize`), and which boot environment and
-- which kernel an argument means (`resolve_be`, `resolve_pick`). The panic of `default_kernel` is an
-- error here.
pub mod Words
pub mod Pick
pub mod Pools
use zboot.Base.{
  ℕ, Bool, true, false, not, ◌&&◌, Option, none, some, List, [], ◌∷◌, ◌++◌, Str, ◌==◌, nat_eq,
  str_eq, find, is_empty, Result, ok, err, if◌then◌else◌,
}
use zboot.Text.{is_whitespace, split_once}
use zboot.Core.Parse.{parse_u64}
use zboot.Cli.Io.{Error, unterminated, panicked, no_index, no_kernel, not_found}

pub record KernelChoice : Type 0 where
  pub vmlinuz : Str
  pub initrd : Str
  pub is_default : Bool

pub record BootTarget : Type 0 where
  pub idx : ℕ
  pub pool : Str
  pub dataset : Str
  pub name : Str
  pub mount_root : Str
  pub kernels : List KernelChoice
  pub is_active : Bool
  pub readonly : Bool
  pub origin_short : Option Str

-- The variables of `tokenize`.
pub record Tokens : Type 0 where
  pub out : List Str
  pub buf : Str
  pub in_quote : Bool

-- A word is pushed if it is not empty.
abbrev pub push_word : List Str → Str → List Str
push_word out buf = if is_empty buf then out else out ++ buf ∷ []

unfoldable pub token_step : ℕ → Tokens → Tokens
unfolding is_whitespace
token_step c t =
    if c == b'"'
    then record t { in_quote = not t.in_quote }
    else if not t.in_quote && is_whitespace c
    then record { out = push_word t.out t.buf; buf = []; in_quote = false }
    else record t { buf = t.buf ++ c ∷ [] }

unfoldable pub token_loop : Str → Tokens → Tokens
unfolding token_step
token_loop [] t = t
token_loop (c ∷ s) t = token_loop s (token_step c t)

abbrev pub token_end : Tokens → Result Error (List Str)
token_end t = if t.in_quote then err unterminated else ok (push_word t.out t.buf)

abbrev pub no_tokens : Tokens
no_tokens = record { out = []; buf = []; in_quote = false }

unfoldable pub tokenize : Str → Result Error (List Str)
unfolding token_loop
tokenize line = token_end (token_loop line no_tokens)

abbrev pub first_kernel : List KernelChoice → Option KernelChoice
first_kernel [] = none
first_kernel (k ∷ ks) = some k

-- `none` for the panic where there is no kernel.
unfoldable pub default_kernel : BootTarget → Option KernelChoice
unfolding find
default_kernel t = elim (find (λ k. k.is_default) t.kernels) [
  | some k ↦ some k
  | none ↦ first_kernel t.kernels
]

unfoldable pub find_kernel : BootTarget → Str → Option KernelChoice
unfolding find
find_kernel t vmlinuz = find (λ k. k.vmlinuz == vmlinuz) t.kernels

abbrev pub dataset_of : Str → Str
dataset_of arg = elim (split_once b':' arg) [ none ↦ arg | some (d, _) ↦ d ]

unfoldable pub resolve_be : Str → List BootTarget → Result Error BootTarget
unfolding find parse_u64 split_once
resolve_be arg targets = elim (parse_u64 arg) [
  | some n ↦ (elim (find (λ t. t.idx == n) targets) [ some t ↦ ok t | none ↦ err (no_index n) ])
  | none ↦ (elim (find (λ t. t.dataset == dataset_of arg) targets) [
    | some t ↦ ok t
    | none ↦ err (not_found arg)
  ])
]

-- The kernel that the argument names, or the default.
unfoldable pub pick_kernel : Str → BootTarget → Result Error KernelChoice
unfolding find_kernel default_kernel split_once
pick_kernel arg be = elim (split_once b':' arg) [
  | some (_, kn) ↦ (elim (find_kernel be kn) [
    | some k ↦ ok k
    | none ↦ err (no_kernel be.dataset kn)
  ])
  | none ↦ (elim (default_kernel be) [ some k ↦ ok k | none ↦ err panicked ])
]

unfoldable pub resolve_pick : Str → List BootTarget → Result Error (BootTarget × KernelChoice)
unfolding resolve_be pick_kernel
resolve_pick arg targets = elim (resolve_be arg targets) [
  | err e ↦ err e
  | ok be ↦ (elim (pick_kernel arg be) [ err e ↦ err e | ok k ↦ ok (be, k) ])
]
