-- ===== src/Boot/Discover/Kernels.antt =====
-- The kernels of a boot environment (boot/src/discover.rs, `enumerate_kernels`). The directory, which
-- files exist and the target of the link `vmlinuz` are parameters.
pub mod Names
pub mod Listing
use zboot.Base.{
  ℕ, Bool, true, false, not, ◌&&◌, Option, none, some, List, [], ◌∷◌, ◌++◌, map, Str, ◌==◌, str_eq,
  any, filter, ltb, sort_by, if◌then◌else◌,
}
use zboot.Text.{codes, starts_with, ends_with, strip_prefix}
use zboot.Core.Types.Atomic.{str_leb}
use zboot.Boot.Discover.{KernelEntry}

-- The extensions of what a package manager leaves behind.
abbrev pub bad_exts : List Str
bad_exts = codes ".sig" ∷ codes ".bak" ∷ codes ".dpkg-old" ∷ codes ".dpkg-new" ∷ []

unfoldable pub is_kernel : Str → Bool
unfolding starts_with ends_with any
is_kernel s = starts_with s (codes "vmlinuz") && not (any (ends_with s) bad_exts)

-- The group of a file, and the text that sorts it there, backwards.
unfoldable pub kernel_sort_key : Str → ℕ × Str
unfolding strip_prefix
kernel_sort_key filename =
    if filename == codes "vmlinuz"
    then (0, [])
    else if filename == codes "vmlinuz.old"
    then (1, [])
    else elim (strip_prefix (codes "vmlinuz-") filename) [
      | some suffix ↦ (2, suffix)
      | none ↦ (3, filename)
    ]

-- The order of keys `(u8, Reverse<String>)`.
abbrev pub key_leb : ℕ × Str → ℕ × Str → Bool
key_leb a b = if ltb a.0 b.0 then true else if ltb b.0 a.0 then false else str_leb b.1 a.1

unfoldable pub kernel_leb : Str → Str → Bool
unfolding kernel_sort_key str_leb
kernel_leb a b = key_leb (kernel_sort_key a) (kernel_sort_key b)

-- The name of the initrd that belongs to a kernel.
unfoldable pub initrd_name : Str → Option Str
unfolding strip_prefix
initrd_name vmlinuz =
    if vmlinuz == codes "vmlinuz"
    then some (codes "initrd.img")
    else if vmlinuz == codes "vmlinuz.old"
    then some (codes "initrd.img.old")
    else elim (strip_prefix (codes "vmlinuz-") vmlinuz) [
      | some suffix ↦ some (codes "initrd.img-" ++ suffix)
      | none ↦ none
    ]

module _ (there : Str → Bool) where
  unfoldable pub pair_initrd : Str → Option Str
  unfolding initrd_name
  pair_initrd vmlinuz = elim (initrd_name vmlinuz) [
    | none ↦ none
    | some candidate ↦ if there candidate then some candidate else none
  ]

  abbrev pub is_default : Option Str → Str → Bool
  is_default none vmlinuz = vmlinuz == codes "vmlinuz"
  is_default (some target) vmlinuz = vmlinuz == target

  unfoldable pub kernel_entry : Option Str → Str → KernelEntry
  unfolding pair_initrd
  kernel_entry link vmlinuz = record {
    vmlinuz = vmlinuz;
    initrd = pair_initrd vmlinuz;
    default = is_default link vmlinuz;
  }

  unfoldable pub enumerate_kernels : Option (List Str) → Option Str → List KernelEntry
  unfolding is_kernel kernel_leb sort_by kernel_entry filter
  enumerate_kernels none link = []
  enumerate_kernels (some names) link =
      map (kernel_entry link) (sort_by kernel_leb (filter is_kernel names))
