-- ===== src/Boot/Discover/Kernels/Listing.antt =====
-- Which kernels are listed, and in which order (boot/src/discover.rs).
use zboot.Base.{◌≡◌, ◌↔◌, Bool, true, Option, List, [], ◌∷◌, Str, In}
use zboot.Boot.Discover.{KernelEntry}
use zboot.Boot.Discover.Kernels.Names.{Before, IsKernel, Linked, Paired}

-- Each entry comes before the next.
abbrev pub InOrder : List KernelEntry → Type 0
InOrder [] = Unit
InOrder (j ∷ []) = Unit
InOrder (j ∷ k ∷ ks) = Before j.vmlinuz k.vmlinuz × InOrder (k ∷ ks)

module _ (there : Str → Bool) (link : Option Str) where
  -- What an entry of the list says of its kernel.
  pub record IsEntry (names : List Str) (k : KernelEntry) : Type 0 where
    pub listed : In k.vmlinuz names
    pub kernel : IsKernel k.vmlinuz
    pub paired : Paired there k.vmlinuz k.initrd
    pub marked : (k.default ≡ true) ↔ Linked link k.vmlinuz
