-- ===== src/Cli/Replicate/Pointers.antt =====
-- Pointers and marks leave the other properties of every dataset (cli/src/zfs_ops.rs).
use zboot.Base.{
  ◌≡◌, refl, ap, ◌∙◌, Bool, true, false, ◌&&◌, Str, ◌==◌, str_eq, str_beq, str_beq_iff, arith,
}
use zboot.Text.{codes}
use zboot.Text.Split.{Lacks}
use zboot.Core.Replication.{PairPointer, render_pointer}
use zboot.Cli.Io.{attempt}
use zboot.Cli.After.{Keeps, Keeps-bind, Keeps-attempt}
use zboot.Cli.Sub.{Runner}
use zboot.Cli.ZfsOps.{
  set_property_tolerant, write_pair_pointer, clear_pair_pointer, inherit_property_tolerant,
}
use zboot.Cli.ZfsOps.Store.{IsStore}
use zboot.Cli.ZfsOps.Wire.{Wire}
use zboot.Cli.Pair.Clearing.{IsClearing, inherit_args, is_pair_property}
use zboot.Cli.Replicate.Contract.{set-Keeps}

module _ {S : Type 0} (r : Runner S) (w : Wire S) (z : IsStore r) (c : IsClearing r z) where
  open z use {value}

  module _ (d p : Str) (h : is_pair_property p ≡ false) where
    abbrev at : S → Str
    at s = value s d p

    pub pair_set-Keeps :
        (ds prop v : Str)
        → is_pair_property prop ≡ true
        → Lacks b'=' prop
        → Keeps at (set_property_tolerant r ds prop v)
    pair_set-Keeps ds prop v is plain = set-Keeps r w z d p ds prop v plain (apart (p == prop) refl)
      where
        apart : (b : Bool) → (p == prop) ≡ b → (d == ds && b) ≡ false
        apart false e = ground arith
        apart true e =
            let same = (str_beq_iff p prop).0 e in
            absurd (ground (arith, ap is_pair_property same, h, is))

    pub write-Keeps : (ds : Str) (q : PairPointer) → Keeps at (write_pair_pointer r ds q)
    unfolding write_pair_pointer
    write-Keeps ds q =
        pair_set-Keeps ds (codes "zboot:mirror") (render_pointer q) mirror_is (omega arith)
      where
        mirror_is : is_pair_property (codes "zboot:mirror") ≡ true
        mirror_is = unfold str_beq in refl

    pub clear-Keeps : (ds : Str) → Keeps at (clear_pair_pointer r ds)
    unfolding clear_pair_pointer inherit_property_tolerant
    clear-Keeps ds =
        Keeps-bind at (attempt (r.run (codes "zfs") (inherit_args ds (codes "zboot:mirror")))) _
          (Keeps-attempt at (r.run (codes "zfs") (inherit_args ds (codes "zboot:mirror")))
            at_inherit)
          (λ _ s. refl)
      where
        mirror_is : is_pair_property (codes "zboot:mirror") ≡ true
        mirror_is = unfold str_beq in refl

        at_inherit : Keeps at (r.run (codes "zfs") (inherit_args ds (codes "zboot:mirror")))
        at_inherit s = c.inherits s ds (codes "zboot:mirror") d p mirror_is ∙ ground (arith, h)

    -- A mark that need not take effect.
    pub marked-Keeps :
        (ds v : Str) → Keeps at (attempt (set_property_tolerant r ds (codes "zboot:primary") v))
    marked-Keeps ds v =
        Keeps-attempt at (set_property_tolerant r ds (codes "zboot:primary") v)
          (pair_set-Keeps ds (codes "zboot:primary") v primary_is (omega arith))
      where
        primary_is : is_pair_property (codes "zboot:primary") ≡ true
        primary_is = unfold str_beq in refl
