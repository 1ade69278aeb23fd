-- ===== src/Cli/Push/Done.antt =====
-- What a successful `zboot push` leaves (cli/src/cmd/push.rs).
use zboot.Base.{
  subst, ℕ, ◌≡◌, refl, sym, ap, ◌∙◌, Bool, false, Str, str_eq, str_beq, is_some, ok, if◌then◌else◌,
}
use zboot.Text.{codes, first_part}
use zboot.Cli.Io.{ok_injective, continue_cases, lift, done, attempt, ◌>>◌}
use zboot.Cli.After.{Keeps, Keeps-bind, Keeps-attempt, Keeps-if}
use zboot.Cli.Sub.{Runner}
use zboot.Cli.ZfsOps.{
  set_property_tolerant, set_readonly_tolerant, read_pair_pointer, write_pair_pointer,
  clear_pair_pointer, ensure_root_container,
}
use zboot.Cli.ZfsOps.Snapshots.{set_be_contract}
use zboot.Cli.ZfsOps.Store.{IsStore, read_pair_pointer-Quiet}
use zboot.Cli.ZfsOps.Wire.{Wire}
use zboot.Cli.Pair.Clearing.{IsClearing, is_pair_property}
use zboot.Cli.Replicate.{choose_anchor}
use zboot.Cli.Replicate.Contract.{IsPruning, Received, contract_done, prune_both-Keeps}
use zboot.Cli.Replicate.Pointers.{write-Keeps, clear-Keeps, marked-Keeps}
use zboot.Cli.Push.{
  deliver, Job, Checked, existing, bootstrap_paired, ad_hoc_unpaired, PairedMode,
  parse_pair_from_ds, push_checks, lift_readonly, transfer, mark, bootstrap_pair, write_pointers,
  finish_push, push_work, push_one,
}

module _ {S : Type 0} (r : Runner S) (w : Wire S) where
  -- The last steps of a delivery that has ended well.
  pub delivery_ends :
      (utc_ns : ℕ) (j : Job) (k : Checked) (anchor : Str) (s t : S)
      → deliver r w utc_ns j k s ≡ (ok anchor, t)
      → (s4 : S) × (s5 : S) × (set_be_contract r j.dest s4 ≡ (ok tt, s5))
        × (set_readonly_tolerant r j.dest (codes "on") s5 ≡ (ok tt, t))
  unfolding deliver
  delivery_ends utc_ns j k anchor s t h =
      continue_cases (choose_anchor r w j.src j.bounded_snap utc_ns s) _ h λ a s1 e1 h1.
        continue_cases
          ((if k.dest_exists then done else ensure_root_container r (first_part b'/' j.dest)) s1) _
          h1
          λ _ s2 e2 h2.
            continue_cases (lift_readonly r w j.dest k.dest_exists s2) _ h2 λ was s3 e3 h3.
              continue_cases (transfer r w j k a was s3) _ h3 λ _ s4 e4 h4.
                continue_cases (set_be_contract r j.dest s4) _ h4 λ _ s5 e5 h5.
                  continue_cases (set_readonly_tolerant r j.dest (codes "on") s5) _ h5 λ _ s6 e6 h6.
                    (
                      s4,
                      s5,
                      e5,
                      subst (λ u. set_readonly_tolerant r j.dest (codes "on") s5 ≡ (ok tt, u))
                          (ok_injective h6).1 e6,
                    )

module _ {S : Type 0} (r : Runner S) (w : Wire S) (z : IsStore r) (c : IsClearing r z)
    (pr : IsPruning r z) where
  open z use {there, value}

  -- Pointers and marks leave the other properties of every dataset.
  module _ (d p : Str) (h : is_pair_property p ≡ false) where
    abbrev at : S → Str
    at s = value s d p

    mark-Keeps : (ds v : Str) → Keeps at (mark r w ds v)
    mark-Keeps ds v =
        Keeps-bind at (attempt (set_property_tolerant r ds (codes "zboot:primary") v)) _
          (marked-Keeps r w z c d p h ds v) (λ _ s. refl)

    bootstrap-Keeps : (src dest : Str) → Keeps at (bootstrap_pair r w src dest)
    unfolding bootstrap_pair
    bootstrap-Keeps src dest =
        Keeps-bind at (lift (parse_pair_from_ds dest)) _ (λ s. refl)
          λ src_pair.
            Keeps-bind at (lift (parse_pair_from_ds src)) _ (λ s. refl)
              λ dest_pair.
                Keeps-bind at (write_pair_pointer r src src_pair) _
                  (write-Keeps r w z c d p h src src_pair)
                  λ _.
                    Keeps-bind at (mark r w src (codes "on")) _ (mark-Keeps src (codes "on")) λ _.
                      Keeps-bind at (read_pair_pointer r dest) _
                        (λ s. ap at (read_pair_pointer-Quiet r z dest s))
                        λ o.
                          Keeps-if at (is_some o) (mark r w src (codes "on"))
                            (write_pair_pointer r dest dest_pair >> mark r w dest (codes "off"))
                            (mark-Keeps src (codes "on"))
                            (Keeps-bind at (write_pair_pointer r dest dest_pair) _
                              (write-Keeps r w z c d p h dest dest_pair)
                              (λ _. mark-Keeps dest (codes "off")))

    pointers-Keeps : (j : Job) (mode : PairedMode) → Keeps at (write_pointers r w j mode)
    unfolding write_pointers
    pointers-Keeps j existing = λ s. refl
    pointers-Keeps j bootstrap_paired = bootstrap-Keeps j.src j.dest
    pointers-Keeps j ad_hoc_unpaired =
        Keeps-bind at (attempt (clear_pair_pointer r j.dest)) _
          (Keeps-attempt at (clear_pair_pointer r j.dest) (clear-Keeps r w z c d p h j.dest))
          (λ _ s. refl)

    pub finish-Keeps :
        (b : Bool) (j : Job) (anchor : Str)
        → Keeps at (if b then done else finish_push r w j anchor)
    unfolding finish_push
    finish-Keeps b j anchor =
        Keeps-if at b done (finish_push r w j anchor) (λ s. refl)
          (Keeps-bind at (write_pointers r w j j.mode) _ (pointers-Keeps j j.mode)
            (λ _. prune_both-Keeps r w z d p pr j.src j.dest anchor))

  finished :
      (b : Bool) (j : Job) (anchor : Str) (s t : S) (p : Str)
      → (if b then done else finish_push r w j anchor) s ≡ (ok tt, t)
      → is_pair_property p ≡ false
      → value t j.dest p ≡ value s j.dest p
  finished b j anchor s t p e h =
      ap (λ x. value x.1 j.dest p) (sym e) ∙ finish-Keeps j.dest p h b j anchor s

  work_done :
      (utc_ns : ℕ) (j : Job) (k : Checked) (s t : S)
      → push_work r w utc_ns j k s ≡ (ok tt, t)
      → Received r w z t j.dest
  unfolding str_beq push_work
  work_done utc_ns j k s t h = continue_cases (deliver r w utc_ns j k s) _ h λ anchor u e1 h1.
      let (s4, s5, e5, e6) = delivery_ends r w utc_ns j k anchor s u e1 in
      let q = contract_done r w z j.dest s4 s5 u e5 e6 in
      let b = is_some k.rewind_only in
      record {
        canmount = finished b j anchor u t (codes "canmount") h1 refl ∙ q.canmount;
        mountpoint = finished b j anchor u t (codes "mountpoint") h1 refl ∙ q.mountpoint;
        be = finished b j anchor u t (codes "zboot:be") h1 refl ∙ q.be;
        readonly = finished b j anchor u t (codes "readonly") h1 refl ∙ q.readonly;
      }

  -- Where the commands read, write and clear properties as documented, whatever the pipe and the rollback
  -- do: a push that succeeds, forced or not, leaves its destination read-only and with the properties of a
  -- boot environment.
  pub push_one_done :
      (utc_ns : ℕ) (j : Job) (s t : S)
      → push_one r w utc_ns j s ≡ (ok tt, t)
      → Received r w z t j.dest
  unfolding push_one
  push_one_done utc_ns j s t h =
      continue_cases (push_checks r w j s) _ h λ k s1 e h1. work_done utc_ns j k s1 t h1
