-- ===== src/Boot/Kexec/Handoff.antt =====
-- When the boot program starts a kernel (boot/src/kexec.rs).
use zboot.Base.{◌≡◌, refl, sym, ap, ◌∙◌, Bool, true, Option, List, ℕ, Str, ok, List, [], ◌∷◌}
use zboot.Text.{codes}
use zboot.Core.Types.{BootEnvironment}
use zboot.Cli.Io.{continue_cases, guard-eq-ok, ok_injective, ok-ne-err, guard, attempt, pure}
use zboot.Cli.After.{Keeps, Keeps-attempt, Keeps-bind}
use zboot.Cli.Sub.{Runner}
use zboot.Boot.Kexec.{
  get_args, KexecPlan, Gate, opened, closed, KexecBackend, join_path, persisted, read_zboot_cmdline,
  plan_with_kernel, plan, handoff_plan_with_gate, handoff_with_gate,
}

abbrev pub boot_file : Str → Str → Str
boot_file mount_root name = join_path (join_path mount_root (codes "boot")) name

module _ {S V : Type 0} (backend : KexecBackend S) (r : Runner S) (zfs : Str) (view : S → V) where
  -- The question for the kernel's command line, and the line that is written instead of a start, do not
  -- change what is looked at.
  pub record IsDry : Type 0 where
    pub asks :
        (ds : Str)
        → Keeps view (
            r.run zfs (
              codes "get"
              ∷ codes "-H"
              ∷ codes "-o"
              ∷ codes "value"
              ∷ codes "zboot:kernel-cmdline"
              ∷ ds
              ∷ []))
    pub writes : (p : KexecPlan) → Keeps view (backend.would_kexec p)

  module _ (w : IsDry) where
    handoff_plan_with_gate_done :
        (p : KexecPlan) (gate : Gate) (s t : S)
        → handoff_plan_with_gate backend p gate s ≡ (ok tt, t)
        → (gate ≡ closed) × (view t ≡ view s)
    unfolding handoff_plan_with_gate
    handoff_plan_with_gate_done p closed s t h = (refl, sym (ap (λ x. view x.1) h) ∙ w.writes p s)
    handoff_plan_with_gate_done p opened s t h = continue_cases (backend.load p s) _ h λ _ s1 e1 h1.
        continue_cases (backend.kexecing p.dataset s1) _ h1 λ _ s2 e2 h2.
          continue_cases (backend.exec s2) _ h2 λ _ s3 e3 h3. absurd (ok-ne-err (sym h3))

    read_view : (dataset : Str) → Keeps view (read_zboot_cmdline r zfs dataset)
    unfolding read_zboot_cmdline
    read_view dataset =
        Keeps-bind view (attempt (r.run zfs (get_args dataset))) (λ out. pure (persisted out))
          (Keeps-attempt view (r.run zfs (get_args dataset)) (w.asks dataset)) (λ out s. refl)

    module _ (there : Str → Bool) (hostid_file : Option (List ℕ)) (be : BootEnvironment)
        (mount_root : Str) where
      plan_done :
          (s t : S) (p : KexecPlan)
          → plan r zfs there hostid_file be mount_root s ≡ (ok p, t)
          → (there (boot_file mount_root (codes "vmlinuz")) ≡ true)
            × (there (boot_file mount_root (codes "initrd.img")) ≡ true)
            × (view t ≡ view s)
      unfolding plan plan_with_kernel read_zboot_cmdline
      plan_done s t p h =
          continue_cases (guard (there (boot_file mount_root (codes "vmlinuz"))) _ s) _ h
            λ _ s1 e1 h1.
              continue_cases (guard (there (boot_file mount_root (codes "initrd.img"))) _ s1) _ h1
                λ _ s2 e2 h2.
                  continue_cases (read_zboot_cmdline r zfs be.dataset s2) _ h2 λ persist s3 e3 h3.
                    let (kernel, same1) = guard-eq-ok _ _ s s1 e1 in
                    let (initrd, same2) = guard-eq-ok _ _ s1 s2 e2 in
                    (
                      kernel,
                      initrd,
                      ap view (sym (ok_injective h3).1)
                          ∙ sym (ap (λ x. view x.1) e3)
                          ∙ read_view be.dataset s2
                          ∙ ap view (same2 ∙ same1),
                    )

      -- Where the question for the kernel's command line and the line that is written instead of a start do
      -- not change what is looked at: a handing over that returns with success had its gate closed, found
      -- the kernel and the initrd, and has changed nothing.
      pub handoff_with_gate_done :
          (gate : Gate) (s t : S)
          → handoff_with_gate backend r zfs there hostid_file be mount_root gate s ≡ (ok tt, t)
          → (gate ≡ closed)
            × (there (boot_file mount_root (codes "vmlinuz")) ≡ true)
            × (there (boot_file mount_root (codes "initrd.img")) ≡ true)
            × (view t ≡ view s)
      unfolding handoff_with_gate
      handoff_with_gate_done gate s t h =
          continue_cases (plan r zfs there hostid_file be mount_root s) _ h λ p s1 e1 h1.
            let (kernel, initrd, same) = plan_done s s1 p e1 in
            let (shut, same') = handoff_plan_with_gate_done p gate s1 t h1 in
            (shut, kernel, initrd, same' ∙ same)
