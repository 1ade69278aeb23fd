-- ===== src/Tests/Kexec.antt =====
-- Handing over to a kernel, on a system that counts what is done to it.
use zboot.Base.{ℕ, suc, ◌≡◌, refl, Bool, true, none, some, List, [], ◌∷◌, Str, ok}
use zboot.Text.{codes}
use zboot.Core.Types.{BootEnvironment, new_boot_environment}
use zboot.Cli.Io.{done}
use zboot.Cli.Sub.{Runner}
use zboot.Boot.Kexec.{KexecBackend, closed, read_runtime_hostid, compose_cmdline, handoff_with_gate}
use zboot.Boot.Kexec.Handoff
use zboot.Boot.Kexec.Handoff.{IsDry, boot_file}
use zboot.Boot.Kexec.Hostid

abbrev counting : KexecBackend ℕ
counting = record {
  load = λ p s. (ok tt, suc s);
  exec = λ s. (ok tt, suc s);
  would_kexec = λ p. done;
  kexecing = λ x. done;
}

abbrev silent : Runner ℕ
silent = record {
  run = λ prog args s. (ok (record { rc = 0; stdout = codes "-"; stderr = [] }), s);
}

abbrev everything : Str → Bool
everything name = true

abbrev be : BootEnvironment
be = new_boot_environment (codes "p") (codes "a")

abbrev id_bytes : List ℕ
id_bytes = 0x78 ∷ 0x56 ∷ 0x34 ∷ 0x0a ∷ []

shown_cmdline :
    compose_cmdline be (some (codes "quiet")) (read_runtime_hostid (some id_bytes)) (some [])
    ≡ codes "root=ZFS=p/ROOT/a ro quiet spl.spl_hostid=0x0a345678"
unfolding compose_cmdline read_runtime_hostid new_boot_environment
shown_cmdline = refl

abbrev untouched : ℕ
untouched = 0

handoff_with_gate_done_example :
    (closed ≡ closed)
    × (everything (boot_file (codes "/m") (codes "vmlinuz")) ≡ true)
    × (everything (boot_file (codes "/m") (codes "initrd.img")) ≡ true)
    × (untouched ≡ untouched)
unfolding handoff_with_gate
handoff_with_gate_done_example =
    Handoff.handoff_with_gate_done counting silent (codes "zfs") (λ s. s)
      (record { asks = λ ds s. refl; writes = λ p s. refl }) everything none be (codes "/m") closed
      untouched untouched refl
