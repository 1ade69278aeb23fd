-- ===== src/Boot/Kexec.antt =====
-- boot/src/kexec.rs: which kernel a boot environment starts with, its command line, and the handing over.
-- The backend, the writer, the files under the mounted root, the bytes of /etc/hostid and the path of the
-- program `zfs` are parameters. A path is a text; `join_path` is `Path::join` of a relative name. What is
-- written is given by the values that the line quotes.
pub mod Handoff
pub mod Hostid
use zboot.Base.{
  ℕ, zero, suc, ◌+◌, ◌-◌, ◌*◌, ◌/◌, ◌%◌, Bool, true, false, ◌||◌, not, Option, none, some, List, [],
  ◌∷◌, ◌++◌, Str, ◌==◌, nat_eq, str_eq, is_empty, leb, ltb, if◌then◌else◌,
}
use zboot.Text.{codes, trim, join}
use zboot.Core.Types.{BootEnvironment}
use zboot.Cli.Io.{Io, Error, not_found, not_rebooted, ◌>>=◌, ◌>>◌, pure, raise, guard, attempt}
use zboot.Cli.Sub.{Runner, RunOutput}

pub record KexecPlan : Type 0 where
  pub kernel : Str
  pub initrd : Str
  pub cmdline : Str
  pub dataset : Str

pub data Gate : Type 0 where
  opened closed : Gate

-- The trait of that name, and the writer.
pub record KexecBackend (S : Type 0) : Type 0 where
  pub load : KexecPlan → Io S (Unit {0})
  pub exec : Io S (Unit {0})
  pub would_kexec : KexecPlan → Io S (Unit {0})
  pub kexecing : Str → Io S (Unit {0})

unfoldable pub decide_gate : Bool → Bool → Gate
decide_gate pid_one env_override = if pid_one || env_override then opened else closed

abbrev pub join_path : Str → Str → Str
join_path dir name = dir ++ b'/' ∷ name

-- One line with the parts that are not empty behind it.
unfoldable pub build_cmdline : Str → Option Str → Str
build_cmdline dataset extras =
    let base = codes "root=ZFS=" ++ (dataset ++ codes " ro") in
    elim extras [ none ↦ base | some e ↦ if is_empty e then base else base ++ b' ' ∷ e ]

-- A digit of `{:x}`.
unfoldable pub hex_digit : ℕ → ℕ
hex_digit d = if ltb d 10 then b'0' + d else b'a' + (d - 10)

-- `{:08x}` of a `u32`: eight digits.
unfoldable pub hex_digits : ℕ → ℕ → Str
unfolding hex_digit
hex_digits zero n = []
hex_digits (suc k) n = hex_digits k (n / 16) ++ hex_digit (n % 16) ∷ []

-- `u32::from_le_bytes` of four bytes.
unfoldable pub read_runtime_hostid : Option (List ℕ) → Option ℕ
read_runtime_hostid (some (a ∷ b ∷ c ∷ d ∷ [])) = some (a + 256 * (b + 256 * (c + 256 * d)))
read_runtime_hostid _ = none

abbrev pub push_part : Option Str → List Str
push_part none = []
push_part (some p) = if is_empty p then [] else p ∷ []

abbrev pub hostid_part : Option ℕ → List Str
hostid_part none = []
hostid_part (some h) = (codes "spl.spl_hostid=0x" ++ hex_digits 8 h) ∷ []

abbrev pub extras_of : BootEnvironment → Option Str → Str
extras_of be none = codes "zboot.be=" ++ (be.name ++ codes " console=tty0 console=ttyS0,115200")
extras_of be (some e) = e

-- `compose_cmdline`, given what the two files say.
unfoldable pub compose_cmdline : BootEnvironment → Option Str → Option ℕ → Option Str → Str
unfolding build_cmdline hex_digits join
compose_cmdline be persist hostid extras_override = join (b' ' ∷ []) (
    build_cmdline be.dataset none
    ∷ (push_part persist
        ++ (push_part (some (extras_of be extras_override)) ++ hostid_part hostid)))

-- What `zfs get` prints; `none` if it did not succeed.
abbrev pub persisted : Option RunOutput → Option Str
persisted none = none
persisted (some out) =
    let trimmed = trim out.stdout in
    if not (out.rc == 0)
    then none
    else if is_empty trimmed || trimmed == codes "-"
    then none
    else some trimmed

abbrev pub get_args : Str → List Str
get_args dataset =
    codes "get"
    ∷ codes "-H"
    ∷ codes "-o"
    ∷ codes "value"
    ∷ codes "zboot:kernel-cmdline"
    ∷ dataset
    ∷ []

module _ {S : Type 0} (r : Runner S) (zfs : Str) where
  unfoldable pub read_zboot_cmdline : Str → Io S (Option Str)
  unfolding trim
  read_zboot_cmdline dataset = do out ← attempt (r.run zfs (get_args dataset)); pure (persisted out)

  module _ (there : Str → Bool) (hostid_file : Option (List ℕ)) where
    unfoldable pub plan_with_kernel :
        BootEnvironment → Str → Str → Str → Option Str → Io S KexecPlan
    unfolding read_zboot_cmdline compose_cmdline read_runtime_hostid
    plan_with_kernel be mount_root kernel_filename initrd_filename extras_override = do
      let boot_dir = join_path mount_root (codes "boot")
      let kernel = join_path boot_dir kernel_filename
      guard (there kernel) (not_found kernel)
      let initrd = join_path boot_dir initrd_filename
      guard (there initrd) (not_found initrd)
      persist ← read_zboot_cmdline be.dataset
      pure (record {
        kernel = kernel;
        initrd = initrd;
        cmdline = compose_cmdline be persist (read_runtime_hostid hostid_file) extras_override;
        dataset = be.dataset;
      })

    unfoldable pub plan : BootEnvironment → Str → Io S KexecPlan
    unfolding plan_with_kernel
    plan be mount_root = plan_with_kernel be mount_root (codes "vmlinuz") (codes "initrd.img") none

module _ {S : Type 0} (backend : KexecBackend S) where
  unfoldable pub handoff_plan_with_gate : KexecPlan → Gate → Io S (Unit {0})
  handoff_plan_with_gate p closed = backend.would_kexec p
  handoff_plan_with_gate p opened = do
    backend.load p
    backend.kexecing p.dataset
    backend.exec
    raise not_rebooted

  module _ (r : Runner S) (zfs : Str) (there : Str → Bool) (hostid_file : Option (List ℕ)) where
    unfoldable pub handoff_with_gate : BootEnvironment → Str → Gate → Io S (Unit {0})
    unfolding plan handoff_plan_with_gate
    handoff_with_gate be mount_root gate = do
      p ← plan r zfs there hostid_file be mount_root
      handoff_plan_with_gate p gate
