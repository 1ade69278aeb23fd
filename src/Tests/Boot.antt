-- ===== src/Tests/Boot.antt =====
-- What the boot program finds on small inputs.
use zboot.Base.{
  ◌≡◌, ◌↔◌, refl, Bool, true, none, some, List, [], ◌∷◌, map, Str, str_eq, str_beq, elem, In,
}
use zboot.Text.{codes}
use zboot.Core.Types.{Pool, root}
use zboot.Core.Types.Property.{Property, zboot_be, other}
use zboot.Boot.Discover.{BeRecord, extract_bes, assemble, forest_from_payload}
use zboot.Boot.Discover.Active
use zboot.Boot.Discover.Active.{told_record}
use zboot.Boot.Discover.Kernels.{enumerate_kernels}
use zboot.Boot.Discover.Kernels.Listing

abbrev two_datasets : List Str
two_datasets = codes "p/ROOT/a" ∷ codes "p/ROOT/b" ∷ []

abbrev rows : List (Str × Property)
rows =
    (codes "p/ROOT/a", zboot_be true)
    ∷ (codes "p/ROOT/b", zboot_be true)
    ∷ (codes "p/ROOT/b", other (codes "readonly") (codes "on"))
    ∷ []

extract_bes_lem_example :
    extract_bes (codes "p") two_datasets rows ≡ map (told_record (codes "p") rows) two_datasets
unfolding elem str_beq
extract_bes_lem_example = Active.extract_bes_lem (codes "p") two_datasets rows (refl, (refl, tt))

abbrev one_pool : List Pool
one_pool =
    record { name = codes "p"; role = some root; bootfs = some (codes "p/ROOT/a"); guid = none }
    ∷ []

abbrev two_records : List BeRecord
two_records = extract_bes (codes "p") two_datasets rows

forest_from_payload_lem_example :
    In (codes "p/ROOT/a") (forest_from_payload (assemble one_pool two_records)).1 ↔ (
      (rec : BeRecord) × In rec two_records
      × (rec.is_be ≡ true)
      × Active.Boots one_pool rec.pool (codes "p/ROOT/a")
      × (rec.dataset ≡ codes "p/ROOT/a"))
forest_from_payload_lem_example =
    Active.forest_from_payload_lem one_pool two_records (codes "p/ROOT/a")

abbrev boot_files : List Str
boot_files =
    codes "vmlinuz-6.1"
    ∷ codes "initrd.img-6.1"
    ∷ codes "vmlinuz-6.12"
    ∷ codes "vmlinuz"
    ∷ codes "vmlinuz-6.1.sig"
    ∷ []

abbrev has_initrd : Str → Bool
has_initrd = λ s. elem s boot_files

newest_first :
    map
      (λ k. k.vmlinuz)
      (enumerate_kernels has_initrd (some boot_files) (some (codes "vmlinuz-6.12")))
    ≡ codes "vmlinuz" ∷ codes "vmlinuz-6.12" ∷ codes "vmlinuz-6.1" ∷ []
unfolding enumerate_kernels str_beq
newest_first = refl
