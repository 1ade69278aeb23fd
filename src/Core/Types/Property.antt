-- ===== src/Core/Types/Property.antt =====
-- `Property` of core/src/types.rs: a property that the program interprets, with its value.
use zboot.Base.{Bool, Option, Str}
use zboot.Text.{codes}
use zboot.Core.Types.{SnapshotRef, Mountpoint, Canmount, PoolRole, BoundList}

pub data Property : Type 0 where
  bootfs cachefile : Option Str → Property
  mountpoint : Mountpoint → Property
  canmount : Canmount → Property
  origin : Option SnapshotRef → Property
  zboot_role : PoolRole → Property
  zboot_be : Bool → Property
  zboot_attached_to : BoundList → Property
  zboot_set zboot_created_by : Str → Property
  other : Str → Str → Property

-- `Property::name`.
unfoldable pub property_name : Property → Str
property_name (bootfs _) = codes "bootfs"
property_name (cachefile _) = codes "cachefile"
property_name (mountpoint _) = codes "mountpoint"
property_name (canmount _) = codes "canmount"
property_name (origin _) = codes "origin"
property_name (zboot_role _) = codes "zboot:role"
property_name (zboot_be _) = codes "zboot:be"
property_name (zboot_attached_to _) = codes "zboot:attached-to"
property_name (zboot_set _) = codes "zboot:set"
property_name (zboot_created_by _) = codes "zboot:created-by"
property_name (other name _) = name
