-- ===== src/Core/Parse/Values.antt =====
-- What `parse_property` and the readers of single values accept (core/src/parse.rs).
use zboot.Base.{◌≡◌, ◌≢◌, refl, Str, str_eq, str_beq, str_beq_iff, arith, ok, err, ◌⊎◌}
use zboot.Text.{codes}
use zboot.Core.Types.{
  ParseError, Canmount, on, off, noauto, render_canmount, BoundList, parse_bound_list,
}
use zboot.Core.Types.Property.{Property, property_name, zboot_attached_to}
use zboot.Core.Parse.{parse_property, parse_canmount}

-- `Canmount::render` is undone by `parse_canmount`.
pub parse-render_canmount : (c : Canmount) → parse_canmount (render_canmount c) ≡ ok c
unfolding parse_canmount render_canmount str_beq
parse-render_canmount on = refl
parse-render_canmount off = refl
parse-render_canmount noauto = refl

-- Only the three words are accepted.
pub parse_canmount_sound :
    (s : Str) (c : Canmount) → parse_canmount s ≡ ok c → s ≡ render_canmount c
unfolding parse_canmount render_canmount
parse_canmount_sound s c h =
    ground (
      arith,
      str_beq_iff s (codes "on"),
      str_beq_iff s (codes "off"),
      str_beq_iff s (codes "noauto"),
    )

-- A property that is read has the name that was asked for.
pub property_name-parse :
    (name value : Str) (p : Property) → parse_property name value ≡ ok p → property_name p ≡ name
unfolding parse_property property_name
property_name-parse name value p h = ground (
  arith,
  str_beq_iff name (codes "bootfs"),
  str_beq_iff name (codes "mountpoint"),
  str_beq_iff name (codes "canmount"),
  str_beq_iff name (codes "origin"),
  str_beq_iff name (codes "cachefile"),
  str_beq_iff name (codes "zboot:role"),
  str_beq_iff name (codes "zboot:be"),
  str_beq_iff name (codes "zboot:attached-to"),
  str_beq_iff name (codes "zboot:set"),
  str_beq_iff name (codes "zboot:created-by"),
)

-- An error is met only at the five properties whose values can be malformed.
pub parse_property_errors :
    (name value : Str) (e : ParseError)
    → parse_property name value ≡ err e
    → (name ≡ codes "canmount")
      ⊎ (name ≡ codes "origin")
      ⊎ (name ≡ codes "zboot:role")
      ⊎ (name ≡ codes "zboot:be")
      ⊎ (name ≡ codes "zboot:attached-to")
unfolding parse_property
parse_property_errors name value e h = ground (
  arith,
  str_beq_iff name (codes "canmount"),
  str_beq_iff name (codes "origin"),
  str_beq_iff name (codes "zboot:role"),
  str_beq_iff name (codes "zboot:be"),
  str_beq_iff name (codes "zboot:attached-to"),
)

-- A row `zboot:attached-to` is read as a list only if its value is not `-` and is a well-formed list:
-- a dataset that never was attached is not one that is attached to nothing.
pub parse_property-attached :
    (value : Str) (l : BoundList)
    → parse_property (codes "zboot:attached-to") value ≡ ok (zboot_attached_to l)
    → (value ≢ codes "-") × (parse_bound_list value ≡ ok l)
unfolding parse_property str_beq
parse_property-attached value l h = ground (arith, str_beq_iff value (codes "-"))
