-- ===== src/Migrate/Spec.antt =====
-- backend/phif/migrate/spec.py: the normalised hardware of a VM, and the device identifiers that are
-- derived from the serial of a FlashArray volume.
use pure_hypervisor_integrat.Prelude.{
  ℕ, String, Bool, Option, none, some, List, [], ◌∷◌, if◌then◌else◌, text_or, given,
}
use pure_hypervisor_integrat.Prelude.Text.{fstring, lower, strip, drop}
use pure_hypervisor_integrat.Prelude.Json.{Fields}
use text.Mathlib.Text.{starts_with}

abbrev pub pure_scsi_oui : String
pure_scsi_oui = "624a9370"

-- `(serial or "").strip().lower()`, without a leading `0x`
unfoldable pub bare_serial : Option String → String
bare_serial serial =
    let s = lower (strip (text_or serial "")) in if starts_with s "0x" then drop 2 s else s

unfoldable pub scsi_wwid : Option String → String
unfolding bare_serial
scsi_wwid serial =
    let s = bare_serial serial in
    if starts_with s "624a937"
    then fstring ("3" ∷ s ∷ [])
    else fstring ("3" ∷ pure_scsi_oui ∷ s ∷ [])

unfoldable pub nvme_eui : Option String → String
unfolding bare_serial
nvme_eui serial = let s = bare_serial serial in fstring ("eui." ∷ s ∷ [])

pub record DiskIdentity : Type 0 where
  pub fa_volume : String
  pub serial : Option String
  pub wwid : Option String
  pub size_bytes : Option ℕ

unfoldable pub derived_wwid : DiskIdentity → Option String
derived_wwid d =
    if given d.wwid then d.wwid else if given d.serial then some (scsi_wwid d.serial) else none

pub record DiskSpec : Type 0 where
  pub identity : DiskIdentity
  pub bus : String
  pub order : ℕ
  pub boot : Bool
  pub source_ref : String

pub record NicSpec : Type 0 where
  pub mac : String
  pub source_network : String
  pub model : String
  pub order : ℕ

pub record VmSpec : Type 0 where
  pub name : String
  pub source_ref : String
  pub vcpus : ℕ
  pub memory_bytes : ℕ
  pub firmware : String
  pub secure_boot : Bool
  pub disks : List DiskSpec
  pub nics : List NicSpec
  pub guest_os_hint : String
  pub raw : Fields

first_boot : List DiskSpec → Option DiskSpec
first_boot [] = none
first_boot (d ∷ rest) = if d.boot then some d else first_boot rest

head_disk : List DiskSpec → Option DiskSpec
head_disk [] = none
head_disk (d ∷ rest) = some d

unfoldable pub boot_disk : VmSpec → Option DiskSpec
unfolding first_boot head_disk
boot_disk v = elim (first_boot v.disks) [ some d ↦ some d | none ↦ head_disk v.disks ]
