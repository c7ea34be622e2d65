-- ===== src/Migrate/RoundTrip.antt =====
-- A spec survives its way through a dictionary: theorems about `to_dict` and `from_dict` of
-- backend/phif/migrate/spec.py.
use pure_hypervisor_integrat.Prelude.{ℕ, String, ◌≡◌, refl, Option, none, some, List, [], ◌∷◌}
use pure_hypervisor_integrat.Prelude.Json.{Fields, get}
use pure_hypervisor_integrat.Migrate.Spec.{DiskIdentity, DiskSpec, NicSpec, VmSpec}
use pure_hypervisor_integrat.Migrate.Dicts.{
  text_value, number_value, identity_dict, disk_dict, nic_dict, dicts, to_dict, read_text_or_none,
  read_number_or_none, read_identity, read_disk, read_nic, read_all, from_dict, as_int,
}

read_text_or_none-text_value :
    (o : Option String) → read_text_or_none (some (text_value o)) ≡ some o
unfolding text_value
read_text_or_none-text_value none = refl
read_text_or_none-text_value (some s) = refl

read_number_or_none-number_value :
    (o : Option ℕ) → read_number_or_none (some (number_value o)) ≡ some o
unfolding number_value
read_number_or_none-number_value none = refl
read_number_or_none-number_value (some n) = refl

read_identity-identity_dict : (i : DiskIdentity) → read_identity (identity_dict i) ≡ some i
unfolding read_identity get
read_identity-identity_dict i = rw (
  read_text_or_none-text_value i.serial,
  read_text_or_none-text_value i.wwid,
  read_number_or_none-number_value i.size_bytes,
)

read_disk-disk_dict : (d : DiskSpec) → read_disk (disk_dict d) ≡ some d
unfolding read_disk get as_int
read_disk-disk_dict d = rw (read_identity-identity_dict d.identity)

read_nic-nic_dict : (n : NicSpec) → read_nic (nic_dict n) ≡ some n
unfolding read_nic get as_int
read_nic-nic_dict n = refl

module _ {A : Type 0} (to : A → Fields) (from : Fields → Option A)
    (back : (a : A) → from (to a) ≡ some a) where
  read_all-dicts : (xs : List A) → read_all from (dicts to xs) ≡ some xs
  unfolding read_all dicts
  read_all-dicts [] = refl
  read_all-dicts (x ∷ xs) = rw (back x, read_all-dicts xs)

-- every spec of a VM is read back, all fields of all its disks and interfaces, from the dictionary that
-- it is written to
pub from_dict-to_dict : (v : VmSpec) → from_dict (to_dict v) ≡ some v
unfolding from_dict to_dict get as_int
from_dict-to_dict v = rw (
  read_all-dicts disk_dict read_disk read_disk-disk_dict v.disks,
  read_all-dicts nic_dict read_nic read_nic-nic_dict v.nics,
)
