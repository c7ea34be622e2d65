-- ===== src/Migrate/Dicts.antt =====
-- `to_dict` and `from_dict` of backend/phif/migrate/spec.py: the dictionaries in which a VM's spec
-- goes through the parameters of jobs and the database. `from_dict` is `none` where Python raises, and
-- where it would keep a value that is not of the field's type.
use Prim.Native.Char.{code}
use pure_hypervisor_integrat.Prelude.{
  ℕ, ◌+◌, ◌-◌, ◌*◌, String, Bool, false, ◌&&◌, ◌==◌, leb, Option, none, some, List, [], ◌∷◌,
  if◌then◌else◌,
}
use pure_hypervisor_integrat.Prelude.Text.{strip}
use pure_hypervisor_integrat.Prelude.Json.{
  Value, Values, Fields, json_null, json_bool, json_number, json_text, json_list, json_dict,
  no_values, more_values, no_fields, more_fields, get, truth,
}
use pure_hypervisor_integrat.Migrate.Spec.{DiskIdentity, DiskSpec, NicSpec, VmSpec}

-- a text or `None`, and a number or `None`
unfoldable pub text_value : Option String → Value
text_value none = json_null
text_value (some s) = json_text s

unfoldable pub number_value : Option ℕ → Value
number_value none = json_null
number_value (some n) = json_number n

-- `DiskIdentity.to_dict`
abbrev pub identity_dict : DiskIdentity → Fields
identity_dict i = more_fields "fa_volume" (json_text i.fa_volume) (
    more_fields "serial" (text_value i.serial) (
      more_fields "wwid" (text_value i.wwid)
        (more_fields "size_bytes" (number_value i.size_bytes) no_fields)))

-- `DiskSpec.to_dict`
abbrev pub disk_dict : DiskSpec → Fields
disk_dict d = more_fields "identity" (json_dict (identity_dict d.identity)) (
    more_fields "bus" (json_text d.bus) (
      more_fields "order" (json_number d.order) (
        more_fields "boot" (json_bool d.boot)
          (more_fields "source_ref" (json_text d.source_ref) no_fields))))

-- `NicSpec.to_dict`
abbrev pub nic_dict : NicSpec → Fields
nic_dict n = more_fields "mac" (json_text n.mac) (
    more_fields "source_network" (json_text n.source_network) (
      more_fields "model" (json_text n.model)
        (more_fields "order" (json_number n.order) no_fields)))

-- `[x.to_dict() for x in xs]`
unfoldable pub dicts : {A : Type 0} → (A → Fields) → List A → Values
dicts to [] = no_values
dicts to (x ∷ xs) = more_values (json_dict (to x)) (dicts to xs)

-- `VmSpec.to_dict`
unfoldable pub to_dict : VmSpec → Fields
to_dict v = more_fields "name" (json_text v.name) (
    more_fields "source_ref" (json_text v.source_ref) (
      more_fields "vcpus" (json_number v.vcpus) (
        more_fields "memory_bytes" (json_number v.memory_bytes) (
          more_fields "firmware" (json_text v.firmware) (
            more_fields "secure_boot" (json_bool v.secure_boot) (
              more_fields "disks" (json_list (dicts disk_dict v.disks)) (
                more_fields "nics" (json_list (dicts nic_dict v.nics)) (
                  more_fields "guest_os_hint" (json_text v.guest_os_hint)
                    (more_fields "raw" (json_dict v.raw) no_fields)))))))))

infixl 10 ◌>>=◌
abbrev pub ◌>>=◌ : {A B : Type 0} → Option A → (A → Option B) → Option B
none >>= f = none
some a >>= f = f a

-- a text of a dictionary, with the default for a key that is missing
abbrev pub read_text : String → Option Value → Option String
read_text default none = some default
read_text default (some (json_text s)) = some s
read_text default (some _) = none

-- a text or `None`
abbrev pub read_text_or_none : Option Value → Option (Option String)
read_text_or_none none = some none
read_text_or_none (some json_null) = some none
read_text_or_none (some (json_text s)) = some (some s)
read_text_or_none (some _) = none

-- a number or `None`
abbrev pub read_number_or_none : Option Value → Option (Option ℕ)
read_number_or_none none = some none
read_number_or_none (some json_null) = some none
read_number_or_none (some (json_number n)) = some (some n)
read_number_or_none (some _) = none

-- the value of a row of decimal digits, after what has been read
unfoldable pub decimal_after : ℕ → String → Option ℕ
decimal_after n String.[] = some n
decimal_after n (String.◌∷◌ c s) =
    let rest = decimal_after (10 * n + (code c - b'0')) s in
    if leb b'0' (code c) && leb (code c) b'9' then rest else none

-- `int(v)`; of the texts, those that are a row of decimal digits
unfoldable pub as_int : Value → Option ℕ
unfolding decimal_after
as_int json_null = none
as_int (json_bool b) = some (if b then 1 else 0)
as_int (json_number n) = some n
as_int (json_text s) = let t = strip s in if t == "" then none else decimal_after 0 t
as_int (json_list vs) = none
as_int (json_dict d) = none

-- `int(d.get(key, default))`
abbrev pub read_int : ℕ → Option Value → Option ℕ
read_int default none = some default
read_int default (some v) = as_int v

-- `bool(d.get(key, False))`
abbrev pub read_bool : Option Value → Bool
read_bool none = false
read_bool (some v) = truth v

-- what `for x in d.get(key, [])` goes through; an element that is a text has no `get`
abbrev pub read_list : Option Value → Option Values
read_list none = some no_values
read_list (some (json_list vs)) = some vs
read_list (some (json_dict no_fields)) = some no_values
read_list (some (json_text s)) = if s == "" then some no_values else none
read_list (some _) = none

-- a dictionary of a dictionary, empty by default
abbrev pub read_dict : Option Value → Option Fields
read_dict none = some no_fields
read_dict (some (json_dict d)) = some d
read_dict (some _) = none

-- `DiskIdentity.from_dict`
unfoldable pub read_identity : Fields → Option DiskIdentity
read_identity d = do
  fa_volume ← read_text "" (get "fa_volume" d)
  serial ← read_text_or_none (get "serial" d)
  wwid ← read_text_or_none (get "wwid" d)
  size_bytes ← read_number_or_none (get "size_bytes" d)
  some (record { fa_volume = fa_volume; serial = serial; wwid = wwid; size_bytes = size_bytes })

-- `DiskSpec.from_dict`
unfoldable pub read_disk : Fields → Option DiskSpec
read_disk d = do
  inner ← read_dict (get "identity" d)
  identity ← read_identity inner
  bus ← read_text "scsi" (get "bus" d)
  order ← read_int 0 (get "order" d)
  source_ref ← read_text "" (get "source_ref" d)
  some (record {
    identity = identity;
    bus = bus;
    order = order;
    boot = read_bool (get "boot" d);
    source_ref = source_ref;
  })

-- `NicSpec.from_dict`
unfoldable pub read_nic : Fields → Option NicSpec
read_nic d = do
  mac ← read_text "" (get "mac" d)
  source_network ← read_text "" (get "source_network" d)
  model ← read_text "virtio" (get "model" d)
  order ← read_int 0 (get "order" d)
  some (record { mac = mac; source_network = source_network; model = model; order = order })

-- `[X.from_dict(x) for x in values]`
unfoldable pub read_all : {A : Type 0} → (Fields → Option A) → Values → Option (List A)
read_all from no_values = some []
read_all from (more_values v vs) = do
  d ← read_dict (some v)
  x ← from d
  xs ← read_all from vs
  some (x ∷ xs)

-- `VmSpec.from_dict`
unfoldable pub from_dict : Fields → Option VmSpec
from_dict d = do
  name ← read_text "" (get "name" d)
  source_ref ← read_text "" (get "source_ref" d)
  vcpus ← read_int 1 (get "vcpus" d)
  memory_bytes ← read_int 0 (get "memory_bytes" d)
  firmware ← read_text "bios" (get "firmware" d)
  listed_disks ← read_list (get "disks" d)
  disks ← read_all read_disk listed_disks
  listed_nics ← read_list (get "nics" d)
  nics ← read_all read_nic listed_nics
  guest_os_hint ← read_text "" (get "guest_os_hint" d)
  raw ← read_dict (get "raw" d)
  some (record {
    name = name;
    source_ref = source_ref;
    vcpus = vcpus;
    memory_bytes = memory_bytes;
    firmware = firmware;
    secure_boot = read_bool (get "secure_boot" d);
    disks = disks;
    nics = nics;
    guest_os_hint = guest_os_hint;
    raw = raw;
  })
