-- ===== src/Proxmox/Names.antt =====
-- The helpers of backend/phif/connectors/proxmox/connector.py on texts: names that Proxmox and the array
-- accept, slots of disks, the form's lists, the array's address, what an error of a command looks like.
use Prim.Native.Char.{Char, code}
use Prim.Native.String.{char_at}
use pure_hypervisor_integrat.Prelude.{
  ℕ, String, Bool, true, false, not, ◌&&◌, ◌||◌, ◌==◌, eqb, leb, Option, none, some, List, [], ◌∷◌,
  map, select, contains, any, maybe, text_or, if◌then◌else◌,
}
use pure_hypervisor_integrat.Prelude.Text.{
  fstring, join, lower, strip, drop, starts_with, includes, str,
}
use pure_hypervisor_integrat.Prelude.Cuts.{
  before, after_text, cut_last, split, trim, all_chars, map_chars, decimal_char, digits_only,
  digits_number,
}
use pure_hypervisor_integrat.Migrate.Spec.{DiskSpec}

abbrev pub dash : Char
dash = char_at "-" 0

abbrev pub is_alphanumeric : Char → Bool
is_alphanumeric c =
    let n = code c in (leb 48 n && leb n 57) || ((leb 65 n && leb n 90) || (leb 97 n && leb n 122))

-- `[A-Za-z0-9.-]`
abbrev pub vm_char : Char → Bool
vm_char c = is_alphanumeric c || (eqb (code c) 45 || eqb (code c) 46)

-- `[A-Za-z0-9-]`
abbrev pub fa_char : Char → Bool
fa_char c = is_alphanumeric c || eqb (code c) 45

-- `-` or `.`
abbrev pub edge : Char → Bool
edge c = eqb (code c) 45 || eqb (code c) 46

abbrev pub is_dash : Char → Bool
is_dash c = eqb (code c) 45

-- `re.sub(r"-{2,}", "-", s)`
unfoldable pub squeeze : String → String
unfolding starts_with
squeeze String.[] = String.[]
squeeze (String.◌∷◌ c s) =
    let rest = squeeze s in if is_dash c && starts_with s "-" then rest else String.◌∷◌ c rest

-- `_pve_vm_name`
unfoldable pub pve_vm_name : String → String
unfolding strip map_chars squeeze trim
pve_vm_name name =
    let s = map_chars (λ c. if vm_char c then c else dash) (strip name) in
    text_or (some (trim edge (squeeze s))) "migrated-vm"

-- `_fa_name`
unfoldable pub fa_name : String → String
unfolding map_chars trim
fa_name raw =
    text_or (some (trim is_dash (map_chars (λ c. if fa_char c then c else dash) raw))) "pve-node"

abbrev pub disk_buses : List String
disk_buses = "scsi" ∷ "virtio" ∷ "sata" ∷ "ide" ∷ []

-- `_pve_bus`
unfoldable pub pve_bus : String → String
unfolding lower
pve_bus bus =
    let b = lower (text_or (some bus) "scsi") in if contains b disk_buses then b else "scsi"

-- `_pve_slot`
unfoldable pub pve_slot : DiskSpec → String
unfolding pve_bus str
pve_slot d = fstring (pve_bus d.bus ∷ str d.order ∷ [])

-- `_split_csv`
unfoldable pub split_csv : String → List String
unfolding split strip
split_csv value = select (λ s. not (s == "")) (map strip (split 44 value))

-- a value of a form with several choices: absent, a list, or a text
pub data Choices : Type 0 where
  no_choice : Choices
  choice_list : List String → Choices
  choice_text : String → Choices

-- `_as_list`
unfoldable pub as_list : Choices → List String
unfolding split_csv strip
as_list no_choice = []
as_list (choice_list vs) = select (λ s. not (s == "")) (map strip vs)
as_list (choice_text s) = split_csv s

abbrev pub hex_char : Char → Bool
hex_char c = decimal_char c || (leb 97 (code c) && leb (code c) 102)

-- the parts of two characters
unfoldable pub pairs_of : String → List String
pairs_of String.[] = []
pairs_of (String.◌∷◌ c String.[]) = String.◌∷◌ c String.[] ∷ []
pairs_of (String.◌∷◌ c (String.◌∷◌ d s)) = String.◌∷◌ c (String.◌∷◌ d String.[]) ∷ pairs_of s

-- `_normalize_wwn`; a text of 16 characters has 8 pairs, the last one whole
unfoldable pub normalize_wwn : String → String
unfolding lower strip drop starts_with includes all_chars pairs_of
normalize_wwn raw =
    let low = lower (strip raw) in
    let tok = if starts_with low "0x" then drop 2 low else low in
    if includes tok ":"
    then tok
    else if eqb (count tok) 16 && all_chars hex_char tok
    then join ":" (pairs_of tok)
    else tok
  where
    count : String → ℕ
    count String.[] = 0
    count (String.◌∷◌ c s) = Prim.Native.Nat.suc (count s)

-- `_array_mgmt_target` of the array's endpoint
unfoldable pub array_mgmt_target : String → Option (String × ℕ)
unfolding strip trim after_text before cut_last digits_only digits_number
array_mgmt_target endpoint =
    let ep = strip endpoint in
    let address = trim (λ c. eqb (code c) 47) (maybe (after_text 3 "://" ep) ep (λ rest. rest)) in
    let host = before 47 address in
    let (name, port) =
      maybe (cut_last 58 host) (host, 443)
        (λ (h, p). if digits_only p then (h, digits_number 0 p) else (host, 443)) in
    if ep == "" then none else if name == "" then none else some (name, port)

-- whether the text starts with digits and then has `.conf`
unfoldable pub conf_follows : Bool → String → Bool
unfolding starts_with
conf_follows seen String.[] = false
conf_follows seen (String.◌∷◌ c s) =
    let more = conf_follows true s in
    if decimal_char c then more else seen && starts_with (String.◌∷◌ c s) ".conf"

-- `lock-\d+\.conf` somewhere
unfoldable pub names_lock_file : String → Bool
unfolding starts_with conf_follows drop
names_lock_file String.[] = false
names_lock_file (String.◌∷◌ c s) =
    (starts_with (String.◌∷◌ c s) "lock-" && conf_follows false (drop 5 (String.◌∷◌ c s)))
    || names_lock_file s

-- `_LOCK_TIMEOUT_RE.search(s)`
unfoldable pub lock_timeout : String → Bool
unfolding lower includes names_lock_file
lock_timeout s =
    let low = lower s in
    includes low "can't lock file" || (includes low "got timeout" || names_lock_file low)

-- `_PUREFA_ERR_RE.search(line)`
unfoldable pub purefa_error : String → Bool
unfolding lower after_text includes
purefa_error line = maybe (after_text 7 "purefa:" (lower line)) false (λ rest.
    any (λ w. includes rest w)
      ("login failed" ∷ "failed" ∷ "timed out" ∷ "aborting" ∷ "can't connect" ∷ "locked" ∷ []))
