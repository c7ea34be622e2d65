-- ===== src/Proxmox/Fresh.antt =====
-- The names that backend/phif/connectors/proxmox/connector.py gives: of a new VM, of a host on the array,
-- of the volume that a copy goes to.
use Prim.Native.Char.{Char}
use pure_hypervisor_integrat.Prelude.{
  ℕ, zero, suc, ◌≤◌, String, Bool, true, false, ◌&&◌, ◌==◌, ◌≡◌, refl, inl, inr, List, [], ◌∷◌,
  some, contains, length, Bool-cases, text_or, if◌then◌else◌, eq_iff, arith,
}
use pure_hypervisor_integrat.Prelude.Text.{fstring, str, strip}
use pure_hypervisor_integrat.Prelude.Cuts.{trim, trim_left, trim_right, all_chars, map_chars}
use pure_hypervisor_integrat.Prelude.Numerals.{str-injective}
use pure_hypervisor_integrat.Prelude.Search.{first_free, first_free_lem}
use pure_hypervisor_integrat.Proxmox.Names.{
  dash, vm_char, fa_char, edge, is_dash, squeeze, pve_vm_name, fa_name,
}
use pure_hypervisor_integrat.Array.Io.{done, ◌>>=◌}
use pure_hypervisor_integrat.Proxmox.Session.{
  Outside, Session, Event, asked, volume_exists, ensure_volume_group, FlashArray, note,
}
use pure_hypervisor_integrat.Proxmox.Disks.{copy_name, free_copy, prepare_copy_target}
use pure_hypervisor_integrat.Proxmox.Create.{counted, vm_name}
use text.Mathlib.TextLemmas.{append_cancel_left, append_cancel_right}

-- the first, the last character is of the kind
abbrev first_is : (Char → Bool) → String → Bool
first_is p String.[] = false
first_is p (String.◌∷◌ c s) = p c

abbrev last_is : (Char → Bool) → String → Bool
last_is p String.[] = false
last_is p (String.◌∷◌ c String.[]) = p c
last_is p (String.◌∷◌ c (String.◌∷◌ d s)) = last_is p (String.◌∷◌ d s)

-- a text that is not empty, has only characters of one kind, and none of another at its ends
abbrev pub Tidy : (Char → Bool) → (Char → Bool) → String → Type 0
Tidy allowed ends s =
    ((s == "") ≡ false)
    × (all_chars allowed s ≡ true)
    × (first_is ends s ≡ false)
    × (last_is ends s ≡ false)

module _ (p : Char → Bool) where
  all_chars-map_chars :
      (f : Char → Char)
      → ((c : Char) → p (f c) ≡ true)
      → (s : String) → all_chars p (map_chars f s) ≡ true
  unfolding all_chars map_chars
  all_chars-map_chars f good String.[] = refl
  all_chars-map_chars f good (String.◌∷◌ c s) = ground (arith, good c, all_chars-map_chars f good s)

  all_chars-squeeze : (s : String) → all_chars p s ≡ true → all_chars p (squeeze s) ≡ true
  unfolding all_chars squeeze
  all_chars-squeeze String.[] h = refl
  all_chars-squeeze (String.◌∷◌ c s) h = ground (arith, all_chars-squeeze s)

  module _ (ends : Char → Bool) where
    all_chars-trim_left :
        (s : String) → all_chars p s ≡ true → all_chars p (trim_left ends s) ≡ true
    unfolding all_chars trim_left
    all_chars-trim_left String.[] h = refl
    all_chars-trim_left (String.◌∷◌ c s) h = ground (arith, all_chars-trim_left s)

    all_chars-trim_right :
        (s : String) → all_chars p s ≡ true → all_chars p (trim_right ends s) ≡ true
    unfolding all_chars trim_right
    all_chars-trim_right String.[] h = refl
    all_chars-trim_right (String.◌∷◌ c s) h =
        elim (Bool-cases (trim_right ends s == "" && ends c)) [
          | inl cut ↦ rw (cut) refl
          | inr kept ↦ rw (kept) (ground (arith, all_chars-trim_right s))
        ]

module _ (ends : Char → Bool) where
  first_is-trim_left : (s : String) → first_is ends (trim_left ends s) ≡ false
  unfolding trim_left
  first_is-trim_left String.[] = refl
  first_is-trim_left (String.◌∷◌ c s) = ground (arith, first_is-trim_left s)

  first_is-trim_right :
      (s : String) → first_is ends s ≡ false → first_is ends (trim_right ends s) ≡ false
  unfolding trim_right
  first_is-trim_right String.[] h = refl
  first_is-trim_right (String.◌∷◌ c s) h = ground arith

  -- the last character after one that is kept
  last_is-cons :
      (c : Char) (t : String)
      → last_is ends t ≡ false
      → (t == "" && ends c) ≡ false
      → last_is ends (String.◌∷◌ c t) ≡ false
  last_is-cons c String.[] h k = ground (arith, eq_iff "" "")
  last_is-cons c (String.◌∷◌ d t) h k = h

  last_is-trim_right : (s : String) → last_is ends (trim_right ends s) ≡ false
  unfolding trim_right
  last_is-trim_right String.[] = refl
  last_is-trim_right (String.◌∷◌ c s) = elim (Bool-cases (trim_right ends s == "" && ends c)) [
    | inl cut ↦ rw (cut) refl
    | inr kept ↦ rw (kept) (last_is-cons c (trim_right ends s) (last_is-trim_right s) kept)
  ]

  -- what is trimmed is tidy, but that it may be empty; then another text is taken
  trim-Tidy :
      (allowed : Char → Bool) (s other : String)
      → all_chars allowed s ≡ true
      → Tidy allowed ends other
      → Tidy allowed ends (text_or (some (trim ends s)) other)
  unfolding trim
  trim-Tidy allowed s other h spare = elim (Bool-cases (trim_right ends (trim_left ends s) == "")) [
    | inl empty ↦ rw (empty) spare
    | inr full ↦ rw (full) (
      full,
      all_chars-trim_right allowed ends (trim_left ends s) (all_chars-trim_left allowed ends s h),
      first_is-trim_right (trim_left ends s) (first_is-trim_left s),
      last_is-trim_right (trim_left ends s),
    )
  ]

-- a character that is not allowed becomes a dash
abbrev dashed : (Char → Bool) → Char → Char
dashed allowed c = if allowed c then c else dash

allowed_or_dash :
    (allowed : Char → Bool) → allowed dash ≡ true → (c : Char) → allowed (dashed allowed c) ≡ true
allowed_or_dash allowed fine c = elim (Bool-cases (allowed c)) [
  | inl q ↦ rw (q) q
  | inr q ↦ rw (q) fine
]

pve_vm_name-Tidy : (name : String) → Tidy vm_char edge (pve_vm_name name)
unfolding pve_vm_name all_chars
pve_vm_name-Tidy name =
    let f = dashed vm_char in
    trim-Tidy edge vm_char (squeeze (map_chars f (strip name))) "migrated-vm"
      (all_chars-squeeze vm_char (map_chars f (strip name))
        (all_chars-map_chars vm_char f (allowed_or_dash vm_char refl) (strip name)))
      (refl, refl, refl, refl)

fa_name-Tidy : (raw : String) → Tidy fa_char is_dash (fa_name raw)
unfolding fa_name all_chars
fa_name-Tidy raw =
    let f = dashed fa_char in
    trim-Tidy is_dash fa_char (map_chars f raw) "pve-node"
      (all_chars-map_chars fa_char f (allowed_or_dash fa_char refl) raw) (refl, refl, refl, refl)

-- Whatever a VM and a node are called, the name that Proxmox gets for the VM has only letters, digits,
-- dots and dashes, and neither begins nor ends with a dot or a dash; the name that the array gets for
-- the node's host has only letters, digits and dashes, and neither begins nor ends with a dash; and
-- neither name is empty.
pub names-Tidy :
    (name raw : String) → Tidy vm_char edge (pve_vm_name name) × Tidy fa_char is_dash (fa_name raw)
names-Tidy name raw = (pve_vm_name-Tidy name, fa_name-Tidy raw)

counted-injective : (base : String) (a b : ℕ) → counted base a ≡ counted base b → a ≡ b
unfolding counted
counted-injective base a b q = str-injective a b (
    append_cancel_right (str a) (str b) ""
      (append_cancel_left "-" _ _ (append_cancel_left base _ _ q)))

-- Whatever VMs the cluster has, the name of a new VM is none of theirs.
pub contains-vm_name :
    (existing : List String) (name : String) → contains (vm_name existing name) existing ≡ false
unfolding vm_name
contains-vm_name existing name = elim (Bool-cases (contains (pve_vm_name name) existing)) [
  | inr free ↦ rw (free) free
  | inl used ↦ rw (used) (
      first_free_lem (counted (pve_vm_name name)) (counted-injective (pve_vm_name name))
        (length existing) existing 2 (omega arith))
]

module _ (a : FlashArray) (names : List String) (vm_ref : String) where
  copy_name-injective : (m n : ℕ) → copy_name vm_ref m ≡ copy_name vm_ref n → m ≡ n
  unfolding copy_name
  copy_name-injective m n q = str-injective m n (
      append_cancel_right (str m) (str n) "" (
        append_cancel_left "-disk-" _ _ (
          append_cancel_left vm_ref _ _ (
            append_cancel_left "/vm-" _ _
              (append_cancel_left vm_ref _ _ (append_cancel_left "vm-" _ _ q))))))

  -- an array that has the names answers the loop like a search among them
  free_copy-first_free :
      ((past : List Event) (name : String) → a.exists past name ≡ done (contains name names))
      → (fuel n : ℕ) (s : Session)
      → (s' : Session) × (free_copy a vm_ref fuel n s
          ≡ (done (first_free (copy_name vm_ref) fuel names n), s'))
  unfolding free_copy first_free ◌>>=◌
  free_copy-first_free known zero n s = (s, refl)
  free_copy-first_free known (suc fuel) n s =
      let s₁ = note (asked (volume_exists (copy_name vm_ref n))) s in
      let (s', found) = free_copy-first_free known fuel (suc n) s₁ in
      elim (Bool-cases (contains (copy_name vm_ref n) names)) [
        | inl used ↦ (s', rw (known s.events (copy_name vm_ref n), used) found)
        | inr free ↦ (s₁, rw (known s.events (copy_name vm_ref n), free) refl)
      ]

-- If the array tells for each name whether it is one of some names, and takes the volume group, then, with
-- at least as many rounds as there are names, `prepare_copy_target` returns a name that is none of them.
pub prepare_copy_target-Free :
    (o : Outside) (a : FlashArray) (names : List String) (fuel order : ℕ) (vm_ref : String)
    (s : Session)
    → o.array ≡ some a
    → ((past : List Event) (name : String) → a.exists past name ≡ done (contains name names))
    → ((past : List Event) (group : String) → a.act past (ensure_volume_group group) ≡ done tt)
    → length names ≤ fuel
    → (target : String) × (s' : Session) × (prepare_copy_target o fuel order vm_ref s
        ≡ (done target, s'))
      × (contains target names ≡ false)
unfolding prepare_copy_target ◌>>=◌
prepare_copy_target-Free o a names fuel order vm_ref s here known takes enough =
    let idx = first_free (copy_name vm_ref) fuel names order in
    let group = fstring ("vm-" ∷ vm_ref ∷ []) in
    let (s', found) = free_copy-first_free a names vm_ref known fuel order s in
    (
      copy_name vm_ref idx,
      note (asked (ensure_volume_group group)) s',
      rw (here, found, takes s'.events group) refl,
      first_free_lem (copy_name vm_ref) (copy_name-injective a names vm_ref) fuel names order
          enough,
    )
