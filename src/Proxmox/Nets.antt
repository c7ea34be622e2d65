-- ===== src/Proxmox/Nets.antt =====
-- The interfaces that `create_vm` of backend/phif/connectors/proxmox/connector.py gives a VM, as
-- `capture_vm_spec` reads them back.
use Prim.Native.Char.{Char, code}
use Prim.Native.String.{◌++◌, char_at}
use pure_hypervisor_integrat.Prelude.{
  ℕ, String, Bool, true, false, not, ◌==◌, eqb, ◌≡◌, refl, sym, ap, ◌∙◌, subst, ◌⊎◌, inl, inr, List,
  [], ◌∷◌, some, All, contains, Bool-cases, eq_iff, arith,
}
use pure_hypervisor_integrat.Prelude.Text.{lower}
use pure_hypervisor_integrat.Prelude.Cuts.{cut, split, all_chars}
use pure_hypervisor_integrat.Migrate.Spec.{NicSpec}
use pure_hypervisor_integrat.Proxmox.Capture.{net_parts, read_net}
use pure_hypervisor_integrat.Proxmox.Create.{pve_models, pve_model, net_value}
use text.Mathlib.TextLemmas.{nil-append, cons-append, append-nil, append_assoc}

-- the text does not have the character of the code
abbrev pub lacks : ℕ → String → Bool
lacks c = all_chars (λ x. not (eqb (code x) c))

module _ (c : ℕ) (sep : Char) (same : code sep ≡ c) where
  split-append :
      (s t : String) → lacks c s ≡ true → split c (s ++ (String.◌∷◌ sep t)) ≡ s ∷ split c t
  unfolding split all_chars
  split-append String.[] t h = ap (split c) (nil-append (String.◌∷◌ sep t)) ∙ ground (arith, same)
  split-append (String.◌∷◌ x s) t h =
      ap (split c) (cons-append x s (String.◌∷◌ sep t)) ∙ ground (arith, split-append s t)

  cut-append : (s t : String) → lacks c s ≡ true → cut c (s ++ (String.◌∷◌ sep t)) ≡ some (s, t)
  unfolding cut all_chars
  cut-append String.[] t h = ap (cut c) (nil-append (String.◌∷◌ sep t)) ∙ ground (arith, same)
  cut-append (String.◌∷◌ x s) t h =
      ap (cut c) (cons-append x s (String.◌∷◌ sep t)) ∙ ground (arith, cut-append s t)

split_whole : (c : ℕ) (s : String) → lacks c s ≡ true → split c s ≡ s ∷ []
unfolding split all_chars
split_whole c String.[] h = refl
split_whole c (String.◌∷◌ x s) h = ground (arith, split_whole c s)

-- what holds of all names holds of a text that is one of them
one_of :
    (P : String → Type 0) (x : String) (names : List String)
    → All P names
    → contains x names ≡ true
    → P x
one_of P x [] all h = absurd (ground arith)
one_of P x (n ∷ names) (p, all) h = elim (Bool-cases (n == x)) [
  | inl same ↦ subst P ((eq_iff n x).0 same) p
  | inr other ↦ one_of P x names all (ground arith)
]

lacks-append :
    (c : ℕ) (s t : String) → lacks c s ≡ true → lacks c t ≡ true → lacks c (s ++ t) ≡ true
unfolding all_chars
lacks-append c String.[] t h k = ap (lacks c) (nil-append t) ∙ k
lacks-append c (String.◌∷◌ x s) t h k =
    ap (lacks c) (cons-append x s t) ∙ ground (arith, lacks-append c s t)

abbrev comma : Char
comma = char_at "," 0

abbrev equals : Char
equals = char_at "=" 0

after_equals : (t : String) → "=" ++ t ≡ String.◌∷◌ equals t
after_equals t = cons-append equals "" t ∙ ap (String.◌∷◌ equals) (nil-append t)

-- the parts of an interface's setting
split-net_value :
    (model mac bridge : String)
    → lacks 44 model ≡ true
    → lacks 44 mac ≡ true
    → lacks 44 bridge ≡ true
    → split 44 (model ++ ("=" ++ (mac ++ (",bridge=" ++ (bridge ++ "")))))
      ≡ (model ++ ("=" ++ mac)) ∷ ("bridge=" ++ bridge) ∷ []
unfolding all_chars
split-net_value model mac bridge h k l =
    ap (split 44) (
      ap (λ t. model ++ t) (sym (append_assoc "=" mac rest))
      ∙ sym (append_assoc model ("=" ++ mac) rest)
      ∙ ap (λ t. (model ++ ("=" ++ mac)) ++ t)
          (ap (λ t. ",bridge=" ++ t) (append-nil bridge) ∙ cons-append comma "bridge=" bridge))
    ∙ split-append 44 comma refl (model ++ ("=" ++ mac)) ("bridge=" ++ bridge)
        (lacks-append 44 model ("=" ++ mac) h (lacks-append 44 "=" mac refl k))
    ∙ ap (λ parts. (model ++ ("=" ++ mac)) ∷ parts)
        (split_whole 44 ("bridge=" ++ bridge) (lacks-append 44 "bridge=" bridge refl l))
  where
    rest : String
    rest = ",bridge=" ++ (bridge ++ "")

cut-equals :
    (key value : String) → lacks 61 key ≡ true → cut 61 (key ++ ("=" ++ value)) ≡ some (key, value)
cut-equals key value h =
    ap (λ t. cut 61 (key ++ t)) (after_equals value) ∙ cut-append 61 equals refl key value h

cut-bridge : (bridge : String) → cut 61 ("bridge=" ++ bridge) ≡ some ("bridge", bridge)
unfolding all_chars
cut-bridge bridge = ap (cut 61) (append_assoc "bridge" "=" bridge) ∙ cut-equals "bridge" bridge refl

-- a model that `capture_vm_spec` knows is read back
Read : String → String → ℕ → String → Type 0
Read mac bridge order model =
    read_net order (model ++ ("=" ++ (mac ++ (",bridge=" ++ (bridge ++ "")))))
    ≡ record { mac = mac; source_network = bridge; model = model; order = order }

known_model :
    (mac bridge : String) (order : ℕ) (model : String)
    → lacks 44 mac ≡ true
    → lacks 44 bridge ≡ true
    → lacks 44 model ≡ true
    → lacks 61 model ≡ true
    → contains model ("virtio" ∷ "e1000" ∷ "vmxnet3" ∷ "rtl8139" ∷ []) ≡ true
    → Read mac bridge order model
unfolding Read read_net net_parts
known_model mac bridge order model h k l m known =
    rw (split-net_value model mac bridge l h k, cut-equals model mac m, cut-bridge bridge, known)
      refl

pve_model_known : (model : String) → contains (pve_model model) pve_models ≡ true
unfolding pve_model
pve_model_known model = elim (Bool-cases (contains (lower model) pve_models)) [
  | inl known ↦ rw (known) known
  | inr other ↦ rw (other) refl
]

-- What `create_vm` writes of an interface, `capture_vm_spec` reads back: its mac, its bridge and the model
-- that Proxmox got, unless that model is e1000e; for a mac and a bridge without commas.
pub read_net-net_value :
    (nic : NicSpec) (bridge : String)
    → lacks 44 nic.mac ≡ true
    → lacks 44 bridge ≡ true
    → (pve_model nic.model == "e1000e") ≡ false
    → read_net nic.order (net_value nic bridge) ≡ record {
      mac = nic.mac;
      source_network = bridge;
      model = pve_model nic.model;
      order = nic.order;
    }
unfolding net_value Read all_chars
read_net-net_value nic bridge h k other =
    elim (one_of (λ m. ((m == "e1000e") ≡ true) ⊎ Read nic.mac bridge nic.order m)
      (pve_model nic.model) pve_models
      (
        inr (known_model nic.mac bridge nic.order "virtio" h k refl refl refl),
        (
          inr (known_model nic.mac bridge nic.order "e1000" h k refl refl refl),
          (
            inl refl,
            (
              inr (known_model nic.mac bridge nic.order "vmxnet3" h k refl refl refl),
              (inr (known_model nic.mac bridge nic.order "rtl8139" h k refl refl refl), tt),
            ),
          ),
        ),
      )
      (pve_model_known nic.model)) [
        | inl same ↦ absurd (ground (arith, same, other))
        | inr fine ↦ fine
      ]
