-- ===== src/Host/Commands.antt =====
-- What reaches a host: theorems about `_clean_nics` and `refresh_block_devices`.
use pure_hypervisor_integrat.Prelude.{
  ℕ, ◌≤◌, String, ◌≡◌, refl, Bool, true, false, not, ◌&&◌, ◌==◌, if◌then◌else◌, Option, List, [],
  ◌∷◌, ◌++◌, map, All, All-append, contains, text_or, arith,
}
use pure_hypervisor_integrat.Prelude.Text.{strip}
use pure_hypervisor_integrat.Host.Nics.{usable, clean_onto, clean_nics}
use pure_hypervisor_integrat.Host.Multipath.{
  is_nvme, flush, rescan, await_node, commands, transport, refresh_block_devices,
}

-- every name is not empty and consists of letters, digits and `._:-`
abbrev pub AllUsable : List String → Type 0
AllUsable = All (λ n. usable n ≡ true)

left_of : (a b : Bool) → (a && b) ≡ true → a ≡ true
left_of true b q = refl
left_of false b q = q

clean_onto-AllUsable :
    (out : List String) (nics : List (Option String))
    → AllUsable out
    → AllUsable (clean_onto out nics)
unfolding clean_onto
clean_onto-AllUsable out [] good = good
clean_onto-AllUsable out (nic ∷ nics) good =
    choose (usable n && not (contains n out)) refl
      (λ ok.
        clean_onto-AllUsable (out ++ (n ∷ [])) nics
          (All-append (λ m. usable m ≡ true) out (n ∷ []) good (ok, tt)))
      (clean_onto-AllUsable out nics good)
  where
    n : String
    n = strip (text_or nic "")

    choose :
        (b : Bool)
        → (usable n && not (contains n out)) ≡ b
        → (usable n ≡ true → AllUsable (clean_onto (out ++ (n ∷ [])) nics))
        → AllUsable (clean_onto out nics)
        → AllUsable (if b then clean_onto (out ++ (n ∷ [])) nics else clean_onto out nics)
    choose true q taken left = taken (left_of (usable n) _ q)
    choose false q taken left = left

-- Whatever names of interfaces are given, those that reach a host's shell and its settings are not
-- empty and have no other characters than letters, digits, dots, underscores, colons and dashes.
pub clean_nics-AllUsable : (nics : List (Option String)) → AllUsable (clean_nics nics)
unfolding clean_nics
clean_nics-AllUsable nics = clean_onto-AllUsable [] nics tt

abbrev pub Bounded : String × ℕ → Type 0
Bounded (command, limit) = limit ≤ 60

map-Bounded :
    (f : String → String × ℕ)
    → ((w : String) → Bounded (f w))
    → (ws : List String) → All Bounded (map f ws)
map-Bounded f each [] = tt
map-Bounded f each (w ∷ ws) = (each w, map-Bounded f each ws)

rescan_limit :
    (a b : Bool) (x y z : String) → Bounded (if a then (x, 60) else if b then (y, 60) else (z, 60))
rescan_limit true b x y z = omega arith
rescan_limit false true x y z = omega arith
rescan_limit false false x y z = omega arith

rescan-Bounded : (proto : String) → Bounded (rescan proto)
rescan-Bounded proto = rescan_limit (proto == "nvme-tcp") (proto == "iscsi") _ _ _

-- Each command that the refresh of block devices sends has a time limit of at most 60 seconds, for
-- every transport and any number of volumes.
pub refresh_block_devices-Bounded :
    (protocol : Option String) (wwids : List String)
    → All Bounded (refresh_block_devices protocol wwids)
unfolding refresh_block_devices commands
refresh_block_devices-Bounded protocol wwids = choose (is_nvme (transport protocol))
  where
    proto : String
    proto = transport protocol

    choose :
        (b : Bool)
        → All Bounded (
            if b
            then rescan proto ∷ []
            else map flush wwids
              ++ (rescan proto ∷ ("multipath -r || true", 60) ∷ map await_node wwids))
    choose true = (rescan-Bounded proto, tt)
    choose false =
        All-append Bounded (map flush wwids) _ (map-Bounded flush (λ w. omega arith) wwids)
          (rescan-Bounded proto, (omega arith, map-Bounded await_node (λ w. omega arith) wwids))
