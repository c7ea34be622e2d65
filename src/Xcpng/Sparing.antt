-- ===== src/Xcpng/Sparing.antt =====
-- What the deletion of a VM in backend/phif/connectors/xcpng/connector.py does to its disks.
use pure_hypervisor_integrat.Prelude.{
  String, Bool, true, false, List, [], ◌∷◌, ◌≡◌, refl, sym, subst, ◌∙◌, ◌++◌, none, Any, Bool-cases,
  arith, ◌⊎◌, inl, inr, All, All-append, text_or, ◌==◌, if◌then◌else◌,
}
use mathlib.Core.List.{append_assoc}
use pure_hypervisor_integrat.Prelude.Text.{fstring}
use pure_hypervisor_integrat.Array.Io.{done, pure, ◌>>=◌, by_end}
use pure_hypervisor_integrat.Proxmox.Session.{
  Outside, Event, Ssh, Session, Act, ran, slept, said, asked, run,
}
use pure_hypervisor_integrat.Proxmox.Doing.{
  Does, Ends, Grown-trans, Does-pure, Does-raised, Does-bind, Does-then, Does-if,
}
use pure_hypervisor_integrat.Xcpng.Records.{Record, value_of, parse_records}
use pure_hypervisor_integrat.Xcpng.Machines.{pool_master, xe}
use pure_hypervisor_integrat.Xcpng.Capture.{absent_vdi}
use pure_hypervisor_integrat.Xcpng.Creation.{xe_each}
use pure_hypervisor_integrat.Xcpng.Removal.{forget_each, delete_pool_vm}

Any-here :
    (Q : Record → Type 0) (before : List Record) (r : Record) (rs : List Record)
    → Q r
    → Any Q (before ++ (r ∷ rs))
Any-here Q [] r rs q = inl q
Any-here Q (b ∷ before) r rs q = inr (Any-here Q before r rs q)

-- the question for the disks of the VM
abbrev pub disks_command : String → String
disks_command vm_ref =
    fstring ("xe vbd-list vm-uuid=" ∷ vm_ref ∷ " type=Disk params=uuid,vdi-uuid" ∷ [])

module _ (o : Outside) (vm_ref : String) (keep : Bool) where
  -- the host that commands are run on
  abbrev pub master_host : String
  master_host = text_or o.target.pool_master_host (text_or o.target.host "")

  -- the field of one of the VM's disks, as the pool has listed them
  abbrev pub Listed : String → String → Type 0
  Listed key value =
      (past : List Event) × (out : String) × (o.shell past (record {
        host = master_host;
        lines = disks_command vm_ref ∷ [];
        check = false;
        timeout = none;
      })
        ≡ done out)
      × Any (λ r. value_of key r ≡ value) (parse_records out)

  -- a command that the deletion may run: those about disks only if they are kept
  abbrev pub Allowed : String → Type 0
  Allowed command =
      ((keep ≡ true) × (command ≡ disks_command vm_ref))
      ⊎ ((keep ≡ true)
          × (vbd : String) × Listed "uuid" vbd
          × (command ≡ fstring ("xe vbd-destroy uuid=" ∷ vbd ∷ [])))
      ⊎ ((keep ≡ true)
          × (vdi : String) × Listed "vdi-uuid" vdi
          × (command ≡ fstring ("xe vdi-forget uuid=" ∷ vdi ∷ [])))
      ⊎ (command ≡ fstring ("xe vm-destroy uuid=" ∷ vm_ref ∷ []))

  abbrev pub OnlyForgets : Event → Type 0
  OnlyForgets (ran c) = (command : String) × (c.lines ≡ command ∷ []) × Allowed command
  OnlyForgets (slept n) = ⊥
  OnlyForgets (said t) = ⊥
  OnlyForgets (asked call) = ⊥

  abbrev P : Event → Type 0
  P = OnlyForgets

  Does-run : (c : Ssh) → P (ran c) → Does P (run o c)
  unfolding run Does
  Does-run c p s = (ran c ∷ [], refl, (p, tt))

  Does-xe : (command : String) → Allowed command → Does P (xe o command)
  unfolding xe pool_master
  Does-xe command p =
      Does-bind P _ _ (Does-if P _ _ _ (Does-raised P String _) (Does-pure P master_host))
        (λ host. Does-run _ (command, refl, p))

  xe_answered :
      (command : String) (s : Session) (out : String) (s' : Session)
      → xe o command s ≡ (done out, s')
      → o.shell s.events
          (record { host = master_host; lines = command ∷ []; check = false; timeout = none })
        ≡ done out
  unfolding xe pool_master run ◌>>=◌
  xe_answered command s out s' q = elim (Bool-cases (master_host == "")) [
    | inl e ↦ ground (arith, e, q)
    | inr e ↦ ground (arith, e, q)
  ]

  -- a command, and what follows its answer
  Does-answer :
      {A : Type 0} (command : String) (k : String → Act A)
      → Allowed command
      → ((past : List Event) (out : String)
          → o.shell past
              (record { host = master_host; lines = command ∷ []; check = false; timeout = none })
            ≡ done out
          → Does P (k out))
      → Does P (xe o command >>= k)
  unfolding Does
  Does-answer command k p later s =
      by_end (xe o command) k s (Ends P s)
        (λ out s' q.
          Grown-trans P s.events s'.events _ (subst (Ends P s) q (Does-xe command p s))
            (later s.events out (xe_answered command s out s' q) s'))
        (λ e s' q. subst (Ends P s) q (Does-xe command p s))

  Does-xe_each : (commands : List String) → All Allowed commands → Does P (xe_each o commands)
  unfolding xe_each
  Does-xe_each [] all = Does-pure P tt
  Does-xe_each (command ∷ rest) (p, all) =
      Does-bind P _ _ (Does-xe command p) (λ out. Does-xe_each rest all)

  Does-forget_each :
      keep ≡ true
      → (rs : List Record)
      → All (λ r. Listed "uuid" (value_of "uuid" r) × Listed "vdi-uuid" (value_of "vdi-uuid" r)) rs
      → Does P (forget_each o rs)
  unfolding forget_each
  Does-forget_each kept [] known = Does-pure P tt
  Does-forget_each kept (r ∷ rs) ((vbd, vdi), known) =
      Does-then P _ _
        (Does-xe_each _ (
          All-append Allowed _ _ (destroyed (value_of "uuid" r == "") (value_of "uuid" r) vbd)
            (forgotten (absent_vdi (value_of "vdi-uuid" r)) (value_of "vdi-uuid" r) vdi)))
        (Does-forget_each kept rs known)
    where
      destroyed :
          (b : Bool) (vbd : String)
          → Listed "uuid" vbd
          → All Allowed (if b then [] else fstring ("xe vbd-destroy uuid=" ∷ vbd ∷ []) ∷ [])
      destroyed true vbd known = tt
      destroyed false vbd known = (inr (inl (kept, vbd, known, refl)), tt)

      forgotten :
          (b : Bool) (vdi : String)
          → Listed "vdi-uuid" vdi
          → All Allowed (if b then [] else fstring ("xe vdi-forget uuid=" ∷ vdi ∷ []) ∷ [])
      forgotten true vdi known = tt
      forgotten false vdi known = (inr (inr (inl (kept, vdi, known, refl))), tt)

  -- what is listed is known to be so
  parse_records-Listed :
      (past : List Event) (out : String)
      → o.shell past (record {
        host = master_host;
        lines = disks_command vm_ref ∷ [];
        check = false;
        timeout = none;
      })
        ≡ done out
      → (before rs : List Record) → parse_records out ≡ before ++ rs
      → All (λ r. Listed "uuid" (value_of "uuid" r) × Listed "vdi-uuid" (value_of "vdi-uuid" r)) rs
  parse_records-Listed past out q before [] cut = tt
  parse_records-Listed past out q before (r ∷ rs) cut = (
    (
      (past, out, q, subst (Any _) (sym cut) (Any-here _ before r rs refl)),
      (past, out, q, subst (Any _) (sym cut) (Any-here _ before r rs refl)),
    ),
    parse_records-Listed past out q (before ++ (r ∷ [])) rs
        (cut ∙ sym (append_assoc before (r ∷ []) rs)),
  )

  -- Whatever the pool answers, the deletion of a VM asks the array for nothing and destroys no VDI. If
  -- the disks are to be kept, it runs nothing but the question for the VM's disks, the destruction of
  -- VBDs and the forgetting of VDIs that an answer to this question lists, and the destruction of the
  -- VM's record; if not, nothing but that last command, so that the disks are not freed either.
  pub delete_pool_vm-OnlyForgets : Does OnlyForgets (delete_pool_vm o vm_ref keep)
  unfolding delete_pool_vm
  delete_pool_vm-OnlyForgets =
      Does-then P _ _ (first keep refl)
        (Does-bind P _ _ (Does-xe _ (inr (inr (inr refl)))) (λ out. Does-pure P _))
    where
      first :
          (b : Bool)
          → keep ≡ b
          → Does P (
              if b
              then (xe o (disks_command vm_ref) >>= λ out. forget_each o (parse_records out))
              else pure tt)
      first true kept = Does-answer _ _ (inl (kept, refl)) (λ past out q.
          Does-forget_each kept (parse_records out)
            (parse_records-Listed past out q [] (parse_records out) refl))
      first false kept = Does-pure P tt
