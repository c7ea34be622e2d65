-- ===== src/Array/Volumes.antt =====
-- An array's volumes, abstractly: a volume for each name, and the names that are still reserved. The
-- volume operations of `MockFlashArrayClient` refine them.
use mathlib.Core.Path.{fun_ext}
use pure_hypervisor_integrat.Prelude.{
  String, ◌≡◌, refl, ap, ◌∙◌, Bool, true, false, ◌==◌, eq_iff, Option, none, some, List, [], ◌∷◌,
  contains, given, if◌then◌else◌, lookup, maybe, arith,
}
use pure_hypervisor_integrat.Prelude.Dict.{assign, erase, get_or, lookup-assign, lookup-erase}
use pure_hypervisor_integrat.Array.Mock.{
  Vol, Mock, no_volume, add, discard, copied_serial, create_volume, clone_volume, copy_volume,
  import_replicated_volume, extend_volume, delete_volume, rename_volume, get_volume,
}

-- what the volumes of an array are
pub record Spec : Type 0 where
  pub vols : String → Option Vol
  pub reserved : String → Bool

-- a function, changed at one name
abbrev pub update : {A : Type 0} → (String → A) → String → A → String → A
update f k w j = if k == j then w else f j

-- the serial by which a volume is known, if it has one
abbrev pub identity : Option Vol → Option String
identity none = none
identity (some v) = if given v.serial then v.serial else none

-- the first of two serials that is there
abbrev pub first_of : Option String → Option String → Option String
first_of (some s) later = some s
first_of none later = later

-- a call of a volume operation
pub data Op : Type 0 where
  create : String → String → Op
  clone : String → String → Op
  copy : String → String → Bool → Op
  import : String → String → Op
  extend : String → String → Op
  delete : String → Bool → Op
  rename : String → String → Op

module _ (serial_of : String → String) where
  -- the call, on the client
  unfoldable pub call : Op → Mock → Mock
  call (create name size) = create_volume serial_of name size
  call (clone source dest) = clone_volume serial_of source dest
  call (copy source dest overwrite) = copy_volume serial_of source dest overwrite
  call (import source dest) = import_replicated_volume serial_of source dest
  call (extend name size) = extend_volume name size
  call (delete name eradicate) = delete_volume name eradicate
  call (rename old new) = rename_volume old new

  -- the same, on the abstract volumes: an existing volume is only named by an overwriting copy, which
  -- leaves it its identity
  unfoldable pub promise : Op → Spec → Spec
  promise (create name size) σ = record σ {
    vols = update σ.vols name (some (record { size = some size; serial = some (serial_of name) }));
  }
  promise (clone source dest) σ = record σ {
    vols =
        update σ.vols dest
          (some (record (get_or no_volume (σ.vols source)) { serial = some (serial_of dest) }));
  }
  promise (copy source dest overwrite) σ =
      let copied = get_or no_volume (σ.vols source) in
      record σ {
        vols = update σ.vols dest (
            some (record copied {
              serial =
                  first_of (if overwrite then identity (σ.vols dest) else none)
                    (first_of copied.serial (some (serial_of dest)));
            }));
      }
  promise (import source dest) σ = record σ {
    vols = update σ.vols dest (some (record { size = some "0"; serial = some (serial_of dest) }));
  }
  promise (extend name size) σ = record σ {
    vols = update σ.vols name (some (record (get_or no_volume (σ.vols name)) { size = some size }));
  }
  promise (delete name eradicate) σ = record {
    vols = update σ.vols name none;
    reserved = update σ.reserved name (if eradicate then false else true);
  }
  promise (rename old new) σ =
      maybe (σ.vols old) σ (λ v. record σ { vols = update (update σ.vols old none) new (some v) })

  unfoldable pub run_calls : List Op → Mock → Mock
  run_calls [] s = s
  run_calls (op ∷ ops) s = run_calls ops (call op s)

  unfoldable pub replay : List Op → Spec → Spec
  replay [] σ = σ
  replay (op ∷ ops) σ = replay ops (promise op σ)

-- the abstract volumes of a client
abbrev pub view : Mock → Spec
view s = record {
  vols = λ name. lookup name s.volumes;
  reserved = λ name. contains name s.destroyed;
}

contains-discard :
    (k j : String) (xs : List String)
    → contains j (discard k xs) ≡ (if k == j then false else contains j xs)
unfolding discard
contains-discard k j [] = ground arith
contains-discard k j (x ∷ xs) =
    ground (arith, eq_iff k j, eq_iff x k, eq_iff x j, contains-discard k j xs)

contains_here :
    (k j : String) (xs : List String) → k ≡ j → contains k xs ≡ true → contains j xs ≡ true
contains_here k j xs q h = ground arith

contains-add :
    (k j : String) (xs : List String)
    → contains j (add k xs) ≡ (if k == j then true else contains j xs)
contains-add k j xs = ground (arith, eq_iff k j, contains_here k j xs)

lookup_fun :
    (k : String) (v : Vol) (m : List (String × Vol))
    → ◌≡◌ {A = String → Option Vol}
        (λ j. lookup j (assign k v m))
        (update (λ j. lookup j m) k (some v))
lookup_fun k v m = fun_ext λ j. lookup-assign k j v m

erase_fun :
    (k : String) (m : List (String × Vol))
    → ◌≡◌ {A = String → Option Vol} (λ j. lookup j (erase k m)) (update (λ j. lookup j m) k none)
erase_fun k m = fun_ext λ j. lookup-erase k j m

delete_fun :
    (k : String) (eradicate : Bool) (xs : List String)
    → ◌≡◌ {A = String → Bool}
        (λ j. contains j (if eradicate then discard k xs else add k xs))
        (update (λ j. contains j xs) k (if eradicate then false else true))
delete_fun k true xs = fun_ext λ j. contains-discard k j xs
delete_fun k false xs = fun_ext λ j. contains-add k j xs

serial-copied :
    (serial_of : String → String) (dest : String) (overwrite : Bool) (existing : Option Vol)
    (copied : Vol)
    → copied_serial serial_of dest overwrite existing copied
      ≡ first_of
          (if overwrite then identity existing else none)
          (first_of copied.serial (some (serial_of dest)))
serial-copied serial_of dest overwrite existing copied = ground arith

with_vols :
    (s : Mock) (f g : String → Option Vol)
    → f ≡ g
    → ◌≡◌ {A = Spec}
        (record { vols = f; reserved = λ j. contains j s.destroyed })
        (record { vols = g; reserved = λ j. contains j s.destroyed })
with_vols s f g q = ap (λ h. record { vols = h; reserved = λ j. contains j s.destroyed }) q

rename_fun :
    (old new : String) (s : Mock) (o : Option Vol)
    → view (maybe o s (λ v. record s { volumes = assign new v (erase old s.volumes) }))
      ≡ maybe o
          (view s)
          (λ v. record (view s) { vols = update (update (view s).vols old none) new (some v) })
rename_fun old new s none = refl
rename_fun old new s (some v) = with_vols s _ _ (
    lookup_fun new v (erase old s.volumes)
    ∙ ap (λ f. update f new (some v)) (erase_fun old s.volumes))

module _ (serial_of : String → String) where
  call_refines : (op : Op) (s : Mock) → view (call serial_of op s) ≡ promise serial_of op (view s)
  unfolding call promise create_volume clone_volume copy_volume import_replicated_volume
      extend_volume delete_volume rename_volume
  call_refines (create name size) s = with_vols s _ _ (lookup_fun name _ s.volumes)
  call_refines (clone source dest) s = with_vols s _ _ (lookup_fun dest _ s.volumes)
  call_refines (copy source dest overwrite) s =
      let copied = get_or no_volume (lookup source s.volumes) in
      with_vols s _ _ (lookup_fun dest _ s.volumes)
      ∙ ap
          (λ serial. record {
            vols = update (view s).vols dest (some (record copied { serial = serial }));
            reserved = (view s).reserved;
          })
          (serial-copied serial_of dest overwrite (lookup dest s.volumes) copied)
  call_refines (import source dest) s = with_vols s _ _ (lookup_fun dest _ s.volumes)
  call_refines (extend name size) s = with_vols s _ _ (lookup_fun name _ s.volumes)
  call_refines (delete name eradicate) s =
      ap
        (λ f. record {
          vols = f;
          reserved = λ j.
              contains j (if eradicate then discard name s.destroyed else add name s.destroyed);
        })
        (erase_fun name s.volumes)
      ∙ ap (λ g. record { vols = update (view s).vols name none; reserved = g })
          (delete_fun name eradicate s.destroyed)
  call_refines (rename old new) s = rename_fun old new s (lookup old s.volumes)

  -- Any sequence of volume operations on the client in memory has the effect that the same sequence has
  -- on the abstract volumes: on what each name stands for, and on which names are still reserved.
  pub run_calls_refines :
      (ops : List Op) (s : Mock) → view (run_calls serial_of ops s) ≡ replay serial_of ops (view s)
  unfolding run_calls replay
  run_calls_refines [] s = refl
  run_calls_refines (op ∷ ops) s =
      run_calls_refines ops (call serial_of op s) ∙ ap (replay serial_of ops) (call_refines op s)

  -- An overwriting copy onto a volume that is there and has a serial keeps the volume's serial, so that
  -- a device attached by it stays valid; the volume's size is the source's, and no other volume changes.
  pub copy_volume-serial :
      (source dest serial : String) (s : Mock) (size : Option String)
      → lookup dest s.volumes ≡ some (record { size = size; serial = some serial })
      → (serial == "") ≡ false
      → (get_volume dest (copy_volume serial_of source dest true s)).0
          ≡ some (record {
            size = (get_or no_volume (lookup source s.volumes)).size;
            serial = some serial;
          })
        × ((other : String)
            → (dest == other) ≡ false
            → (get_volume other (copy_volume serial_of source dest true s)).0
              ≡ (get_volume other s).0)
  unfolding copy_volume get_volume
  copy_volume-serial source dest serial s size here named = (
    lookup-assign dest dest _ s.volumes ∙ rw ((eq_iff dest dest).1 refl) (rw here (rw named refl)),
    λ other away. lookup-assign dest other _ s.volumes ∙ rw away refl,
  )
