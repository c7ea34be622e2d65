-- ===== src/Api/Single.antt =====
-- One migration of a VM at a time: theorems about `create_migration`.
use pure_hypervisor_integrat.Prelude.{
  ℕ, zero, suc, ◌≤◌, String, ◌≡◌, refl, sym, Bool, false, not, ◌==◌, Option, none, some, List, [],
  ◌∷◌, any, select, length, Bool-cases, inl, inr, eq_iff, arith,
}
use mathlib.Core.Option.{none-ne-some}
use pure_hypervisor_integrat.Prelude.Json.{Fields, json_bool, put}
use pure_hypervisor_integrat.Api.Http.{Response, accepted, refused, insist, ◌>>=◌}
use pure_hypervisor_integrat.Api.Pairs.{Hypervisor, Site, find_hv, is_cross}
use pure_hypervisor_integrat.Api.Migrations.{
  Migration, Database, Submission, change_row, update_migration, pending_row, in_progress, launch,
  run_migration, create_migration, requested, answered,
}

-- the number of migrations of a VM that are not over
abbrev pub running_count : String → String → Database → ℕ
running_count source vm_ref db = length (select (in_progress source vm_ref) db.migrations)

-- no VM has two
abbrev pub Single : Database → Type 0
Single db = (source vm_ref : String) → running_count source vm_ref db ≤ 1

-- what the tables satisfy after an answer; a refusal leaves them as they are
abbrev pub Stored : (Database → Type 0) → Response ((String × String) × Database) → Type 0
Stored P (accepted r) = P r.1
Stored P (refused status detail) = Unit

module _ (p : Migration → Bool) where
  length-select-change_row :
      (id : String) (change : Migration → Migration)
      → ((m : Migration) → p (change m) ≡ p m)
      → (rows : List Migration)
      → length (select p (change_row id change rows)) ≡ length (select p rows)
  unfolding change_row
  length-select-change_row id change kept [] = refl
  length-select-change_row id change kept (m ∷ rows) =
      ground (arith, kept m, length-select-change_row id change kept rows)

  length-select-update_migration :
      (takes : ℕ → Bool) (n : ℕ) (id : String) (change : Migration → Migration)
      → ((m : Migration) → p (change m) ≡ p m)
      → (rows : List Migration)
      → length (select p (update_migration takes n id change rows)) ≡ length (select p rows)
  unfolding update_migration
  length-select-update_migration takes zero id change kept rows = refl
  length-select-update_migration takes (suc n) id change kept rows = ground (
    arith,
    length-select-change_row id change kept rows,
    length-select-update_migration takes n id change kept rows,
  )

  none_selected : (rows : List Migration) → any p rows ≡ false → length (select p rows) ≡ 0
  none_selected [] q = refl
  none_selected (m ∷ rows) q = ground (arith, none_selected rows)

-- a new row, of a VM that has none in progress
single_more :
    (row : Migration) (rows : List Migration)
    → any (in_progress row.source_hypervisor_id row.vm_ref) rows ≡ false
    → ((source vm_ref : String) → length (select (in_progress source vm_ref) rows) ≤ 1)
    → (source vm_ref : String) → length (select (in_progress source vm_ref) (row ∷ rows)) ≤ 1
single_more row rows idle single source vm_ref =
    elim (Bool-cases (row.source_hypervisor_id == source)) [
      | inr other ↦ ground (arith, other, single source vm_ref)
      | inl here ↦ elim (Bool-cases (row.vm_ref == vm_ref)) [
        | inr other ↦ ground (arith, here, other, single source vm_ref)
        | inl also ↦
            let none_left = none_selected (in_progress source vm_ref) rows (
              rw
                (
                  sym ((eq_iff row.source_hypervisor_id source).0 here),
                  sym ((eq_iff row.vm_ref vm_ref).0 also),
                )
                idle) in
            ground (arith, here, also, none_left)
      ]
    ]

module _ (supports : String → Bool) (site : Hypervisor → Site) (migration_id job_id : String)
    (takes : ℕ → Bool) where
  launch-Single :
      (source dest : Hypervisor) (vm_ref : String) (network_map options : Fields) (db : Database)
      → any (in_progress source.id vm_ref) db.migrations ≡ false
      → Single db
      → Single
          (launch supports site migration_id job_id takes source dest vm_ref network_map options
            db).1
  unfolding launch
  launch-Single source dest vm_ref network_map options db idle single s v =
      let more =
        single_more
          (pending_row migration_id source.id dest.id vm_ref network_map
            (put "cross_array" (json_bool (is_cross supports site source dest)) options))
          db.migrations idle single s v in
      omega (
        arith,
        more,
        length-select-update_migration (in_progress s v) takes 3 migration_id
            (λ m. record m { job_id = some job_id }) (λ m. refl)
            (pending_row migration_id source.id dest.id vm_ref network_map
                (put "cross_array" (json_bool (is_cross supports site source dest)) options)
              ∷ db.migrations),
      )

pub found_id :
    (hv_id : String) (rows : List Hypervisor) (h : Hypervisor)
    → find_hv hv_id rows ≡ some h
    → h.id ≡ hv_id
unfolding find_hv
found_id hv_id [] h q = absurd (none-ne-some _ q)
found_id hv_id (g ∷ rows) h q = ground (arith, eq_iff g.id hv_id, found_id hv_id rows h)

-- a step of a handler that has to be taken
taken :
    {A : Type 0} (P : Database → Type 0) (r : Response A)
    (k : A → Response ((String × String) × Database))
    → ((a : A) → r ≡ accepted a → Stored P (k a))
    → Stored P (r >>= k)
unfolding ◌>>=◌
taken P (accepted a) k go = go a refl
taken P (refused status detail) k go = tt

idle_if :
    (busy : Bool) (status : ℕ) (detail : String)
    → insist (not busy) status detail ≡ accepted tt
    → busy ≡ false
idle_if busy status detail q = ground arith

module _ (supports : String → Bool) (site : Hypervisor → Site) (migration_id job_id : String)
    (takes : ℕ → Bool) where
  run_migration-Single :
      (source_id dest_id vm_ref : String) (network_map options : Fields) (db : Database)
      → any (in_progress source_id vm_ref) db.migrations ≡ false
      → Single db
      → Stored Single (
          answered supports site migration_id job_id takes (
            run_migration supports site migration_id job_id takes source_id dest_id vm_ref
              network_map options db))
  unfolding run_migration
  run_migration-Single source_id dest_id vm_ref network_map options db idle single =
      go (find_hv source_id db.hypervisors) (find_hv dest_id db.hypervisors) refl
    where
      go :
          (found_source found_dest : Option Hypervisor)
          → find_hv source_id db.hypervisors ≡ found_source
          → Stored Single (
              answered supports site migration_id job_id takes (elim found_source [
                | none ↦ none
                | some source ↦ elim found_dest [
                  | none ↦ none
                  | some dest ↦ some (
                      launch supports site migration_id job_id takes source dest vm_ref network_map
                        options db)
                ]
              ]))
      go none found_dest q = tt
      go (some source) none q = tt
      go (some source) (some dest) q =
          launch-Single supports site migration_id job_id takes source dest vm_ref network_map
            options db (rw (found_id source_id db.hypervisors source q) idle) single

  -- If, between the query of `create_migration` for a migration of the VM in progress and its commit, no
  -- such migration has come up, and no VM has two migrations that are not over, then none has after the
  -- commit either, whatever is submitted and also if the row's job could not be noted.
  pub create_migration-Single :
      (body : Submission) (seen db : Database)
      → ((source : String)
          → any (in_progress source body.vm_ref) seen.migrations ≡ false
          → any (in_progress source body.vm_ref) db.migrations ≡ false)
      → Single db
      → Stored Single (create_migration supports site migration_id job_id takes body seen db)
  unfolding create_migration
  create_migration-Single body seen db calm single = taken Single _ _ (λ (source : Hypervisor) _.
      taken Single _ _ (λ (dest : Hypervisor) _. taken Single _ _ (λ (_ : Unit {0}) _.
        taken Single _ _ (λ (_ : Unit {0}) free.
          run_migration-Single source.id dest.id body.vm_ref body.network_map (requested body) db
            (calm source.id (
              idle_if (any (in_progress source.id body.vm_ref) seen.migrations) 409
                "This VM already has a migration in progress" free))
            single))))
