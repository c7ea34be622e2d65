-- ===== src/Jobs/Watching.antt =====
-- A pass of the monitor only records: theorems about `run_monitor_cycle`.
use pure_hypervisor_integrat.Prelude.{
  ℕ, String, ◌≡◌, refl, sym, ap, ◌∙◌, subst, Bool, true, false, Option, none, some, List, [], ◌∷◌,
  if◌then◌else◌, arith, Bool-cases, inl, inr,
}
use pure_hypervisor_integrat.Prelude.Json.{
  Fields, json_dict, put, flagged, same_value_refl, get-put,
}
use pure_hypervisor_integrat.Jobs.Monitor.{
  Watched, value_of, as_dict, previous, has_drift, changed, is_eligible, recorded, watch,
  run_monitor_cycle,
}

-- two assessments that find the same hosts, at whatever times; or two that fail
abbrev pub Alike : Option Fields → Option Fields → Type 0
Alike none none = Unit
Alike (some a) (some b) =
    (value_of "new_hosts" b ≡ value_of "new_hosts" a)
    × (value_of "departed_hosts" b ≡ value_of "departed_hosts" a)
Alike none (some b) = ⊥
Alike (some a) none = ⊥

changed-Alike : (prev a b : Fields) → Alike (some a) (some b) → changed prev b ≡ changed prev a
unfolding changed
changed-Alike prev a b (new, departed) = rw (new, departed) refl

unchanged : (a : Fields) → changed a a ≡ false
unfolding changed
unchanged a =
    rw (same_value_refl (value_of "new_hosts" a), same_value_refl (value_of "departed_hosts" a))
      refl

recorded-same : (hv : Watched) (a : Fields) → changed (previous hv) a ≡ false → recorded hv a ≡ hv
unfolding recorded
recorded-same hv a q = rw (q) refl

-- the row with the assessment
with_assessment : Watched → Fields → Watched
with_assessment hv a = record hv { state = put "cluster_assessment" (json_dict a) hv.state }

recorded-changed :
    (hv : Watched) (a : Fields)
    → changed (previous hv) a ≡ true
    → recorded hv a ≡ with_assessment hv a
unfolding recorded with_assessment
recorded-changed hv a q = rw (q) refl

previous-with_assessment : (hv : Watched) (a : Fields) → previous (with_assessment hv a) ≡ a
unfolding previous with_assessment
previous-with_assessment hv a =
    ap as_dict (get-put "cluster_assessment" "cluster_assessment" (json_dict a) hv.state)

recorded-recorded :
    (hv : Watched) (a b : Fields)
    → Alike (some a) (some b)
    → recorded (recorded hv a) b ≡ recorded hv a
recorded-recorded hv a b alike = elim (Bool-cases (changed (previous hv) a)) [
  | inr q ↦
      ap (λ h. recorded h b) (recorded-same hv a q)
      ∙ recorded-same hv b (changed-Alike (previous hv) a b alike ∙ q)
      ∙ sym (recorded-same hv a q)
  | inl q ↦
      ap (λ h. recorded h b) (recorded-changed hv a q)
      ∙ recorded-same (with_assessment hv a) b (
          changed-Alike (previous (with_assessment hv a)) a b alike
          ∙ ap (λ p. changed p a) (previous-with_assessment hv a)
          ∙ unchanged a)
      ∙ sym (recorded-changed hv a q)
]

-- an assessment changes no column but the state, and nothing that makes a cluster eligible
recorded-is_eligible :
    (can_reconcile : String → Bool) (hv : Watched) (a : Fields)
    → is_eligible can_reconcile (recorded hv a) ≡ is_eligible can_reconcile hv
unfolding is_eligible recorded flagged
recorded-is_eligible can_reconcile hv a =
    ground (arith, get-put "monitoring_disabled" "cluster_assessment" (json_dict a) hv.state)

-- what a turn of the loop adds to the count
abbrev flag_of : Fields → ℕ
flag_of a = if has_drift a then 1 else 0

module _ (can_reconcile : String → Bool) (assess : Watched → Option Fields) (hv : Watched) where
  watch-passed_over : is_eligible can_reconcile hv ≡ false → watch can_reconcile assess hv ≡ (hv, 0)
  unfolding watch
  watch-passed_over q = rw (q) refl

  watch-unseen :
      is_eligible can_reconcile hv ≡ true
      → assess hv ≡ none
      → watch can_reconcile assess hv ≡ (hv, 0)
  unfolding watch
  watch-unseen q r = rw (q, r) refl

  watch-seen :
      (a : Fields)
      → is_eligible can_reconcile hv ≡ true
      → assess hv ≡ some a
      → watch can_reconcile assess hv ≡ (recorded hv a, flag_of a)
  unfolding watch
  watch-seen a q r = rw (q, r) refl

module _ (can_reconcile : String → Bool) (assess again : Watched → Option Fields)
    (alike : (hv : Watched) (state : Fields)
      → Alike (assess hv) (again (record hv { state = state }))) where
  Alike-recorded : (hv : Watched) (a : Fields) → Alike (assess hv) (again (recorded hv a))
  unfolding with_assessment
  Alike-recorded hv a = elim (Bool-cases (changed (previous hv) a)) [
    | inl q ↦
        subst (λ h. Alike (assess hv) (again h)) (sym (recorded-changed hv a q))
          (alike hv (put "cluster_assessment" (json_dict a) hv.state))
    | inr q ↦
        subst (λ h. Alike (assess hv) (again h)) (sym (recorded-same hv a q)) (alike hv hv.state)
  ]

  watch-watch :
      (hv : Watched)
      → watch can_reconcile again ((watch can_reconcile assess hv).0)
        ≡ watch can_reconcile assess hv
  watch-watch hv = by_test (is_eligible can_reconcile hv) (assess hv) refl refl
    where
      settled :
          (r : Watched × ℕ)
          → watch can_reconcile assess hv ≡ r
          → watch can_reconcile again (r.0) ≡ r
          → watch can_reconcile again ((watch can_reconcile assess hv).0)
            ≡ watch can_reconcile assess hv
      settled r q same = ap (λ x. watch can_reconcile again (x.0)) q ∙ same ∙ sym q

      seen_again :
          (a : Fields) (o : Option Fields)
          → is_eligible can_reconcile hv ≡ true
          → assess hv ≡ some a
          → again (recorded hv a) ≡ o
          → Alike (some a) o
          → watch can_reconcile again (recorded hv a) ≡ (recorded hv a, flag_of a)
      seen_again a none q r seen differ = absurd differ
      seen_again a (some b) q r seen (new, departed) =
          watch-seen can_reconcile again (recorded hv a) b
            (recorded-is_eligible can_reconcile hv a ∙ q) seen
          ∙ ap (λ h. (h, flag_of b)) (recorded-recorded hv a b (new, departed))
          ∙ rw (new, departed) refl

      unseen_again :
          (o : Option Fields)
          → is_eligible can_reconcile hv ≡ true
          → again hv ≡ o
          → Alike none o
          → watch can_reconcile again hv ≡ (hv, 0)
      unseen_again none q seen same = watch-unseen can_reconcile again hv q seen
      unseen_again (some b) q seen differ = absurd differ

      by_test :
          (b : Bool) (o : Option Fields)
          → is_eligible can_reconcile hv ≡ b
          → assess hv ≡ o
          → watch can_reconcile again ((watch can_reconcile assess hv).0)
            ≡ watch can_reconcile assess hv
      by_test false o q r =
          settled (hv, 0) (watch-passed_over can_reconcile assess hv q)
            (watch-passed_over can_reconcile again hv q)
      by_test true none q r =
          settled (hv, 0) (watch-unseen can_reconcile assess hv q r)
            (unseen_again (again hv) q refl (subst (λ x. Alike x (again hv)) r (alike hv hv.state)))
      by_test true (some a) q r =
          settled (recorded hv a, flag_of a) (watch-seen can_reconcile assess hv a q r)
            (seen_again a (again (recorded hv a)) q r refl
              (subst (λ x. Alike x (again (recorded hv a))) r (Alike-recorded hv a)))

  -- if the clusters answer to a second pass of the monitor as they did to the first, at another time,
  -- then the second pass writes nothing and flags the same number of clusters
  pub run_monitor_cycle-run_monitor_cycle :
      (rows : List Watched)
      → run_monitor_cycle can_reconcile again ((run_monitor_cycle can_reconcile assess rows).0)
        ≡ run_monitor_cycle can_reconcile assess rows
  unfolding run_monitor_cycle
  run_monitor_cycle-run_monitor_cycle [] = refl
  run_monitor_cycle-run_monitor_cycle (hv ∷ rows) =
      rw (watch-watch hv, run_monitor_cycle-run_monitor_cycle rows) refl
