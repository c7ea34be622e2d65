-- ===== src/Array/Registration.antt =====
-- What the registration of a pool's hosts does: theorems about `_register_host_group`, for every client,
-- and for the client in memory.
use pure_hypervisor_integrat.Prelude.{
  String, ◌≡◌, ◌≢◌, refl, sym, ◌∙◌, ap, Bool, false, not, ◌==◌, Option, none, some, List, [], ◌∷◌,
  map,
}
use pure_hypervisor_integrat.Prelude.Text.{sorted_set}
use pure_hypervisor_integrat.Array.Hosts.{Initiators}
use pure_hypervisor_integrat.Array.Io.{Answer, done, failed, by_end}
use pure_hypervisor_integrat.Array.Register.{
  HostClient, HostSpec, Planned, Registered, true_text, keys, groups_seen, chosen, look_at, look,
  look_all, create_missing, put_in_group, decide, register_host_group,
}

-- a registration that found a conflict
abbrev pub Conflicted : Answer Registered → Type 0
Conflicted (done r) = r.conflict ≢ none
Conflicted (failed e) = ⊥

-- the two questions to the array leave what `view` shows of it as it is
pub record Reads {S V : Type 0} (client : HostClient S) (view : S → V) : Type 0 where
  pub found : (i : Initiators) (s : S) → view (client.find_host i s).1 ≡ view s
  pub looked : (name : String) (s : S) → view (client.host_group_of name s).1 ≡ view s

module _ {S V : Type 0} (client : HostClient S) (view : S → V) (reads : Reads client view) where
  look_at-reads :
      (spec : HostSpec) (o : Option String) (s : S) → view (look_at client spec o s).1 ≡ view s
  unfolding look_at
  look_at-reads spec none s = refl
  look_at-reads spec (some e) s =
      by_end (client.host_group_of e) _ s (λ r. view r.1 ≡ view s)
        (λ group s' q. ap (λ r. view r.1) (sym q) ∙ reads.looked e s)
        (λ exc s' q. ap (λ r. view r.1) (sym q) ∙ reads.looked e s)

  look-reads : (spec : HostSpec) (s : S) → view (look client spec s).1 ≡ view s
  unfolding look
  look-reads spec s =
      by_end (client.find_host spec.initiators) _ s (λ r. view r.1 ≡ view s)
        (λ found s' q.
          look_at-reads spec (true_text found) s'
          ∙ ap (λ r. view r.1) (sym q)
          ∙ reads.found spec.initiators s)
        (λ e s' q. ap (λ r. view r.1) (sym q) ∙ reads.found spec.initiators s)

  look_all-reads : (specs : List HostSpec) (s : S) → view (look_all client specs s).1 ≡ view s
  unfolding look_all
  look_all-reads [] s = refl
  look_all-reads (spec ∷ specs) s =
      by_end (look client spec) _ s (λ r. view r.1 ≡ view s)
        (λ p s' q.
          by_end (look_all client specs) _ s' (λ r. view r.1 ≡ view s)
            (λ plan s'' q'.
              ap (λ r. view r.1) (sym q')
              ∙ look_all-reads specs s'
              ∙ ap (λ r. view r.1) (sym q)
              ∙ look-reads spec s)
            (λ e s'' q'.
              ap (λ r. view r.1) (sym q')
              ∙ look_all-reads specs s'
              ∙ ap (λ r. view r.1) (sym q)
              ∙ look-reads spec s))
        (λ e s' q. ap (λ r. view r.1) (sym q) ∙ look-reads spec s)

  put-Conflicted :
      (group : String) (adopted : Bool) (plan : List Planned) (s : S)
      → Conflicted (put_in_group client group adopted plan s).0
      → ⊥
  unfolding put_in_group
  put-Conflicted group adopted plan s =
      by_end (create_missing client plan) _ s (λ r. Conflicted r.0 → ⊥)
        (λ a s' q.
          by_end (client.new_group group (map chosen plan)) _ s' (λ r. Conflicted r.0 → ⊥)
            (λ b s'' q' c. c refl) (λ e s'' q' c. c))
        (λ e s' q c. c)

  decide-kept :
      (requested : String) (plan : List Planned) (groups : List String) (s : S)
      → Conflicted (decide client requested plan groups s).0
      → view (decide client requested plan groups s).1 ≡ view s
  unfolding decide
  decide-kept requested plan [] s c = absurd (put-Conflicted requested false plan s c)
  decide-kept requested plan (g ∷ []) s c =
      absurd (put-Conflicted g (not (g == requested)) plan s c)
  decide-kept requested plan (g ∷ h ∷ more) s c = refl

  -- A registration that answers with a conflict has changed nothing on the array, for every client whose
  -- questions leave the array as it is.
  pub conflict_harmless :
      (requested : String) (specs : List HostSpec) (s : S)
      → Conflicted (register_host_group client requested specs s).0
      → view (register_host_group client requested specs s).1 ≡ view s
  unfolding register_host_group
  conflict_harmless requested specs s =
      by_end (look_all client specs) _ s (λ r. Conflicted r.0 → view r.1 ≡ view s)
        (λ plan s' q c.
          decide-kept requested plan (sorted_set (keys (groups_seen [] plan))) s' c
          ∙ ap (λ r. view r.1) (sym q)
          ∙ look_all-reads specs s)
        (λ e s' q c. absurd c)
