-- ===== src/Proxmox/Preflight.antt =====
-- What `deploy_integration` of backend/phif/connectors/proxmox/connector.py has done when a node does not
-- reach the array.
use pure_hypervisor_integrat.Prelude.{
  ℕ, zero, suc, ◌+◌, ◌*◌, Bool-cases, String, ◌≡◌, refl, sym, ap, ◌∙◌, subst, Bool, true, false,
  Option, some, none, List, [], ◌∷◌, Any, inl, inr, maybe, text_or, is_empty, if◌then◌else◌, arith,
}
use pure_hypervisor_integrat.Prelude.Text.{includes}
use pure_hypervisor_integrat.Array.Io.{Answer, done, failed, ◌>>=◌, ◌>>◌, by_end}
use pure_hypervisor_integrat.Proxmox.Names.{array_mgmt_target, lock_timeout}
use pure_hypervisor_integrat.Proxmox.Session.{
  Outside, Session, Act, Event, ran, slept, said, asked, Ssh, FlashArray, note, emit,
  is_mock_or_dry, run, rounds, locked_retry,
}
use pure_hypervisor_integrat.Proxmox.Nodes.{ClusterNode, array_probe, unreachable_nodes}
use pure_hypervisor_integrat.Proxmox.Machines.{Result}
use pure_hypervisor_integrat.Proxmox.Setup.{Plugin, checked_install, deploy_integration}
use pure_hypervisor_integrat.Proxmox.Doing.{
  Does, Ends, Grown-trans, Does-pure, Does-bind, Does-if, Does-locked_retry,
}
use pure_hypervisor_integrat.Proxmox.Refusal.{Refused}

module _ (o : Outside) (host : String) (port : ℕ) where
  -- the command that tries the array's address from a node
  abbrev pub probe_on : ClusterNode → Ssh
  probe_on n = record {
    host = n.host;
    lines = array_probe o host port ∷ [];
    check = false;
    timeout = none;
  }

  -- the node always answers, and never that it has reached the array
  abbrev pub CutOff : ClusterNode → Type 0
  CutOff n =
      (past : List Event)
      → (out : String) × (o.shell past (probe_on n) ≡ done out) × (includes out "ARRAY_OK" ≡ false)

  -- a try to reach the array, a pause, or a line for the user
  abbrev pub Probes : Event → Type 0
  Probes (ran c) = c.lines ≡ array_probe o host port ∷ []
  Probes (slept n) = Unit
  Probes (said t) = Unit
  Probes (asked call) = ⊥

  NotEmpty : Answer (List String) → Type 0
  NotEmpty (done xs) = is_empty xs ≡ false
  NotEmpty (failed e) = Unit

  -- however often the command is tried, the answer does not say that the array was reached
  Silent : Answer String × Session → Type 0
  Silent r =
      (out : String) × (s' : Session) × (r ≡ (done out, s')) × (includes out "ARRAY_OK" ≡ false)

  round_once :
      (left i : ℕ) (c : Ssh) (s : Session) (out : String)
      → o.shell s.events c ≡ done out
      → lock_timeout out ≡ false
      → rounds o (suc left) i c s ≡ (done out, note (ran c) s)
  unfolding rounds run
  round_once left i c s out q calm = ground (arith, q, calm)

  round_again :
      (left i : ℕ) (c : Ssh) (s : Session) (out : String)
      → o.shell s.events c ≡ done out
      → lock_timeout out ≡ true
      → rounds o (suc left) i c s
        ≡ rounds o left (suc i) c (note (slept (2 * (i + 1))) (note (ran c) s))
  unfolding rounds run
  round_again left i c s out q held = ground (arith, q, held)

  last_round :
      (i : ℕ) (c : Ssh) (s : Session) (out : String)
      → o.shell s.events c ≡ done out
      → rounds o 0 i c s ≡ (done out, note (ran c) s)
  unfolding rounds run
  last_round i c s out q = ap (λ a. (a, note (ran c) s)) q

  rounds-Silent :
      (n : ClusterNode)
      → CutOff n
      → (left i : ℕ) (s : Session) → Silent (rounds o left i (probe_on n) s)
  unfolding Silent
  rounds-Silent n off zero i s =
      let (out, q, silent) = off s.events in
      (out, note (ran (probe_on n)) s, last_round i (probe_on n) s out q, silent)
  rounds-Silent n off (suc left) i s =
      let (out, q, silent) = off s.events in
      let later =
        rounds-Silent n off left (suc i) (note (slept (2 * (i + 1))) (note (ran (probe_on n)) s)) in
      elim (Bool-cases (lock_timeout out)) [
        | inl held ↦ subst Silent (sym (round_again left i (probe_on n) s out q held)) later
        | inr calm ↦
            (out, note (ran (probe_on n)) s, round_once left i (probe_on n) s out q calm, silent)
      ]

  tried-Silent :
      (n : ClusterNode) → CutOff n → (s : Session) → Silent (locked_retry o (probe_on n) s)
  unfolding locked_retry
  tried-Silent n off = rounds-Silent n off 5 0

  unreachable-Probes :
      (nodes : List ClusterNode) → Does Probes (unreachable_nodes o nodes host port)
  unfolding unreachable_nodes
  unreachable-Probes [] = Does-pure Probes []
  unreachable-Probes (n ∷ nodes) = Does-if Probes (is_mock_or_dry o) _ _ (Does-pure Probes []) (
      Does-bind Probes _ _ (Does-locked_retry Probes o (λ k. tt) (probe_on n) refl)
        (λ out. Does-bind Probes _ _ (unreachable-Probes nodes) (λ later. Does-pure Probes _)))

  abbrev text_of : Answer String × Session → String
  text_of (done t, s) = t
  text_of (failed e, s) = ""

  longer :
      (b : Bool) (later : List String) (one : String)
      → is_empty later ≡ false
      → is_empty (if b then later else one ∷ later) ≡ false
  longer true later one h = h
  longer false later one h = refl

  NotEmpty-bind :
      {A : Type 0} (m : Act A) (f : A → Act (List String)) (s : Session)
      → ((a : A) (s' : Session) → m s ≡ (done a, s') → NotEmpty ((f a s').0))
      → NotEmpty (((m >>= f) s).0)
  unfolding NotEmpty
  NotEmpty-bind m f s later = by_end m f s (λ r. NotEmpty (r.0)) later (λ e s' q. tt)

  module _ (real : is_mock_or_dry o ≡ false) where
    -- a node that is cut off is among those that are reported
    unreachable-NotEmpty :
        (nodes : List ClusterNode) (s : Session)
        → Any CutOff nodes
        → NotEmpty ((unreachable_nodes o nodes host port s).0)
    unfolding unreachable_nodes NotEmpty Silent
    unreachable-NotEmpty [] s cut = elim cut [ ]
    unreachable-NotEmpty (n ∷ nodes) s (inl off) =
        let (out, s₁, known, silent) = tried-Silent n off s in
        rw (real) (
          NotEmpty-bind (locked_retry o (probe_on n)) _ s (λ a s' r.
            let missed : includes a "ARRAY_OK" ≡ false =
              ap (λ t. includes t "ARRAY_OK") (ap text_of (sym r ∙ known)) ∙ silent in
            rw (missed)
              (NotEmpty-bind (unreachable_nodes o nodes host port) _ s' (λ later s'' k. refl))))
    unreachable-NotEmpty (n ∷ nodes) s (inr cut) = rw (real) (
        NotEmpty-bind (locked_retry o (probe_on n)) _ s (λ a s' r.
          NotEmpty-bind (unreachable_nodes o nodes host port) _ s' (λ later s'' k.
            longer (includes a "ARRAY_OK") later _
              (subst (λ e. NotEmpty (e.0)) k (unreachable-NotEmpty nodes s' cut)))))

    checked-Refused :
        (plugin : Plugin) (nodes : List ClusterNode) (s : Session)
        → Any CutOff nodes
        → Ends Probes s (checked_install o plugin nodes (some (host, port)) s)
          × Refused ((checked_install o plugin nodes (some (host, port)) s).0)
    unfolding checked_install NotEmpty Does
    checked-Refused plugin nodes s cut =
        by_end (unreachable_nodes o nodes host port) _ s (λ r. Ends Probes s r × Refused (r.0))
          (λ un s' q.
            let found : is_empty un ≡ false =
              subst (λ e. NotEmpty (e.0)) q (unreachable-NotEmpty nodes s cut) in
            rw (found) (subst (Ends Probes s) q (unreachable-Probes nodes s), refl))
          (λ e s' q. (subst (Ends Probes s) q (unreachable-Probes nodes s), tt))

    -- it does nothing but tries, and does not succeed
    Stops : Act Result → Type 0
    Stops m = (s : Session) → Ends Probes s (m s) × Refused ((m s).0)

    Stops-emit : (text : String) (m : Act Result) → Stops m → Stops (emit text >> m)
    unfolding Stops ◌>>=◌
    Stops-emit text m h s =
        let (g, r) = h (note (said text) s) in
        (Grown-trans Probes s.events (said text ∷ s.events) _ (said text ∷ [], refl, (tt, tt)) g, r)

    Stops-if : (b : Bool) (m n : Act Result) → b ≡ false → Stops n → Stops (if b then m else n)
    Stops-if true m n h k = absurd (ground (arith, h))
    Stops-if false m n h k = k

    checked-Stops :
        (plugin : Plugin) (nodes : List ClusterNode)
        → Any CutOff nodes
        → Stops (checked_install o plugin nodes (some (host, port)))
    unfolding Stops
    checked-Stops plugin nodes cut s = checked-Refused plugin nodes s cut

    really : o.dry_run ≡ false
    really = ground (arith, real)

    target_known :
        (a : FlashArray) (u : Option FlashArray)
        → u ≡ some a
        → maybe u none (λ b. array_mgmt_target (text_or b.endpoint ""))
          ≡ array_mgmt_target (text_or a.endpoint "")
    target_known a u q = ap (λ v. maybe v none (λ b. array_mgmt_target (text_or b.endpoint ""))) q

    deploy_integration-Stops :
        (a : FlashArray) (path : String) (plugin : Plugin) (nodes : List ClusterNode)
        → o.array ≡ some a
        → array_mgmt_target (text_or a.endpoint "") ≡ some (host, port)
        → Any CutOff nodes
        → Stops (deploy_integration o path (some plugin) (some nodes))
    unfolding deploy_integration
    deploy_integration-Stops a path plugin nodes here there cut = Stops-emit _ _ (
        Stops-emit _ _ (
          Stops-if o.dry_run _ _ really (
            subst (λ t. Stops (checked_install o plugin nodes t))
              (sym (target_known a o.array here ∙ there)) (checked-Stops plugin nodes cut))))

    -- If one of the nodes answers every try to reach the array's management address, and never that it
    -- has reached it, then a deployment on the nodes, neither a dry run nor one with the mock connector,
    -- does not succeed, and has run nothing but these tries: the plugin is put on no node.
    pub deploy_integration-Refused :
        (a : FlashArray) (path : String) (plugin : Plugin) (nodes : List ClusterNode) (s : Session)
        → o.array ≡ some a
        → array_mgmt_target (text_or a.endpoint "") ≡ some (host, port)
        → Any CutOff nodes
        → Ends Probes s (deploy_integration o path (some plugin) (some nodes) s)
          × Refused ((deploy_integration o path (some plugin) (some nodes) s).0)
    unfolding Stops
    deploy_integration-Refused a path plugin nodes s here there cut =
        deploy_integration-Stops a path plugin nodes here there cut s
