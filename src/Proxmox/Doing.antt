-- ===== src/Proxmox/Doing.antt =====
-- What an action of backend/phif/connectors/proxmox/connector.py does, however it ends: a predicate on the
-- events that it adds, carried through the parts of an action.
use mathlib.Core.List.{append_assoc}
use pure_hypervisor_integrat.Prelude.{
  ℕ, zero, suc, ◌+◌, ◌*◌, String, ◌≡◌, refl, sym, ap, ◌∙◌, subst, Bool, true, false, Option, none,
  some, List, [], ◌∷◌, ◌++◌, All, All-append, given, maybe, if◌then◌else◌,
}
use pure_hypervisor_integrat.Array.Io.{
  Fault, other_fault, Answer, done, failed, pure, ◌>>=◌, ◌>>◌, by_end,
}
use pure_hypervisor_integrat.Proxmox.Names.{lock_timeout}
use pure_hypervisor_integrat.Proxmox.Session.{
  Outside, Session, Act, Event, ran, slept, said, asked, Ssh, ArrayCall, FlashArray, note, emit,
  sleep, look, modify, raised, caught, rescue, fault_text, the_host, connection_host, run, rounds,
  locked_retry, ssh, ssh_script, volume_exists, get_volume, array_act, array_exists, array_volume,
}

-- the events after are those before and some more, which all satisfy `P`
abbrev pub Grown : (Event → Type 0) → List Event → List Event → Type 0
Grown P before after = (new : List Event) × (after ≡ new ++ before) × All P new

-- the same of what an action comes to
abbrev pub Ends : {A : Type 0} → (Event → Type 0) → Session → Answer A × Session → Type 0
Ends P s (a, s') = Grown P s.events s'.events

unfoldable pub Does : {A : Type 0} → (Event → Type 0) → Act A → Type 0
Does P m = (s : Session) → Ends P s (m s)

module _ (P : Event → Type 0) where
  pub Grown-trans : (a b c : List Event) → Grown P a b → Grown P b c → Grown P a c
  Grown-trans a b c (new, grown, fine) (more, grown', fine') = (
    more ++ new,
    grown' ∙ ap (λ events. more ++ events) grown ∙ sym (append_assoc more new a),
    All-append P more new fine' fine,
  )

  pub Does-pure : {A : Type 0} → (a : A) → Does P (pure a)
  unfolding Does
  Does-pure a s = ([], refl, tt)

  pub Does-raised : (A : Type 0) (text : String) → Does P (raised {A = A} text)
  unfolding Does
  Does-raised A text s = ([], refl, tt)

  pub Does-bind :
      {A B : Type 0} (m : Act A) (f : A → Act B)
      → Does P m
      → ((a : A) → Does P (f a))
      → Does P (m >>= f)
  unfolding Does
  Does-bind m f first later s =
      by_end m f s (Ends P s)
        (λ a s' q. Grown-trans s.events s'.events _ (subst (Ends P s) q (first s)) (later a s'))
        (λ e s' q. subst (Ends P s) q (first s))

  pub Does-then :
      {B : Type 0} (m : Act (Unit {0})) (k : Act B) → Does P m → Does P k → Does P (m >> k)
  Does-then m k first later = Does-bind m (λ _. k) first (λ _. later)

  pub Does-emit : (text : String) → P (said text) → Does P (emit text)
  unfolding Does
  Does-emit text p s = (said text ∷ [], refl, (p, tt))

  pub Does-sleep : (n : ℕ) → P (slept n) → Does P (sleep n)
  unfolding Does
  Does-sleep n p s = (slept n ∷ [], refl, (p, tt))

  pub Does-look : (A : Type 0) (f : Session → A) → Does P (look f)
  unfolding Does
  Does-look A f s = ([], refl, tt)

  pub Does-modify :
      (f : Session → Session) → ((s : Session) → (f s).events ≡ s.events) → Does P (modify f)
  unfolding Does
  Does-modify f keeps s = ([], keeps s, tt)

  -- a test decides between two actions, an option, too
  pub Does-if :
      {A : Type 0} (b : Bool) (m n : Act A) → Does P m → Does P n → Does P (if b then m else n)
  unfolding Does
  Does-if true m n p q = p
  Does-if false m n p q = q

  pub Does-maybe :
      {A B : Type 0} (o : Option A) (m : Act B) (f : A → Act B)
      → Does P m
      → ((a : A) → Does P (f a))
      → Does P (maybe o m f)
  unfolding Does
  Does-maybe none m f p q = p
  Does-maybe (some a) m f p q = q a

  -- `try` and `except`
  pub Does-rescue :
      {A B : Type 0} (m : Act A) (f : A → Act B) (handler : Fault → Act B)
      → Does P m
      → ((a : A) → Does P (f a))
      → ((e : Fault) → Does P (handler e))
      → Does P (rescue m f handler)
  unfolding Does
  Does-rescue {A = A} m f handler first later after s = by_answer (m s) (first s)
    where
      by_answer : (r : Answer A × Session) → Ends P s r → Ends P s (caught r f handler)
      by_answer (done a, s') g = Grown-trans s.events s'.events _ g (later a s')
      by_answer (failed e, s') g = Grown-trans s.events s'.events _ g (after e s')

  pub Does-array_act :
      (a : FlashArray) (call : ArrayCall) → P (asked call) → Does P (array_act a call)
  unfolding Does
  Does-array_act a call p s = (asked call ∷ [], refl, (p, tt))

  pub Does-array_exists :
      (a : FlashArray) (name : String)
      → P (asked (volume_exists name))
      → Does P (array_exists a name)
  unfolding Does
  Does-array_exists a name p s = (asked (volume_exists name) ∷ [], refl, (p, tt))

  pub Does-array_volume :
      (a : FlashArray) (name : String) → P (asked (get_volume name)) → Does P (array_volume a name)
  unfolding Does
  Does-array_volume a name p s = (asked (get_volume name) ∷ [], refl, (p, tt))

  module _ (o : Outside) (pauses : (n : ℕ) → P (slept n)) where
    Does-rounds : (left i : ℕ) (c : Ssh) → P (ran c) → Does P (rounds o left i c)
    unfolding rounds run Does
    Does-rounds zero i c p s = (ran c ∷ [], refl, (p, tt))
    Does-rounds (suc left) i c p s =
        by_answer (o.shell s.events c)
          (rounds o left (suc i) c (note (slept (2 * (i + 1))) (note (ran c) s)))
          (Grown-trans s.events (slept (2 * (i + 1)) ∷ ran c ∷ s.events) _
            (slept (2 * (i + 1)) ∷ ran c ∷ [], refl, (pauses (2 * (i + 1)), (p, tt)))
            (Does-rounds left (suc i) c p (note (slept (2 * (i + 1))) (note (ran c) s))))
      where
        choose :
            (b : Bool) (more : Answer String × Session)
            → Ends P s more
            → Ends P s (if b then more else run o c s)
        choose true more g = g
        choose false more g = (ran c ∷ [], refl, (p, tt))

        by_answer :
            (a : Answer String) (more : Answer String × Session)
            → Ends P s more
            → Ends {A = String} P s (elim a [
              | done out ↦ if lock_timeout out then more else run o c s
              | failed e ↦ if lock_timeout (fault_text e) then more else run o c s
            ])
        by_answer (done out) more g = choose (lock_timeout out) more g
        by_answer (failed e) more g = choose (lock_timeout (fault_text e)) more g

    pub Does-locked_retry : (c : Ssh) → P (ran c) → Does P (locked_retry o c)
    unfolding locked_retry Does
    Does-locked_retry = Does-rounds 5 0

    pub Does-the_host : Does P (the_host o)
    unfolding the_host Does
    Does-the_host s = by_host (if given s.host_override then s.host_override else connection_host o)
      where
        by_host :
            (h : Option String)
            → Ends {A = String} P s (
                maybe h
                  (failed (other_fault "No Proxmox node_host configured"), s)
                  (λ h. (done h, s)))
        by_host none = ([], refl, tt)
        by_host (some h) = ([], refl, tt)

    pub Does-ssh :
        (command : String) (check : Bool) (timeout : Option ℕ)
        → ((host : String)
            → P (
                ran
                  (record { host = host; lines = command ∷ []; check = check; timeout = timeout })))
        → Does P (ssh o command check timeout)
    unfolding ssh Does
    Does-ssh command check timeout p =
        Does-bind (the_host o) _ Does-the_host (λ h. Does-locked_retry _ (p h))

    pub Does-ssh_script :
        (lines : List String) (check : Bool) (timeout : Option ℕ)
        → ((host : String)
            → P (ran (record { host = host; lines = lines; check = check; timeout = timeout })))
        → Does P (ssh_script o lines check timeout)
    unfolding ssh_script Does
    Does-ssh_script lines check timeout p =
        Does-bind (the_host o) _ Does-the_host (λ h. Does-locked_retry _ (p h))
