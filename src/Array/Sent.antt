-- ===== src/Array/Sent.antt =====
-- Which requests reach an array, and what the answers mean: theorems about `PureFlashArrayClient`.
use pure_hypervisor_integrat.Prelude.{
  ℕ, ◌≤◌, max, String, ◌≡◌, ◌≢◌, refl, sym, ap, ◌∙◌, Bool, true, false, Option, none, some, List,
  [], ◌∷◌, All, Any, inl, inr, ◌⊎◌, if◌then◌else◌, arith, leb,
}
use pure_hypervisor_integrat.Array.Io.{
  api_error, Answer, done, failed, pure, proceed, ◌>>=◌, by_end,
}
use pure_hypervisor_integrat.Array.Size.{Size, to_bytes, fa_min_volume_bytes}
use pure_hypervisor_integrat.Array.Rest.{
  Request, Item, Reply, response, broken, Requests, Array, judge, forgive, benign, call,
  call_idempotent, post_host_group, post_host_group_host, post_volume, destroy_volume,
  eradicate_volume,
}
use pure_hypervisor_integrat.Array.HostCalls.{add_hosts, create_host_group}
use pure_hypervisor_integrat.Array.VolumeCalls.{create_volume, delete_volume}

-- the request has been made
abbrev pub Asked : Request → Requests → Type 0
Asked request = Any (λ r. r ≡ request)

-- a reply that `_call_idempotent` accepts: a success, or an error that only says that it is already so
abbrev pub Accepted : Reply → Type 0
Accepted (broken e) = ⊥
Accepted (response status errors items) =
    (leb 400 status ≡ false)
    ⊎ ((e : String) × (judge (response status errors items) ≡ failed (api_error e))
        × (benign e ≡ true))

-- the array accepts the request, whenever it is made
abbrev pub Accepts : Array → Request → Type 0
Accepts array request = (past : Requests) → Accepted (array request past)

module _ (array : Array) where
  forgiven : (r : Reply) → Accepted r → (o : Option (List Item)) × (forgive (judge r) ≡ done o)
  unfolding judge forgive
  forgiven (broken e) a = absurd a
  forgiven (response status errors items) (inl fine) = (some items, rw fine refl)
  forgiven (response status errors items) (inr (e, q, kind)) =
      (none, ap forgive q ∙ ap (λ b. if b then done none else failed (api_error e)) kind)

  -- a request that is accepted returns
  idempotent_returns :
      (request : Request) (past : Requests)
      → Accepts array request
      → (o : Option (List Item)) × (call_idempotent array request past ≡ (done o, request ∷ past))
  unfolding call_idempotent
  idempotent_returns request past accepts =
      let (o, q) = forgiven (array request past) (accepts past) in
      (o, ap (λ a. (a, request ∷ past)) q)

  add_hosts_returns :
      (group : String) (hosts : List String) (past : Requests)
      → All (λ h. Accepts array (post_host_group_host group h)) hosts
      → (past' : Requests) × (add_hosts array group hosts past ≡ (done tt, past'))
        × All (λ h. Asked (post_host_group_host group h) past') hosts
        × ((request : Request) → Asked request past → Asked request past')
  unfolding add_hosts ◌>>=◌
  add_hosts_returns group [] past accepts = (past, refl, tt, λ request asked. asked)
  add_hosts_returns group (h ∷ hosts) past accepts =
      let request = post_host_group_host group h in
      let (o, one) = idempotent_returns request past accepts.0 in
      let (past', rest, all, grows) = add_hosts_returns group hosts (request ∷ past) accepts.1 in
      (
        past',
        ap
              (λ (r : Answer (Option (List Item)) × Requests).
                proceed r.0 (λ _. add_hosts array group hosts) r.1)
              one
            ∙ rest,
        (grows request (inl refl), all),
        λ other asked. grows other (inr asked),
      )

  -- If the array accepts the request for the group and that for each of its hosts, `create_host_group`
  -- returns and has made them all: a host that is a member already does not keep the others out.
  pub create_host_group_reaches :
      (group : String) (hosts : List String) (past : Requests)
      → Accepts array (post_host_group group)
      → All (λ h. Accepts array (post_host_group_host group h)) hosts
      → (past' : Requests) × (create_host_group array group hosts past ≡ (done tt, past'))
        × Asked (post_host_group group) past'
        × All (λ h. Asked (post_host_group_host group h) past') hosts
  unfolding create_host_group ◌>>=◌
  create_host_group_reaches group hosts past first others =
      let (o, one) = idempotent_returns (post_host_group group) past first in
      let (past', rest, all, grows) =
        add_hosts_returns group hosts (post_host_group group ∷ past) others in
      (
        past',
        ap
              (λ (r : Answer (Option (List Item)) × Requests).
                proceed r.0 (λ _. add_hosts array group hosts) r.1)
              one
            ∙ rest,
        grows (post_host_group group) (inl refl),
        all,
      )

-- the array took the request: its reply, when the request was made, was a success
abbrev pub Took : Array → Request → Requests → Type 0
Took array request past = (items : List Item) × (judge (array request past) ≡ done items)

-- what a deletion asked of the array, the newest request first
abbrev pub Deletes : Array → String → Bool → Requests → Requests → Type 0
Deletes array name eradicate past after =
    (after ≡ destroy_volume name ∷ past)
    ⊎ ((after ≡ eradicate_volume name ∷ destroy_volume name ∷ past)
        × (eradicate ≡ true)
        × Took array (destroy_volume name) past)

module _ (array : Array) where
  -- A deletion asks the array to destroy the volume, and to eradicate it only if that is wanted and the
  -- array has destroyed the volume; nothing else is asked.
  pub delete_volume-Deletes :
      (name : String) (eradicate : Bool) (past : Requests)
      → Deletes array name eradicate past (delete_volume array name eradicate past).1
  unfolding delete_volume call ◌>>=◌
  delete_volume-Deletes name eradicate past =
      by_end (call array (destroy_volume name)) _ past (λ r. Deletes array name eradicate past r.1)
        (λ items past' q. went items past' eradicate q) (λ e past' q. inl (ap (λ r. r.1) (sym q)))
    where
      went :
          (items : List Item) (past' : Requests) (b : Bool)
          → call array (destroy_volume name) past ≡ (done items, past')
          → Deletes array name b past
              ((if b then call array (eradicate_volume name) >>= (λ _. pure tt) else pure tt)
                past').1
      went items past' true q =
          by_end (call array (eradicate_volume name)) _ past'
            (λ r. Deletes array name true past r.1)
            (λ gone past'' q'.
              inr (asked past'' (ap (λ r. r.1) (sym q')), refl, (items, ap (λ r. r.0) q)))
            (λ e past'' q'.
              inr (asked past'' (ap (λ r. r.1) (sym q')), refl, (items, ap (λ r. r.0) q)))
        where
          asked :
              (past'' : Requests)
              → past'' ≡ eradicate_volume name ∷ past'
              → past'' ≡ eradicate_volume name ∷ destroy_volume name ∷ past
          asked past'' r = r ∙ ap (λ p. eradicate_volume name ∷ p) (ap (λ x. x.1) (sym q))
      went items past' false q = inl (ap (λ r. r.1) (sym q))

-- what the creation of a volume asked: nothing for a size that cannot be read, and else one volume
abbrev pub Provisions : String → Size → Requests → Requests → Type 0
Provisions name size past after =
    ((after ≡ past) × ((n : ℕ) → to_bytes size ≢ done n))
    ⊎ ((n : ℕ) × (m : ℕ) × (to_bytes size ≡ done n)
        × (after ≡ post_volume name m ∷ past)
        × (fa_min_volume_bytes ≤ m)
        × (n ≤ m)
        × (fa_min_volume_bytes ≤ n → m ≡ n))

module _ (array : Array) where
  -- A volume is asked for exactly if the size can be read; what is asked for is at least the array's
  -- minimum of 1 MiB and at least the size, and just the size if that is not below the minimum.
  pub create_volume-Provisions :
      (name : String) (size : Size) (past : Requests)
      → Provisions name size past (create_volume array name size past).1
  unfolding create_volume call ◌>>=◌
  create_volume-Provisions name size past = by_size (to_bytes size) refl
    where
      by_size :
          (a : Answer ℕ)
          → to_bytes size ≡ a
          → Provisions name size past
              (proceed a
                (λ n. call array (post_volume name (max n fa_min_volume_bytes)) >>= (λ _. pure tt))
                past).1
      by_size (failed e) q = inl (refl, λ n r. cc)
      by_size (done n) q =
          by_end (call array (post_volume name (max n fa_min_volume_bytes))) _ past
            (λ r. Provisions name size past r.1)
            (λ items past' r. inr (
              n,
              max n fa_min_volume_bytes,
              q,
              ap (λ x. x.1) (sym r),
              omega arith,
              omega arith,
              omega arith,
            ))
            (λ e past' r. inr (
              n,
              max n fa_min_volume_bytes,
              q,
              ap (λ x. x.1) (sym r),
              omega arith,
              omega arith,
              omega arith,
            ))
