-- ===== src/HostGroup/Members/Accepted.antt =====
-- The members that are published for a selector, against the evaluation and the projections.
use mathlib.Core.Path.{subst}
use kvm_infrastructure_manag.Base.{
  ℕ, ◌≡◌, refl, ap, sym, ◌∙◌, ◌⊎◌, inl, inr, String, true, false, not, Option, none, some, List, [],
  ◌∷◌, ◌==◌, str_eq, eq_iff, arith, Result, ok, err, All, Bool-cases, length,
}
use kvm_infrastructure_manag.HostGroup.Members.Listed.{
  Listed, selected-Listed, accepted-Listed, denied, none_of_four, last_of_three, last_of_ten,
}
use kvm_infrastructure_manag.HostGroup.Tables.{
  Error, conflict, HostResult, Evaluation, Projection, Policy, Hierarchy, Tables, Libraries,
}
use kvm_infrastructure_manag.HostGroup.Evaluation.{load_evaluation, candidates}
use kvm_infrastructure_manag.HostGroup.Members.{
  Membership, MembershipSetRequest, MaterializationRequest, Sets, Outcome, publishes, materialize,
  validate_request, validate_selected, checked, evaluation_differs, selector_differs,
  members_differ, from_loaded, from_evaluation, unless_published, undecided, has_key, keys,
  members_accepted, revalidated, still_projected, source_revision_of, set_request,
}

module _ {Payload : Type 0} (lib : Libraries Payload) where
  -- One of these results is of this host; it matched, on the inventory that is current now.
  abbrev pub Chosen : Tables Payload → String → List HostResult → Type 0
  Chosen t host [] = ⊥
  Chosen t host (h ∷ hs) =
      ((h.host_id ≡ host)
        × (h.state ≡ "MATCHED")
        × (p : Projection Payload) × (t.projections host ≡ some p)
        × (p.observation_generation ≡ h.observation_generation)
        × (p.snapshot_digest ≡ h.snapshot_digest)
        × (p.projection_state ≡ "CURRENT"))
      ⊎ Chosen t host hs

  Current : HostResult → Option (Projection Payload) → Type 0
  Current h o =
      (p : Projection Payload) × (o ≡ some p)
      × (p.observation_generation ≡ h.observation_generation)
      × (p.snapshot_digest ≡ h.snapshot_digest)
      × (p.projection_state ≡ "CURRENT")

  projected-Current :
      (h : HostResult) (o : Option (Projection Payload))
      → still_projected lib h o ≡ true
      → Current h o
  unfolding Current
  projected-Current h none e = absurd (ground (arith, e))
  projected-Current h (some p) e = (
    p,
    refl,
    ground (arith, e),
    (eq_iff p.snapshot_digest h.snapshot_digest).0 (ground (arith, e)),
    (eq_iff p.projection_state "CURRENT").0 (ground (arith, e)),
  )

  revalidated-Chosen :
      (t : Tables Payload) (host : String) (hs : List HostResult)
      → revalidated lib t hs ≡ true
      → has_key host (candidates hs) ≡ true
      → Chosen t host hs
  unfolding revalidated candidates Current
  revalidated-Chosen t host [] a b = ground (arith, b)
  revalidated-Chosen t host (h ∷ hs) a b =
      let later = revalidated-Chosen t host hs (ground (arith, a)) in
      elim (Bool-cases (str_eq h.state "MATCHED")) [
        | inr e ↦ inr (later (ground (arith, b, e)))
        | inl e ↦ elim (Bool-cases (str_eq h.host_id host)) [
          | inr f ↦ inr (later (ground (arith, b, e, f)))
          | inl f ↦
              let same = (eq_iff h.host_id host).0 f in
              let c = projected-Current h (t.projections h.host_id) (ground (arith, a)) in
              inl (
                same,
                (eq_iff h.state "MATCHED").0 e,
                c.0,
                ap t.projections (sym same) ∙ c.1,
                c.2,
                c.3,
                c.4,
              )
        ]
      ]

  -- What holds of a member that is published for this evaluation.
  abbrev pub Follows : Tables Payload → Evaluation → Membership → Type 0
  Follows t x m =
      Chosen t m.host_id x.hosts
      × (m.state ≡ "ACTIVE")
      × (m.source_type ≡ "SELECTOR")
      × (m.source_revision ≡ source_revision_of lib x)

  each-Follows :
      (t : Tables Payload) (x : Evaluation) (ms : List Membership)
      → revalidated lib t x.hosts ≡ true
      → All (Listed (source_revision_of lib x) (candidates x.hosts)) ms
      → All (Follows t x) ms
  each-Follows t x [] r a = tt
  each-Follows t x (m ∷ ms) r a = (
    (revalidated-Chosen t m.host_id x.hosts r a.0.0, a.0.1, a.0.2, a.0.3),
    each-Follows t x ms r a.1,
  )

  -- The members of a request follow from a recorded evaluation.
  Recorded : Tables Payload → MembershipSetRequest → Type 0
  Recorded t q =
      (id : String) × (x : Evaluation) × (load_evaluation lib t id "" ≡ ok (some x))
      × (undecided x.result_state ≡ false)
      × All (Follows t x) q.members

  module _ {MembershipSet : Type 0} where
    request_of : MembershipSetRequest → Outcome MembershipSet → MembershipSetRequest
    request_of q (publishes p) = p
    request_of q o = q

    unless_published-Recorded :
        (r : MaterializationRequest) (t : Tables Payload) (s : Sets MembershipSet) (x : Evaluation)
        (q : MembershipSetRequest) (o : Option MembershipSet)
        → load_evaluation lib t r.evaluation_id "" ≡ ok (some x)
        → undecided x.result_state ≡ false
        → revalidated lib t x.hosts ≡ true
        → unless_published lib r x s o ≡ publishes q
        → Recorded t q
    unfolding Recorded set_request request_of
    unless_published-Recorded r t s x q (some old) l u v e = absurd (ground (arith, e))
    unless_published-Recorded r t s x q none l u v e =
        let before = s.memberships x.host_group_id in
        let same : set_request lib r x before ≡ q = ap (request_of q) e in
        let listed = selected-Listed x.host_group_id (source_revision_of lib x) before x.hosts in
        (
          r.evaluation_id,
          x,
          l,
          u,
          subst (λ (z : MembershipSetRequest). All (Follows t x) z.members) same
              (each-Follows t x (set_request lib r x before).members v listed),
        )

    from_evaluation-Recorded :
        (r : MaterializationRequest) (t : Tables Payload) (s : Sets MembershipSet) (x : Evaluation)
        (q : MembershipSetRequest) (o : Option (MembershipSet × String))
        → load_evaluation lib t r.evaluation_id "" ≡ ok (some x)
        → undecided x.result_state ≡ false
        → from_evaluation lib r t s x o ≡ publishes q
        → Recorded t q
    from_evaluation-Recorded r t s x q (some (old, id)) l u e = absurd (ground (arith, e))
    from_evaluation-Recorded r t s x q none l u e =
        unless_published-Recorded r t s x q (s.of_evaluation x) l u (ground (arith, e))
          (ground (arith, e))

    from_loaded-Recorded :
        (r : MaterializationRequest) (t : Tables Payload) (s : Sets MembershipSet)
        (q : MembershipSetRequest) (o : Result Error (Option Evaluation))
        → load_evaluation lib t r.evaluation_id "" ≡ o
        → from_loaded lib r t s o ≡ publishes q
        → Recorded t q
    from_loaded-Recorded r t s q (err x) l e = absurd (ground (arith, e))
    from_loaded-Recorded r t s q (ok none) l e = absurd (ground (arith, e))
    from_loaded-Recorded r t s q (ok (some x)) l e =
        from_evaluation-Recorded r t s x q (s.by_request r.publish_request_id) l (ground (arith, e))
          (ground (arith, e))

    materialize-Recorded :
        (r : MaterializationRequest) (t : Tables Payload) (s : Sets MembershipSet)
        (q : MembershipSetRequest)
        → materialize lib r t s ≡ publishes q
        → Recorded t q
    unfolding materialize
    materialize-Recorded r t s q e =
        from_loaded-Recorded r t s q (load_evaluation lib t r.evaluation_id "") refl
          (ground (arith, e))

  checked-Recorded :
      (t : Tables Payload) (q : MembershipSetRequest) (a b g : ℕ) (p : Policy) (h : Hierarchy)
      (o : Result Error (Option Evaluation))
      → load_evaluation lib t q.selector_evaluation_id "" ≡ o
      → checked lib t q a b g p h o ≡ none
      → Recorded t q
  unfolding Recorded
  checked-Recorded t q a b g p h (err x) l e = absurd (ground (arith, e))
  checked-Recorded t q a b g p h (ok none) l e = absurd (ground (arith, e))
  checked-Recorded t q a b g p h (ok (some x)) l e =
      let revision = source_revision_of lib x in
      let expected = keys (candidates x.hosts) in
      let differs = evaluation_differs q a b g p h x in
      let moved = selector_differs q g x (t.selectors q.selector_id) in
      let members = members_differ lib q x in
      let c = none_of_four differs moved (not (revalidated lib t x.hosts)) members conflict e in
      (
        q.selector_evaluation_id,
        x,
        l,
        last_of_ten (not (str_eq x.selector_id q.selector_id)) (not (x.selector_generation == a))
            (not (x.evaluation_generation == b)) (not (str_eq x.host_group_id q.host_group_id))
            (not (x.host_group_generation == g)) (not (str_eq x.policy_id p.policy_id))
            (not (x.policy_generation == p.generation)) (not (str_eq x.hierarchy_id h.hierarchy_id))
            (not (x.hierarchy_generation == h.generation)) (undecided x.result_state) c.0,
        each-Follows t x q.members (denied (revalidated lib t x.hosts) c.1) (
            accepted-Listed revision (candidates x.hosts) q.members (
              last_of_three (not (length expected == length q.members))
                (not (str_eq q.source_revision revision))
                (members_accepted revision expected q.members) c.2)),
      )

  selected-Recorded :
      (t : Tables Payload) (q : MembershipSetRequest) (g : ℕ) (p : Policy) (h : Hierarchy)
      (a b : Option ℕ)
      → validate_selected lib t q g p h a b ≡ none
      → Recorded t q
  selected-Recorded t q g p h (some a) (some b) e =
      checked-Recorded t q a b g p h (load_evaluation lib t q.selector_evaluation_id "") refl
        (ground (arith, e))
  selected-Recorded t q g p h (some a) none e = absurd (ground (arith, e))
  selected-Recorded t q g p h none b e = absurd (ground (arith, e))

  -- A member set that a selector's evaluation asks to publish, and one that is accepted for a
  -- selector whoever asks, has only active members of a recorded evaluation that was neither unknown
  -- nor unsupported: each is a host that matched, and whose inventory is current and still the one
  -- that was evaluated.
  pub published-Follows :
      {MembershipSet : Type 0} (t : Tables Payload) (q : MembershipSetRequest)
      → (((r : MaterializationRequest) × (s : Sets MembershipSet) × (materialize lib r t s
              ≡ publishes q))
          ⊎ ((g : ℕ) × (p : Policy) × (h : Hierarchy) × (q.source_type ≡ "SELECTOR")
              × (validate_request lib t q g p h ≡ none)))
      → (id : String) × (x : Evaluation) × (load_evaluation lib t id "" ≡ ok (some x))
        × (undecided x.result_state ≡ false)
        × All (Follows t x) q.members
  unfolding validate_request Recorded
  published-Follows t q (inl (r, s, e)) = materialize-Recorded r t s q e
  published-Follows t q (inr (g, p, h, k, e)) =
      selected-Recorded t q g p h q.selector_generation q.selector_evaluation_generation
        (ground (arith, e, (eq_iff q.source_type "SELECTOR").1 k))
