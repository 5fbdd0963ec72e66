-- ===== src/HostGroup/Evaluation/Again.antt =====
-- An evaluation that is asked for again.
use kvm_infrastructure_manag.Base.{
  ◌≡◌, refl, ap, sym, ◌∙◌, ◌⊎◌, inl, inr, Bool, true, false, ◌||◌, not, Option, none, some, List,
  ◌==◌, if◌then◌else◌, str_eq, arith, Result, ok, err, eq_refl,
}
use kvm_infrastructure_manag.Base.Words.{add64}
use kvm_infrastructure_manag.Base.Maps.{find, find-put_same, both_branches}
use kvm_infrastructure_manag.Base.Sort.{sort}
use kvm_infrastructure_manag.Base.Text.{str_lt}
use kvm_infrastructure_manag.HostGroup.Selector.{SelectorRevision}
use kvm_infrastructure_manag.HostGroup.Tables.{
  Error, conflict, request_incomplete, hosts_not_unique, no_authority, EvaluationRequest,
  Evaluation, Tables, Libraries, Group, Policy, Hierarchy, HostResult, CurrentEvaluation,
}
use kvm_infrastructure_manag.HostGroup.Evaluation.{
  reloaded, load_evaluation, request_digest_of, advanced, compared, recorded, with_results,
  with_hierarchy, with_policy, with_group, with_selector, unless_found, evaluate_selector,
  request_unfinished, hosts_refused, evaluation_of, evaluate_hosts, current_generation,
}

module _ {Payload : Type 0} (lib : Libraries Payload) where
  -- The tables are as before, or the evaluation was recorded under the request.
  abbrev Kept :
      EvaluationRequest
      → Tables Payload
      → Result Error (Option Evaluation) × Tables Payload
      → Type 0
  Kept r t a = (a.1 ≡ t) ⊎ ((x : Evaluation) × (a.0 ≡ ok (some x)) × (a.1 ≡ recorded lib r x t))

  branch :
      (r : EvaluationRequest) (t : Tables Payload) (c : Bool) (e : Error)
      (k : Result Error (Option Evaluation) × Tables Payload)
      → Kept r t k
      → Kept r t (if c then (err e, t) else k)
  branch r t true e k h = inl refl
  branch r t false e k h = h

  advanced-Kept :
      (r : EvaluationRequest) (x : Evaluation) (c : Option CurrentEvaluation) (t : Tables Payload)
      → Kept r t (advanced lib r x c t)
  advanced-Kept r x c t =
      both_branches {A = Result Error (Option Evaluation) × Tables Payload} (Kept r t)
        (not (current_generation c == r.expected_current_generation)) (compared lib r x c t, t)
        (ok (some x), recorded lib r x t) (λ _. inl refl) (λ _. inr (x, refl, refl))

  with_results-Kept :
      (r : EvaluationRequest) (v : SelectorRevision) (g : Group) (p : Policy) (h : Hierarchy)
      (rs : Result Error (List HostResult)) (t : Tables Payload)
      → Kept r t (with_results lib r v g p h rs t)
  with_results-Kept r v g p h (err x) t = inl refl
  with_results-Kept r v g p h (ok rs) t =
      advanced-Kept r
        (evaluation_of lib r v g p h (add64 (current_generation (find r.selector_id t.current)) 1)
          rs)
        (find r.selector_id t.current) t

  with_hierarchy-Kept :
      (r : EvaluationRequest) (v : SelectorRevision) (g : Group) (p : Policy) (h : Option Hierarchy)
      (t : Tables Payload)
      → Kept r t (with_hierarchy lib r v g p h t)
  with_hierarchy-Kept r v g p none t = inl refl
  with_hierarchy-Kept r v g p (some h) t =
      let rs = evaluate_hosts lib t v.expression (sort str_lt r.host_ids) in
      branch r t
        (not (v.generation == r.selector_generation)
          || not (v.based_on_host_group_generation == g.generation)
          || not (str_eq v.lifecycle_state "ACTIVE"))
        conflict (with_results lib r v g p h rs t) (with_results-Kept r v g p h rs t)

  with_policy-Kept :
      (r : EvaluationRequest) (v : SelectorRevision) (g : Group) (p : Option Policy)
      (t : Tables Payload)
      → Kept r t (with_policy lib r v g p t)
  with_policy-Kept r v g none t = inl refl
  with_policy-Kept r v g (some p) t =
      let h = t.hierarchies g.group_type g.dimension v.host_group_id in
      branch r t (not (str_eq p.state "ACTIVE")) conflict (with_hierarchy lib r v g p h t)
        (with_hierarchy-Kept r v g p h t)

  with_group-Kept :
      (r : EvaluationRequest) (v : SelectorRevision) (g : Option Group) (t : Tables Payload)
      → Kept r t (with_group lib r v g t)
  with_group-Kept r v none t = inl refl
  with_group-Kept r v (some g) t =
      let p = t.policies g.group_type g.dimension g.level in
      branch r t (not (str_eq g.lifecycle "ACTIVE")) conflict (with_policy lib r v g p t)
        (with_policy-Kept r v g p t)

  with_selector-Kept :
      (r : EvaluationRequest) (v : Option SelectorRevision) (t : Tables Payload)
      → Kept r t (with_selector lib r v t)
  with_selector-Kept r none t = inl refl
  with_selector-Kept r (some v) t = with_group-Kept r v (t.groups v.host_group_id) t

  unless_found-Kept :
      (r : EvaluationRequest) (o : Result Error (Option Evaluation)) (t : Tables Payload)
      → Kept r t (unless_found lib r o t)
  unless_found-Kept r (err e) t = inl refl
  unless_found-Kept r (ok (some x)) t = inl refl
  unless_found-Kept r (ok none) t = with_selector-Kept r (t.selectors r.selector_id) t

  -- The same request finds what it has recorded.
  load_recorded :
      (r : EvaluationRequest) (x : Evaluation) (t : Tables Payload)
      → load_evaluation lib (recorded lib r x t) r.evaluation_id (request_digest_of lib r)
        ≡ ok (some (reloaded lib x))
  unfolding load_evaluation
  load_recorded r x t =
      let d = request_digest_of lib r in
      rw
        (
          find-put_same r.evaluation_id (record { evaluation = x; request_digest = d })
              t.evaluations,
          eq_refl d,
        )
        (ground arith)

  passed :
      (a b c : Bool) (t t' : Tables Payload) (k : Result Error (Option Evaluation) × Tables Payload)
      (x : Option Evaluation)
      → (if a
          then (err request_incomplete, t)
          else if b
          then (err hosts_not_unique, t)
          else if c
          then (err no_authority, t)
          else k)
        ≡ (ok x, t')
      → (a ≡ false) × (b ≡ false) × (c ≡ false) × (k ≡ (ok x, t'))
  passed true b c t t' k x h = absurd (let e = ap (λ z. z.0) h in ground (arith, e))
  passed false true c t t' k x h = absurd (let e = ap (λ z. z.0) h in ground (arith, e))
  passed false false true t t' k x h = absurd (let e = ap (λ z. z.0) h in ground (arith, e))
  passed false false false t t' k x h = (refl, refl, refl, h)

  abbrev reread : Result Error (Option Evaluation) → Result Error (Option Evaluation)
  reread (err e) = err e
  reread (ok none) = ok none
  reread (ok (some x)) = ok (some (reloaded lib x))

  evaluate_recorded :
      (r : EvaluationRequest) (x : Evaluation) (t : Tables Payload)
      → request_unfinished r ≡ false
      → hosts_refused (sort str_lt r.host_ids) ≡ false
      → not t.authority_active ≡ false
      → evaluate_selector lib r (recorded lib r x t)
        ≡ (ok (some (reloaded lib x)), recorded lib r x t)
  unfolding evaluate_selector
  evaluate_recorded r x t a b c = rw (a, b, c, load_recorded r x t) refl

  -- An evaluation that has succeeded may be asked for again: the second call changes no table, and
  -- gives the evaluation of the first, as it was or with its hosts as the database returns them.
  pub evaluate_again :
      (r : EvaluationRequest) (x : Evaluation) (t t' : Tables Payload)
      → evaluate_selector lib r t ≡ (ok (some x), t')
      → ((evaluate_selector lib r t').1 ≡ t')
        × (((evaluate_selector lib r t').0 ≡ ok (some x))
            ⊎ ((evaluate_selector lib r t').0 ≡ ok (some (reloaded lib x))))
  unfolding evaluate_selector
  evaluate_again r x t t' h =
      let o = load_evaluation lib t r.evaluation_id (request_digest_of lib r) in
      let call = λ (s : Tables Payload). evaluate_selector lib r s in
      let p =
        passed (request_unfinished r) (hosts_refused (sort str_lt r.host_ids))
          (not t.authority_active) t t' (unless_found lib r o t) (some x) h in
      elim (unless_found-Kept r o t) [
        | inl e ↦
            let q = ap call (sym (ap (λ z. z.1) p.3) ∙ e) ∙ h in
            (ap (λ z. z.1) q, inl (ap (λ z. z.0) q))
        | inr (y, e0, e1) ↦
            let same = sym (ap (λ z. z.1) p.3) ∙ e1 in
            let q = ap call same ∙ evaluate_recorded r y t p.0 p.1 p.2 in
            (
              ap (λ z. z.1) q ∙ sym same,
              inr (ap (λ z. z.0) q ∙ ap reread (sym e0 ∙ ap (λ z. z.0) p.3)),
            )
      ]
