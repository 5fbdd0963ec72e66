-- ===== src/HostGroup/Selector/Holds.antt =====
-- What the result of an expression says of the snapshot, predicate by predicate.
use mathlib.Core.Path.{subst}
use kvm_infrastructure_manag.Base.{
  ◌≡◌, refl, ap, ap₂, eq_refl, sym, ◌∙◌, ◌≢◌, ◌↔◌, String, false, Option, none, some, List, [], ◌∷◌,
  map, str_eq, eq_iff, arith, inl, inr, Bool-cases, All, ok,
}
use kvm_infrastructure_manag.Base.Sort.{sort, sort-All_iff}
use kvm_infrastructure_manag.Inventory.Model.{Snapshot}
use kvm_infrastructure_manag.HostGroup.Selector.{
  SelectorPredicate, SelectorExpression, Verdict, satisfied, refuted, unknown, unsupported,
  reported, architecture, architecture_verdict, capability_verdict, verdict, concluded,
  evaluate_expression, SelectorRevision, Digests, Normalized, Error, normalize,
  normalize_predicates, marshalled, predicates_error, default_policy, comes_before,
}

-- The snapshot shows that the predicate holds.
abbrev pub Holds : Snapshot → SelectorPredicate → Type 0
Holds s p =
    (p.field ≡ "HOST_ID" → s.host_identity ≡ p.value)
    × (p.field ≡ "COMPUTE_ARCHITECTURE"
        → (reported "kim.host.cpu-topology.v1" s.capabilities ≡ some "AVAILABLE")
          × (architecture s.fragments ≡ p.value))
    × (p.field ≡ "CAPABILITY_STATE"
        → (reported p.key s.capabilities ≡ some p.value) × (p.value ≢ "UNKNOWN"))

differ : (s t : String) → str_eq s t ≡ false → s ≢ t
differ s t e h = ground (arith, e, (eq_iff s t).1 h)

conclusion_iff :
    (state reason : String) (vs : List Verdict)
    → state ≢ "MATCHED"
    → ((concluded (state, reason) vs).0 ≡ "MATCHED") ↔ ((state ≡ "") × All (λ v. v ≡ satisfied) vs)
unfolding concluded
conclusion_iff state reason [] n = elim (Bool-cases (str_eq state "")) [
  | inl e ↦ (λ h. ((eq_iff state "").0 e, tt), λ h. ground arith)
  | inr e ↦ (λ h. absurd (n (ground arith)), λ h. ground (arith, eq_iff state ""))
]
conclusion_iff state reason (satisfied ∷ vs) n =
    let ih = conclusion_iff state reason vs n in
    (λ h. let k = ih.0 h in (k.0, (refl, k.1)), λ h. ih.1 (h.0, h.1.1))
conclusion_iff state reason (refuted r ∷ vs) n =
    (λ h. absurd (differ "NOT_MATCHED" "MATCHED" refl h), λ h. absurd (ground arith))
conclusion_iff state reason (unknown r ∷ vs) n =
    let ih = conclusion_iff "UNKNOWN" r vs (differ "UNKNOWN" "MATCHED" refl) in
    (λ h. absurd (differ "UNKNOWN" "" refl (ih.0 h).0), λ h. absurd (ground arith))
conclusion_iff state reason (unsupported r ∷ vs) n =
    let ih = conclusion_iff "UNSUPPORTED" r vs (differ "UNSUPPORTED" "MATCHED" refl) in
    (λ h. absurd (differ "UNSUPPORTED" "" refl (ih.0 h).0), λ h. absurd (ground arith))

available : (value : String) → architecture_verdict (some "AVAILABLE") value value ≡ satisfied
unfolding architecture_verdict
available value = rw (eq_refl value) refl

architecture_verdict_iff :
    (o : Option String) (arch value : String)
    → (architecture_verdict o arch value ≡ satisfied) ↔ ((o ≡ some "AVAILABLE") × (arch ≡ value))
unfolding architecture_verdict
architecture_verdict_iff none arch value = (λ h. absurd (ground arith), λ h. absurd (ground arith))
architecture_verdict_iff (some state) arch value =
    let a = eq_iff state "AVAILABLE" in
    let b = eq_iff arch value in
    (
      λ h. (ap some (a.0 (ground (arith, h))), b.0 (ground (arith, h))),
      λ h.
          let e : state ≡ "AVAILABLE" = ground (arith, h.0) in
          ap₂ (λ s v. architecture_verdict (some s) v value) e h.1 ∙ available value,
    )

capability_verdict_iff :
    (o : Option String) (value : String)
    → (capability_verdict o value ≡ satisfied) ↔ ((o ≡ some value) × (value ≢ "UNKNOWN"))
unfolding capability_verdict
capability_verdict_iff none value = (λ h. absurd (ground arith), λ h. absurd (ground arith))
capability_verdict_iff (some state) value =
    let a = eq_iff state "UNKNOWN" in
    let b = eq_iff state value in
    let c = eq_iff value "UNSUPPORTED" in
    let d = eq_iff state "UNSUPPORTED" in
    (
      λ h. (ap some (b.0 (ground arith)), λ k. absurd (ground (arith, h, k, a, b))),
      λ h. let n = h.1 in ground (arith, h.0, a, b, c, d, n),
    )

verdict_iff : (s : Snapshot) (p : SelectorPredicate) → (verdict s p ≡ satisfied) ↔ Holds s p
unfolding verdict
verdict_iff s p =
    let host = eq_iff p.field "HOST_ID" in
    let arch = eq_iff p.field "COMPUTE_ARCHITECTURE" in
    let cap = eq_iff p.field "CAPABILITY_STATE" in
    let same = eq_iff s.host_identity p.value in
    let a =
      architecture_verdict_iff (reported "kim.host.cpu-topology.v1" s.capabilities)
        (architecture s.fragments) p.value in
    let c = capability_verdict_iff (reported p.key s.capabilities) p.value in
    (
      λ h. (
        λ e. same.0 (ground (arith, h, host.1 e)),
        λ e. a.0 (ground (arith, h, arch.1 e, ap (λ f. str_eq f "HOST_ID") e)),
        λ e. c.0 (
            ground (
              arith,
              h,
              cap.1 e,
              ap (λ f. str_eq f "HOST_ID") e,
              ap (λ f. str_eq f "COMPUTE_ARCHITECTURE") e,
            )),
      ),
      λ h. elim (Bool-cases (str_eq p.field "HOST_ID")) [
        | inl e ↦ let k = same.1 (h.0 (host.0 e)) in ground (arith, e, k)
        | inr e ↦ elim (Bool-cases (str_eq p.field "COMPUTE_ARCHITECTURE")) [
          | inl f ↦ let k = a.1 (h.1 (arch.0 f)) in ground (arith, e, f, k)
          | inr f ↦ elim (Bool-cases (str_eq p.field "CAPABILITY_STATE")) [
            | inl g ↦ let k = c.1 (h.2 (cap.0 g)) in ground (arith, e, f, g, k)
            | inr g ↦ ground (arith, e, f, g)
          ]
        ]
      ],
    )

satisfied_iff :
    (s : Snapshot) (ps : List SelectorPredicate)
    → All (λ v. v ≡ satisfied) (map (verdict s) ps) ↔ All (Holds s) ps
satisfied_iff s [] = (λ h. h, λ h. h)
satisfied_iff s (p ∷ ps) =
    let one = verdict_iff s p in
    let rest = satisfied_iff s ps in (λ h. (one.0 h.0, rest.0 h.1), λ h. (one.1 h.0, rest.1 h.1))

-- An expression matches a snapshot if and only if each of its predicates holds in it: the identity is
-- the one named, the topology is available and the architecture is the one named, or the capability
-- has been reported last in the state named, which is not UNKNOWN. What is missing or unknown never
-- matches.
pub matched_iff :
    (e : SelectorExpression) (s : Snapshot)
    → ((evaluate_expression e s).0 ≡ "MATCHED") ↔ All (Holds s) e.match_all
unfolding evaluate_expression
matched_iff e s =
    let ends = conclusion_iff "" "" (map (verdict s) e.match_all) (differ "" "MATCHED" refl) in
    let each = satisfied_iff s e.match_all in
    (λ h. each.0 (ends.0 h).1, λ h. ends.1 (refl, each.1 h))

normalize-sort :
    (lib : Digests) (r : SelectorRevision) (n : Normalized)
    → normalize lib r ≡ ok n
    → n.expression.match_all ≡ sort comes_before r.expression.match_all
unfolding normalize
normalize-sort lib r n h =
    let policy = default_policy r.expression.unknown_policy in
    let ps = r.expression.match_all in go policy ps (predicates_error ps) (ground (arith, h))
  where
    made :
        (e : SelectorExpression) (o : Option String)
        → marshalled lib r e o ≡ ok n
        → n.expression.match_all ≡ e.match_all
    made e none k = absurd (ground (arith, k))
    made e (some payload) k = ground (arith, k)

    go :
        (policy : String) (ps : List SelectorPredicate) (o : Option Error)
        → normalize_predicates lib r policy ps o ≡ ok n
        → n.expression.match_all ≡ sort comes_before ps
    go policy ps (some e) k = absurd (ground (arith, k))
    go policy ps none k =
        let e : SelectorExpression = record {
          match_all = sort comes_before ps;
          unknown_policy = policy;
        } in
        made e (lib.marshal e) (ground (arith, k))

-- A normalised revision matches a snapshot if and only if each of the predicates that were given holds
-- in it: the identity is the one named, the topology is available and the architecture is the one
-- named, or the capability has been reported last in the state named, which is not UNKNOWN. What is
-- missing or unknown never matches.
pub normalized_iff :
    (lib : Digests) (r : SelectorRevision) (n : Normalized) (s : Snapshot)
    → normalize lib r ≡ ok n
    → ((evaluate_expression n.expression s).0 ≡ "MATCHED") ↔ All (Holds s) r.expression.match_all
normalized_iff lib r n s h =
    let ps = r.expression.match_all in
    let m = matched_iff n.expression s in
    let sorted = sort-All_iff comes_before (Holds s) ps in
    let same = normalize-sort lib r n h in
    (
      λ e. sorted.0 (subst (λ z. All (Holds s) z) same (m.0 e)),
      λ a. m.1 (subst (λ z. All (Holds s) z) (sym same) (sorted.1 a)),
    )
