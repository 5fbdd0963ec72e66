-- ===== src/HostGroup/Hierarchy/Rooted.antt =====
-- The shape of a hierarchy that is accepted: from each group its parents lead to a group of the first
-- level.
use mathlib.Core.Path.{subst}
use kvm_infrastructure_manag.Base.{
  Result-cases, ℕ, suc, zero, ◌≡◌, refl, ap, sym, ◌∙◌, inl, inr, ◌<◌, ◌≤◌, String, Bool, true,
  false, ◌&&◌, ◌||◌, not, Option, none, some, List, [], ◌∷◌, ltb, leb, if◌then◌else◌, str_eq,
  eq_iff, arith, Result, ok, err, All, Bool-cases, Option-cases,
}
use kvm_infrastructure_manag.Base.Maps.{find, put, find-put}
use kvm_infrastructure_manag.Base.Sort.{sort, sort-All_iff}
use kvm_infrastructure_manag.HostGroup.Hierarchy.{
  Error, HierarchyRelation, HierarchyRequest, HierarchyNode, RelationEvidence, rank, node_of,
  parent_differs, by_parent, orphan, has_parent, evidence_of, relation_refused, relate,
  normalize_relations,
}

-- The parent of a group by the evidence, and the group that its parents lead to in at most this many
-- steps.
abbrev pub parent_of : String → List RelationEvidence → Option String
parent_of k [] = none
parent_of k (e ∷ es) = if str_eq e.child_group_id k then some e.parent_group_id else parent_of k es

abbrev pub climb : ℕ → String → List RelationEvidence → String
climb zero k es = k
climb (suc n) k es = elim (parent_of k es) [ none ↦ k | some p ↦ climb n p es ]

parent_of-none :
    (k : String) (es : List RelationEvidence)
    → parent_of k es ≡ none
    → All (λ (e : RelationEvidence). str_eq e.child_group_id k ≡ false) es
parent_of-none k [] h = tt
parent_of-none k (e ∷ es) h = (ground (arith, h), parent_of-none k es (ground (arith, h)))

-- What holds of the evidence holds of a group and its parent.
parent_of-some :
    (Q : String → String → Type 0) (k p : String) (es : List RelationEvidence)
    → All (λ (e : RelationEvidence). Q e.parent_group_id e.child_group_id) es
    → parent_of k es ≡ some p
    → Q p k
parent_of-some Q k p [] a h = absurd (ground (arith, h))
parent_of-some Q k p (e ∷ es) a h = elim (Bool-cases (str_eq e.child_group_id k)) [
  | inr f ↦ parent_of-some Q k p es a.1 (ground (arith, h, f))
  | inl f ↦
      let same : e.parent_group_id ≡ p = ground (arith, h, f) in
      subst (λ z. Q z k) same
        (subst (λ z. Q e.parent_group_id z) ((eq_iff e.child_group_id k).0 f) a.0)
]

node_of-id :
    (id : String) (nodes : List HierarchyNode) (n : HierarchyNode)
    → node_of id nodes ≡ some n
    → n.host_group_id ≡ id
unfolding node_of
node_of-id id [] n h = absurd (ground (arith, h))
node_of-id id (m ∷ ms) n h = elim (Bool-cases (str_eq m.host_group_id id)) [
  | inr f ↦ node_of-id id ms n (ground (arith, h, f))
  | inl f ↦
      let same : m ≡ n = ground (arith, h, f) in
      ap (λ (z : HierarchyNode). z.host_group_id) (sym same) ∙ (eq_iff m.host_group_id id).0 f
]

module _ (decimal : ℕ → String) (digest_fields : List String → String) (levels : List String)
    (nodes : List HierarchyNode) where
  -- A parent is on a level that comes before.
  abbrev Above : String → String → Type 0
  Above parent child =
      (p : HierarchyNode) × (c : HierarchyNode) × (node_of parent nodes ≡ some p)
      × (node_of child nodes ≡ some c)
      × (rank levels p < rank levels c)

  abbrev Related : List (String × String) → List RelationEvidence → List (String × String) → Type 0
  Related parents es all =
      All (λ (e : RelationEvidence). Above e.parent_group_id e.child_group_id) es
      × ((k : String)
          → All (λ (e : RelationEvidence). str_eq e.child_group_id k ≡ false) es
          → find k all ≡ find k parents)

  abbrev Relates :
      List (String × String)
      → Result Error (List RelationEvidence × List (String × String))
      → Type 0
  Relates parents (err e) = Unit
  Relates parents (ok (es, all)) = Related parents es all

  -- A step of the loop that has succeeded.
  one_more :
      (p c : HierarchyNode) (r : HierarchyRelation) (parents : List (String × String))
      (es : List RelationEvidence) (all : List (String × String))
      → node_of r.parent_group_id nodes ≡ some p
      → node_of r.child_group_id nodes ≡ some c
      → relation_refused levels p c parents ≡ false
      → Related (put c.host_group_id p.host_group_id parents) es all
      → Related parents (evidence_of decimal digest_fields p c ∷ es) all
  one_more p c r parents es all at_p at_c ok_here later = (
    (
      (
        p,
        c,
        ap (λ z. node_of z nodes) (node_of-id r.parent_group_id nodes p at_p) ∙ at_p,
        ap (λ z. node_of z nodes) (node_of-id r.child_group_id nodes c at_c) ∙ at_c,
        ranked (str_eq p.host_group_id c.host_group_id) (rank levels c) (rank levels p)
            (parent_differs (find c.host_group_id parents) p.host_group_id) ok_here,
      ),
      later.0,
    ),
    λ k a. later.1 k a.1 ∙ find-put k c.host_group_id p.host_group_id parents ∙ rw (a.0) refl,
  )
    where
      ranked : (a : Bool) (m n : ℕ) (b : Bool) → (a || leb m n || b) ≡ false → n < m
      ranked a m n b h = ground (arith, h)

  relate-Relates :
      (rs : List HierarchyRelation) (parents : List (String × String))
      → Relates parents (relate decimal digest_fields levels nodes rs parents)
  unfolding relate
  relate-Relates [] parents = (tt, λ k a. refl)
  relate-Relates (r ∷ rs) parents = elim (Option-cases (node_of r.parent_group_id nodes)) [
    | inl e ↦ refused (rw (e, relate) refl)
    | inr (p, e) ↦ elim (Option-cases (node_of r.child_group_id nodes)) [
      | inl f ↦ refused (rw (e, f, relate) refl)
      | inr (c, f) ↦
          let more = put c.host_group_id p.host_group_id parents in
          let later = relate decimal digest_fields levels nodes rs more in
          let ih : Relates more later = relate-Relates rs more in
          elim (Result-cases later) [
            | inl (x, g) ↦ failed x (rw (e, f, g, relate) refl)
            | inr ((es, all), g) ↦ elim (Bool-cases (relation_refused levels p c parents)) [
              | inl h ↦ refused (rw (e, f, g, h, relate) refl)
              | inr h ↦
                  let q : relate decimal digest_fields levels nodes (r ∷ rs) parents
                      ≡ ok (evidence_of decimal digest_fields p c ∷ es, all) =
                    rw (e, f, g, h, relate) refl in
                  subst (λ z. Relates parents z) (sym q)
                    (one_more p c r parents es all e f h (subst (λ z. Relates more z) g ih))
            ]
          ]
    ]
  ]
    where
      failed :
          (x : Error)
          → relate decimal digest_fields levels nodes (r ∷ rs) parents ≡ err x
          → Relates parents (relate decimal digest_fields levels nodes (r ∷ rs) parents)
      failed x q = subst (λ z. Relates parents z) (sym q) tt

      refused :
          relate decimal digest_fields levels nodes (r ∷ rs) parents ≡ err Error.conflict
          → Relates parents (relate decimal digest_fields levels nodes (r ∷ rs) parents)
      refused q = failed Error.conflict q

  has_some_parent :
      (parents : List (String × String)) (ns : List HierarchyNode) (id : String) (n : HierarchyNode)
      → orphan levels parents ns ≡ false
      → node_of id ns ≡ some n
      → 0 < rank levels n
      → has_parent (find n.host_group_id parents) ≡ true
  unfolding orphan node_of
  has_some_parent parents [] id n o h l = absurd (ground (arith, h))
  has_some_parent parents (m ∷ ms) id n o h l = elim (Bool-cases (str_eq m.host_group_id id)) [
    | inr f ↦ has_some_parent parents ms id n (ground (arith, o)) (ground (arith, h, f)) l
    | inl f ↦
        let same : m ≡ n = ground (arith, h, f) in
        let low = subst (λ (z : HierarchyNode). 0 < rank levels z) (sym same) l in
        subst (λ (z : HierarchyNode). has_parent (find z.host_group_id parents) ≡ true) same
          (ranked (rank levels m) (has_parent (find m.host_group_id parents))
            (orphan levels parents ms) o low)
  ]
    where
      ranked : (k : ℕ) (a b : Bool) → (ltb 0 k && not a || b) ≡ false → 0 < k → a ≡ true
      ranked k a b h l = ground (arith, h, l)

  rank_of : Option HierarchyNode → ℕ
  rank_of none = 0
  rank_of (some n) = rank levels n

  -- From a node its parents lead to the first level, in at most as many steps as its rank.
  climb-root :
      (es : List RelationEvidence) (all : List (String × String))
      → Related [] es all
      → orphan levels all nodes ≡ false
      → (fuel : ℕ) (g : String) (n : HierarchyNode) → node_of g nodes ≡ some n
      → rank levels n ≤ fuel
      → (root : HierarchyNode) × (node_of (climb fuel g es) nodes ≡ some root)
        × (rank levels root ≡ 0)
  unfolding rank_of
  climb-root es all r o zero g n h l = (n, h, omega (arith, l))
  climb-root es all r o (suc fuel) g n h l = elim (Option-cases (parent_of g es)) [
    | inl e ↦ (
      n,
      ap (λ z. node_of z nodes) (rw (e, climb) refl) ∙ h,
      top (rank levels n) (λ k.
          let found = has_some_parent all nodes g n o h k in
          let named = ap (λ z. has_parent (find z all)) (node_of-id g nodes n h) in
          sym found ∙ named ∙ ap has_parent (r.1 g (parent_of-none g es e))),
    )
    | inr (q, e) ↦
        let above = parent_of-some Above g q es r.0 e in
        let same = ap rank_of (sym above.3 ∙ h) in
        let ih = climb-root es all r o fuel q above.0 above.2 (omega (arith, l, above.4, same)) in
        let step : climb (suc fuel) g es ≡ climb fuel q es = rw (e, climb) refl in
        (ih.0, ap (λ z. node_of z nodes) step ∙ ih.1, ih.2)
  ]
    where
      top : (k : ℕ) → (0 < k → true ≡ false) → k ≡ 0
      top zero f = refl
      top (suc k) f = absurd (let x = f (omega arith) in ground (arith, x))

  sorted-Related :
      (es : List RelationEvidence) (all : List (String × String))
      → Related [] es all
      → Related [] (sort by_parent es) all
  sorted-Related es all r = (
    (sort-All_iff by_parent (λ (e : RelationEvidence). Above e.parent_group_id e.child_group_id)
          es).1
        r.0,
    λ k a. r.1 k (
        (sort-All_iff by_parent (λ (e : RelationEvidence). str_eq e.child_group_id k ≡ false) es).0
          a),
  )

module _ (decimal : ℕ → String) (digest_fields : List String → String) where
  -- If the relations of a hierarchy are accepted, then from each group the parents in the evidence
  -- lead to a group of the first level, in no more steps than its level has levels before it: the
  -- parents of no group run in a cycle, or end below the first level.
  pub accepted-root :
      (r : HierarchyRequest) (nodes : List HierarchyNode) (es : List RelationEvidence) (g : String)
      (n : HierarchyNode)
      → normalize_relations decimal digest_fields r nodes ≡ ok es
      → node_of g nodes ≡ some n
      → (root : HierarchyNode) × (node_of (climb (rank r.levels n) g es) nodes ≡ some root)
        × (rank r.levels root ≡ 0)
  unfolding normalize_relations
  accepted-root r nodes es g n h at =
      let related = relate-Relates decimal digest_fields r.levels nodes r.relations [] in
      elim (Result-cases (relate decimal digest_fields r.levels nodes r.relations [])) [
        | inl (x, e) ↦ absurd (ground (arith, h, e))
        | inr ((fs, all), e) ↦
            let k = subst (λ z. Relates decimal digest_fields r.levels nodes [] z) e related in
            let good = sorted-Related decimal digest_fields r.levels nodes fs all k in
            elim (Bool-cases (orphan r.levels all nodes)) [
              | inl f ↦ absurd (ground (arith, h, e, f))
              | inr f ↦
                  let same : sort by_parent fs ≡ es = ground (arith, h, e, f) in
                  subst
                    (λ z.
                      (root : HierarchyNode) × (node_of (climb (rank r.levels n) g z) nodes
                        ≡ some root)
                      × (rank r.levels root ≡ 0))
                    same
                    (climb-root decimal digest_fields r.levels nodes (sort by_parent fs) all good f
                      (rank r.levels n) g n at (omega arith))
            ]
      ]
