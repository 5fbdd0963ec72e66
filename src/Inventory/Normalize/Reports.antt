-- ===== src/Inventory/Normalize/Reports.antt =====
-- The capabilities of a normalised snapshot against those of its fragments.
use mathlib.Core.Path.{subst}
use kvm_infrastructure_manag.Base.{
  All-map, All-map2, Result-cases, ◌≡◌, refl, ap, sym, ◌∙◌, String, true, false, none, some, List,
  [], ◌∷◌, str_eq, eq_iff, eq_refl, arith, Result, ok, err, All, Bool-cases, Option-cases, inl, inr,
}
use kvm_infrastructure_manag.Base.Sort.{sort, sort-All_iff}
use kvm_infrastructure_manag.Inventory.Model.{Snapshot, Fragment, Capability}
use kvm_infrastructure_manag.Inventory.Payloads.{Error}
use kvm_infrastructure_manag.Inventory.Normalize.{
  normalize_fragment, normalize_fragments, add_all, has_name, normalize_and_validate,
  with_fragments, capability_before, fragment_before,
}
use kvm_infrastructure_manag.HostGroup.Selector.{reported}

-- Each element has what all have.
each_has : (xs : List Capability) → All (λ c. (P : Capability → Type 0) → All P xs → P c) xs
each_has [] = tt
each_has (x ∷ xs) = (
  λ P a. a.0,
  All-map (λ c. (P : Capability → Type 0) → All P xs → P c)
      (λ c. (P : Capability → Type 0) → All P (x ∷ xs) → P c) xs (λ c h P a. h P a.1) (each_has xs),
)

abbrev Others : String → List Capability → Type 0
Others k cs = All (λ (d : Capability). str_eq d.name k ≡ false) cs

abbrev Distinct : List Capability → Type 0
Distinct [] = Unit
Distinct (c ∷ cs) = Others c.name cs × Distinct cs

-- All capabilities of this name have this state.
abbrev Agree : String → String → List Capability → Type 0
Agree k state cs = All (λ (d : Capability). str_eq d.name k ≡ true → d.state ≡ state) cs

Others-Agree : (k state : String) (cs : List Capability) → Others k cs → Agree k state cs
Others-Agree k state cs a =
    All-map (λ (d : Capability). str_eq d.name k ≡ false)
      (λ (d : Capability). str_eq d.name k ≡ true → d.state ≡ state) cs
      (λ d o e. absurd (ground (arith, o, e))) a

Distinct-Agree :
    (cs : List Capability) → Distinct cs → All (λ (c : Capability). Agree c.name c.state cs) cs
Distinct-Agree [] d = tt
Distinct-Agree (c ∷ cs) d =
    ((λ e. refl, Others-Agree c.name c.state cs d.0), later cs d.0 (Distinct-Agree cs d.1))
  where
    later :
        (xs : List Capability)
        → Others c.name xs
        → All (λ (x : Capability). Agree x.name x.state cs) xs
        → All (λ (x : Capability). Agree x.name x.state (c ∷ cs)) xs
    later [] o a = tt
    later (x ∷ xs) o a = (
      (
        λ e.
            let f = (eq_iff c.name x.name).0 e in
            let g = (eq_iff x.name c.name).1 (sym f) in absurd (ground (arith, o.0, g)),
        a.0,
      ),
      later xs o.1 a.1,
    )

reported-none : (k : String) (cs : List Capability) → reported k cs ≡ none → Others k cs
unfolding reported
reported-none k [] h = tt
reported-none k (c ∷ cs) h = elim (Option-cases (reported k cs)) [
  | inl e ↦ (ground (arith, h, e), reported-none k cs e)
  | inr (s, e) ↦ absurd (ground (arith, h, e))
]

reported-Agree :
    (k state got : String) (cs : List Capability)
    → Agree k state cs
    → reported k cs ≡ some got
    → got ≡ state
unfolding reported
reported-Agree k state got [] a h = absurd (ground (arith, h))
reported-Agree k state got (c ∷ cs) a h = elim (Option-cases (reported k cs)) [
  | inr (s, e) ↦ reported-Agree k state got cs a.1 (ground (arith, h, e))
  | inl e ↦ elim (Bool-cases (str_eq c.name k)) [
    | inl f ↦ let g = a.0 f in ground (arith, h, e, f, g)
    | inr f ↦ absurd (ground (arith, h, e, f))
  ]
]

-- In a list without repeated names, sorted or not, each capability is reported in its state.
sort-reported :
    (cs : List Capability)
    → Distinct cs
    → All (λ (c : Capability). reported c.name (sort capability_before cs) ≡ some c.state) cs
sort-reported cs d =
    let sorted = sort capability_before cs in
    All-map2 (λ c. (P : Capability → Type 0) → All P cs → P c)
      (λ (c : Capability). Agree c.name c.state cs) (λ c. reported c.name sorted ≡ some c.state) cs
      (λ c has agree. elim (Option-cases (reported c.name sorted)) [
        | inl e ↦
            let none_here =
              (sort-All_iff capability_before (λ d. str_eq d.name c.name ≡ false) cs).0
                (reported-none c.name sorted e) in
            let self = has (λ d. str_eq d.name c.name ≡ false) none_here in
            absurd (ground (arith, self, eq_refl c.name))
        | inr (got, e) ↦
            let agree_there =
              (sort-All_iff capability_before (λ d. str_eq d.name c.name ≡ true → d.state ≡ c.state)
                  cs).1
                agree in
            e ∙ ap some (reported-Agree c.name c.state got sorted agree_there e)
      ])
      (each_has cs) (Distinct-Agree cs d)

has_name-Others : (k : String) (cs : List Capability) → has_name k cs ≡ false → Others k cs
has_name-Others k [] h = tt
has_name-Others k (c ∷ cs) h = (ground (arith, h), has_name-Others k cs (ground (arith, h)))

-- What is added keeps the map without repeated names, and is all in it.
Added : List Capability → List Capability → List Capability → Type 1
Added cs seen all =
    (Distinct seen → Distinct all) × ((P : Capability → Type 0) → All P all → All P seen × All P cs)

AddedIf : List Capability → List Capability → Result Error (List Capability) → Type 1
unfolding Added
AddedIf cs seen (err e) = Unit
AddedIf cs seen (ok all) = Added cs seen all

add_all-Added : (cs seen : List Capability) → AddedIf cs seen (add_all cs seen)
unfolding add_all AddedIf Added
add_all-Added [] seen = (λ d. d, λ P a. (a, tt))
add_all-Added (c ∷ cs) seen = elim (Bool-cases (has_name c.name seen)) [
  | inl e ↦ rw e tt
  | inr e ↦
      rw e (
        grown (add_all cs (c ∷ seen)) (has_name-Others c.name seen e) (add_all-Added cs (c ∷ seen)))
]
  where
    grown :
        (r : Result Error (List Capability))
        → Others c.name seen
        → AddedIf cs (c ∷ seen) r
        → AddedIf (c ∷ cs) seen r
    grown (err e) o a = tt
    grown (ok all) o a = (λ d. a.0 (o, d), λ P q. let b = a.1 P q in (b.0.1, (b.0.0, b.1)))

-- The same of fragments that are collected.
Collected : List Capability → Result Error (List Fragment × List Capability) → Type 1
Collected seen (err e) = Unit
Collected seen (ok (gs, all)) =
    (Distinct seen → Distinct all)
    × ((P : Capability → Type 0)
        → All P all
        → All P seen × All (λ (g : Fragment). All P g.capabilities) gs)

collect :
    (fs : List Fragment) (seen : List Capability) → Collected seen (normalize_fragments fs seen)
unfolding normalize_fragments Collected Added AddedIf
collect [] seen = (λ d. d, λ P a. (a, tt))
collect (f ∷ fs) seen = elim (Result-cases (normalize_fragment f)) [
  | inl (e, h) ↦
      let q : normalize_fragments (f ∷ fs) seen ≡ err e = rw (h, normalize_fragments) refl in
      subst (λ z. Collected seen z) (sym q) tt
  | inr (g, h) ↦
      let added : AddedIf g.capabilities seen (add_all g.capabilities seen) =
        add_all-Added g.capabilities seen in
      elim (Result-cases (add_all g.capabilities seen)) [
        | inl (e, k) ↦
            let q : normalize_fragments (f ∷ fs) seen ≡ err e =
              rw (h, k, normalize_fragments) refl in
            subst (λ z. Collected seen z) (sym q) tt
        | inr (more, k) ↦
            let a = subst (λ z. AddedIf g.capabilities seen z) k added in
            let later : Collected more (normalize_fragments fs more) = collect fs more in
            elim (Result-cases (normalize_fragments fs more)) [
              | inl (e, l) ↦
                  let q : normalize_fragments (f ∷ fs) seen ≡ err e =
                    rw (h, k, l, normalize_fragments) refl in
                  subst (λ z. Collected seen z) (sym q) tt
              | inr ((gs, all), l) ↦
                  let c = subst (λ z. Collected more z) l later in
                  let q : normalize_fragments (f ∷ fs) seen ≡ ok (g ∷ gs, all) =
                    rw (h, k, l, normalize_fragments) refl in
                  subst (λ z. Collected seen z) (sym q)
                    (
                      λ d. c.0 (a.0 d),
                      λ P p. let b = c.1 P p in let u = a.1 P b.0 in (u.0, (u.1, b.1)),
                    )
            ]
      ]
]

snapshot_of : Snapshot → Result Error Snapshot → Snapshot
snapshot_of s (ok n) = n
snapshot_of s (err e) = s

-- In a normalised snapshot each capability of each fragment is reported, in its own state, by the
-- capabilities of the snapshot: none of them hides another.
pub normalized-reported :
    (s n : Snapshot)
    → normalize_and_validate s ≡ ok n
    → All
        (λ (f : Fragment).
          All (λ (c : Capability). reported c.name n.capabilities ≡ some c.state) f.capabilities)
        n.fragments
unfolding normalize_and_validate Collected snapshot_of
normalized-reported s n h = elim (Result-cases (normalize_fragments s.fragments [])) [
  | inl (e, k) ↦ absurd (ground (arith, h, k))
  | inr ((fs, cs), k) ↦
      let made : Result.ok (with_fragments s (fs, cs)) ≡ ok n = ground (arith, h, k) in
      let c = subst (λ z. Collected [] z) k (collect s.fragments []) in
      let P = λ (c : Capability). reported c.name (sort capability_before cs) ≡ some c.state in
      let each = (c.1 P (sort-reported cs (c.0 tt))).1 in
      let Q = λ (f : Fragment). All P f.capabilities in
      subst
        (λ (z : Snapshot).
          All
            (λ (f : Fragment).
              All (λ (c : Capability). reported c.name z.capabilities ≡ some c.state)
                f.capabilities)
            z.fragments)
        (ap (snapshot_of s) made) ((sort-All_iff fragment_before Q fs).1 each)
]
