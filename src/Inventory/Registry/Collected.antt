-- ===== src/Inventory/Registry/Collected.antt =====
-- What `Collect` gives, and the names in the registry.
use mathlib.Core.Path.{subst}
use kvm_infrastructure_manag.Base.{
  ℕ, ◌≡◌, refl, ap, sym, ◌∙◌, String, false, ◌||◌, Option, none, some, List, [], ◌∷◌, ◌++◌, ◌==◌,
  if◌then◌else◌, str_eq, arith, ok, Result-cases, All, Bool-cases, Option-cases, eq_iff, inl, inr,
}
use kvm_infrastructure_manag.Base.Maps.{both_branches}
use kvm_infrastructure_manag.Inventory.Model.{Snapshot, Fragment, Capability}
use kvm_infrastructure_manag.Inventory.Normalize.{normalize_and_validate}
use kvm_infrastructure_manag.Inventory.Normalize.Reports.{normalized-reported}
use kvm_infrastructure_manag.Inventory.Registry.{
  ModuleDescriptor, Registry, Error, registry_sealed, module_registered, collect, collect_all,
  seal_and_list, snapshot_from, validated, is_registered, register_valid, register_inventory,
  validate_descriptor,
}
use kvm_infrastructure_manag.HostGroup.Selector.{reported}

abbrev Reported : Snapshot → Type 0
Reported n =
    All
      (λ (f : Fragment).
        All (λ (c : Capability). reported c.name n.capabilities ≡ some c.state) f.capabilities)
      n.fragments

validated-Reported : (s n : Snapshot) → validated (normalize_and_validate s) ≡ ok n → Reported n
validated-Reported s n h = elim (Result-cases (normalize_and_validate s)) [
  | inl (e, k) ↦ absurd (ground (arith, sym (ap validated k) ∙ h))
  | inr (m, k) ↦
      let same : m ≡ n = ground (arith, sym (ap validated k) ∙ h) in
      normalized-reported s n (k ∙ ap ok same)
]

-- A snapshot that is collected reports each capability of each of its fragments in its own state.
collect-Reported :
    (observe : ModuleDescriptor → Option Fragment) (host : String) (generation : ℕ) (r : Registry)
    (n : Snapshot)
    → (collect observe host generation r).0 ≡ ok n
    → Reported n
unfolding collect
collect-Reported observe host generation r n h =
    elim (Bool-cases (str_eq host "" || generation == 0)) [
      | inl e ↦ absurd (ground (arith, h, e))
      | inr e ↦ elim (Result-cases ((seal_and_list r).0)) [
        | inl (x, k) ↦ absurd (ground (arith, h, e, k))
        | inr (ds, k) ↦ elim (Result-cases (collect_all observe ds)) [
          | inl (x, l) ↦ absurd (ground (arith, h, e, k, l))
          | inr (fs, l) ↦
              validated-Reported (snapshot_from host generation fs) n (ground (arith, h, e, k, l))
        ]
      ]
    ]

-- No two modules in the registry have one name.
abbrev AllNamed : List ModuleDescriptor → Type 0
AllNamed [] = Unit
AllNamed (d ∷ ds) = (is_registered d.name ds ≡ false) × AllNamed ds

apart : (a b : String) → str_eq a b ≡ false → str_eq b a ≡ false
apart a b h = ground (arith, h, eq_iff a b, eq_iff b a)

is_registered-append :
    (k : String) (d : ModuleDescriptor) (ds : List ModuleDescriptor)
    → is_registered k ds ≡ false
    → str_eq d.name k ≡ false
    → is_registered k (ds ++ d ∷ []) ≡ false
is_registered-append k d [] h e = ground (arith, e)
is_registered-append k d (x ∷ ds) h e =
    let rest = is_registered-append k d ds (ground (arith, h)) e in ground (arith, h, rest)

AllNamed-append :
    (d : ModuleDescriptor) (ds : List ModuleDescriptor)
    → AllNamed ds
    → is_registered d.name ds ≡ false
    → AllNamed (ds ++ d ∷ [])
AllNamed-append d [] a h = (refl, tt)
AllNamed-append d (x ∷ ds) a h = (
  is_registered-append x.name d ds a.0 (apart x.name d.name (ground (arith, h))),
  AllNamed-append d ds a.1 (ground (arith, h)),
)

register_inventory-AllNamed :
    (o : Option ModuleDescriptor) (r : Registry)
    → AllNamed r.modules
    → AllNamed (register_inventory o r).1.modules
unfolding register_inventory
register_inventory-AllNamed none r a = a
register_inventory-AllNamed (some d) r a = elim (Option-cases (validate_descriptor d)) [
  | inr (e, k) ↦ subst (λ o. AllNamed (register_valid d o r).1.modules) (sym k) a
  | inl k ↦
      let P = λ (z : Option Error × Registry). AllNamed z.1.modules in
      let b = is_registered d.name r.modules in
      let added : Option Error × Registry = (none, record r { modules = r.modules ++ d ∷ [] }) in
      let known : Option Error × Registry = (some module_registered, r) in
      subst (λ o. AllNamed (register_valid d o r).1.modules) (sym k)
        (both_branches {A = Option Error × Registry} P r.sealed (some registry_sealed, r)
          (if b then known else added) (λ _. a)
          (λ _.
            both_branches {A = Option Error × Registry} P b known added (λ _. a)
              (λ e. AllNamed-append d r.modules a e)))
]
