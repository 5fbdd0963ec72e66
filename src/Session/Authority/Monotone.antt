-- ===== src/Session/Authority/Monotone.antt =====
-- The local authority view never goes back.
use kvm_infrastructure_manag.Base.{◌≤◌, ◌≡◌, refl, sym, ◌∙◌, false, List, [], ◌∷◌, arith, eq_iff}
use kvm_infrastructure_manag.Session.Authority.{AuthoritySnapshot, is_current, apply, apply_all}

-- One update: the Host stays, the generation does not fall, and one generation is not re-armed.
record Advances (a b : AuthoritySnapshot) : Type 0 where
  host : b.host_identity ≡ a.host_identity
  generation : a.session_generation ≤ b.session_generation
  rearm :
      is_current a.state ≡ false
      → b.session_generation ≡ a.session_generation
      → is_current b.state ≡ false

apply-Advances : (a n : AuthoritySnapshot) → Advances a (apply a n).1
unfolding apply
apply-Advances a n = record {
  host = ground (arith, eq_iff n.host_identity a.host_identity);
  generation = ground arith;
  rearm = λ h k. ground arith;
}

apply_all-Advances :
    (a : AuthoritySnapshot) (ns : List AuthoritySnapshot) → Advances a (apply_all a ns)
unfolding apply_all
apply_all-Advances a [] = record { host = refl; generation = omega arith; rearm = λ h k. h }
apply_all-Advances a (n ∷ ns) =
    let one = apply-Advances a n in
    let all = apply_all-Advances (apply a n).1 ns in
    record {
      host = all.host ∙ one.host;
      generation = omega (arith, one.generation, all.generation);
      rearm = λ h k.
          let same : (apply a n).1.session_generation ≡ a.session_generation =
            omega (arith, one.generation, all.generation, k) in
          all.rearm (one.rearm h same) (k ∙ sym same);
    }

-- Whatever updates arrive, the view keeps its Host identity, and its generation never falls.
pub apply_all-generation-le :
    (view : AuthoritySnapshot) (updates : List AuthoritySnapshot)
    → ((apply_all view updates).host_identity ≡ view.host_identity)
      × (view.session_generation ≤ (apply_all view updates).session_generation)
apply_all-generation-le view updates =
    let a = apply_all-Advances view updates in (a.host, a.generation)

-- A view that is not current at a generation is not current after any updates that leave it at that
-- generation.
pub fenced_stays :
    (view : AuthoritySnapshot) (updates : List AuthoritySnapshot)
    → is_current view.state ≡ false
    → (apply_all view updates).session_generation ≡ view.session_generation
    → is_current (apply_all view updates).state ≡ false
fenced_stays view updates = (apply_all-Advances view updates).rearm
