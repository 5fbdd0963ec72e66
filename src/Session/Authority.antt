-- ===== src/Session/Authority.antt =====
-- internal/agent/session/authority.go: the Agent's local view of session authority. A view is its
-- snapshot, so `Snapshot` is the view itself.
pub mod Monotone
use kvm_infrastructure_manag.Base.{
  ℕ, zero, ◌+◌, ◌≤◌, ◌<◌, String, ◌≡◌, refl, ◌≢◌, ◌⊎◌, inl, inr, Bool, true, false, ◌&&◌, ◌||◌, not,
  Option, none, some, List, [], ◌∷◌, arith, ltb, ◌==◌, if◌then◌else◌, str_eq,
}
use kvm_infrastructure_manag.Session.Error.{
  Error, authority_incomplete, unknown_authority_state, host_changed, generation_decreased,
  rearm_refused,
}

-- `AuthorityState` is a string: `unrecognised` holds any but the three constants.
pub data AuthorityState : Type 0 where
  current fenced unknown : AuthorityState
  unrecognised : String → AuthorityState

abbrev pub is_current : AuthorityState → Bool
is_current current = true
is_current _ = false

abbrev pub is_recognised : AuthorityState → Bool
is_recognised (unrecognised s) = false
is_recognised _ = true

pub record AuthoritySnapshot : Type 0 where
  pub host_identity : String
  pub session_generation : ℕ
  pub state : AuthorityState

unfoldable pub new_memory_authority_view : String → ℕ → Option AuthoritySnapshot
new_memory_authority_view host generation =
    if str_eq host "" || generation == 0
    then none
    else some (record { host_identity = host; session_generation = generation; state = current })

-- The error, and the view afterwards.
unfoldable pub apply : AuthoritySnapshot → AuthoritySnapshot → Option Error × AuthoritySnapshot
apply view next =
    if str_eq next.host_identity "" || next.session_generation == 0
    then (some authority_incomplete, view)
    else if not (is_recognised next.state)
    then (some unknown_authority_state, view)
    else if not (str_eq next.host_identity view.host_identity)
    then (some host_changed, view)
    else if ltb next.session_generation view.session_generation
    then (some generation_decreased, view)
    else if next.session_generation == view.session_generation
        && not (is_current view.state)
        && is_current next.state
    then (some rearm_refused, view)
    else (none, next)

unfoldable pub apply_all : AuthoritySnapshot → List AuthoritySnapshot → AuthoritySnapshot
apply_all view [] = view
apply_all view (next ∷ rest) = apply_all (apply view next).1 rest
