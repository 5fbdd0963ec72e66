-- ===== src/Gateway/Admission/Permits.antt =====
-- The permits of a limiter against its callers, in every interleaving.
use kvm_infrastructure_manag.Base.{◌≡◌, ◌≤◌}
use kvm_infrastructure_manag.Base.Ints.{ℤ, pos_part}
use kvm_infrastructure_manag.Gateway.Admission.{System, has_permit, is_counted, total}

-- The counters of the limiter are those of its callers.
Counted : ℤ → System → Type 0
Counted n s =
    (s.limiter.permits ≡ total has_permit s.callers)
    × (s.limiter.active ≡ total is_counted s.callers)
    × (s.limiter.permits ≤ s.limiter.capacity)
    × (s.limiter.capacity ≡ pos_part n)
