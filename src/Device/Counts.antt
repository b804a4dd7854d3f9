-- ===== src/Device/Counts.antt =====
-- src/sensorium/runtime/internal.py: what the counters of a bucket add up to.
use sensorium.Base.{ℕ, ◌+◌, ◌≤◌, ◌≡◌, refl, arith, ℤ, pos, negsuc}
use sensorium.Device.{Stats, count, fresh_stats}

-- every request is a success or an error, and every time-out is an error
pub record IsCounted (s : Stats) : Type 0 where
  pub all_counted : s.ok_count + s.errors ≡ s.requests
  pub timeouts_are_errors : s.timeouts ≤ s.errors

pub fresh-IsCounted : IsCounted fresh_stats
fresh-IsCounted = record { all_counted = refl; timeouts_are_errors = omega arith }

pub count-IsCounted :
    (status : ℤ) (bytes_in bytes_out : ℕ) (s : Stats)
    → IsCounted s
    → IsCounted (count status bytes_in bytes_out s)
unfolding count
count-IsCounted (pos n) i o s h = ground arith
count-IsCounted (negsuc n) i o s h = ground arith
