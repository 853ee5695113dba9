-- ===== src/Connection/Backoff.antt =====
-- How long a client waits before it connects again.
use lierc.Base.{ℕ, ◌*◌, ◌≤◌, arith}
use lierc.Connection.{backoff, retry_unit}

-- More retries never wait less, and none waits longer than twenty units.
pub backoff_mono : (r r' : ℕ) → r ≤ r' → (backoff r ≤ backoff r') × (backoff r' ≤ retry_unit * 20)
unfolding backoff
backoff_mono r r' h = ground arith
