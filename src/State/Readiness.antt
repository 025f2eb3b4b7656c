-- ===== src/State/Readiness.antt =====
-- `Ready` of src/state.rs: the value under the lock, and how often `notify_waiters` was called.
use gateway_proxy.Prelude.{ℕ, ◌+◌, Bool, true, false, Option, none, some}
use gateway_proxy.Model.{JsonObject}

pub record Ready : Type 0 where
  pub inner : Option JsonObject
  pub changed : ℕ

unfoldable pub new : Ready
new = record { inner = none; changed = 0 }

unfoldable pub is_ready : Ready → Bool
is_ready r = elim r.inner [ none ↦ false | some _ ↦ true ]

unfoldable pub set_ready : Ready → JsonObject → Ready
set_ready r payload = record { inner = some payload; changed = r.changed + 1 }

unfoldable pub set_not_ready : Ready → Ready
set_not_ready r = record { inner = none; changed = r.changed + 1 }
