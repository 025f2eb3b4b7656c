-- ===== src/Launch/Running/Ends.antt =====
-- How `run` ends.
use gateway_proxy.Prelude.{ℕ, List, [], ◌∷◌}
use gateway_proxy.Text.{Text}
use gateway_proxy.Launch.Running.{Action, spawn_dispatch, spawn_server, flag, send_close, actions}

-- The shards of these actions that were started, and those that were sent a close frame once the flag
-- was set.
abbrev pub started_shards : List Action → List ℕ
started_shards [] = []
started_shards (spawn_dispatch id presence ∷ actions) = id ∷ started_shards actions
started_shards (spawn_server ∷ actions) = started_shards actions
started_shards (flag ∷ actions) = started_shards actions
started_shards (send_close id ∷ actions) = started_shards actions

abbrev closes : List Action → List ℕ
closes [] = []
closes (send_close id ∷ actions) = id ∷ closes actions
closes (_ ∷ actions) = closes actions

abbrev pub closed_after_flag : List Action → List ℕ
closed_after_flag [] = []
closed_after_flag (flag ∷ actions) = closes actions
closed_after_flag (_ ∷ actions) = closed_after_flag actions
