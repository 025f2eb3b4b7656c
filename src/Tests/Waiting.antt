-- ===== src/Tests/Waiting.antt =====
-- src/state.rs, `wait_until_ready`.
use gateway_proxy.Prelude.{◌+◌, ◌≡◌, refl, some, [], ◌∷◌, ◌≢◌, ◌⊎◌}
use gateway_proxy.Text.{codes}
use gateway_proxy.Model.{JsonObject, null}
use gateway_proxy.State.Readiness.{new, is_ready}
use gateway_proxy.State.Waiting.{
  advance, ready_set, parked, panicked, returned, advances, Done, step, run, wait_until_ready,
  set_ready-lost, wait_until_ready-returns,
}

abbrev payload : JsonObject
payload = (codes "v", null) ∷ []

set_ready-lost_example :
    ((run (wait_until_ready new) (advance ∷ ready_set payload ∷ advance ∷ advances 9)).place
      ≡ parked (new.changed + 1))
    × ((run (wait_until_ready new) (advance ∷ ready_set payload ∷ advance ∷ advances 9)).ready.inner
        ≡ some payload)
unfolding new is_ready
set_ready-lost_example = set_ready-lost new payload 9 refl

wait_until_ready-returns_example :
    let t = run (wait_until_ready new) (advance ∷ advance ∷ ready_set payload ∷ []) in
    (t.place ≢ panicked)
    × ((payload : JsonObject)
        → t.ready.inner ≡ some payload
        → Done t.place ⊎ ((run t (advances 3)).place ≡ returned payload))
unfolding step wait_until_ready is_ready new
wait_until_ready-returns_example =
    wait_until_ready-returns new (advance ∷ advance ∷ ready_set payload ∷ []) (tt, (tt, (tt, tt)))
