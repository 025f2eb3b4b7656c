-- ===== src/State/Waiting.antt =====
-- `wait_until_ready` of src/state.rs, step by step, among the writes of another task.
use gateway_proxy.Prelude.{
  ℕ, zero, suc, ◌+◌, ◌≤◌, ◌<◌, ◌≡◌, ◌≢◌, refl, ◌⊎◌, inl, inr, true, false, none, some, List, [],
  ◌∷◌, ltb, if◌then◌else◌, arith, Bool-cases, Option-cases,
}
use gateway_proxy.Model.{JsonObject}
use gateway_proxy.State.Readiness.{Ready, is_ready, set_ready, set_not_ready}

-- Where the task stands: at the test of the loop, before `notified()` is called, at its `await` (with
-- the count of notifications at the call), before the last read, and at its end.
pub data Place : Type 0 where
  testing subscribing reading panicked : Place
  parked : ℕ → Place
  returned : JsonObject → Place

pub record Task : Type 0 where
  pub ready : Ready
  pub place : Place

-- One step of the task; at its end and while it is parked it stays where it is.
unfoldable pub advance_at : Ready → Place → Place
unfolding is_ready
advance_at r testing = if is_ready r then reading else subscribing
advance_at r subscribing = parked r.changed
advance_at r (parked seen) = if ltb seen r.changed then testing else parked seen
advance_at r reading = elim r.inner [ none ↦ panicked | some payload ↦ returned payload ]
advance_at r (returned payload) = returned payload
advance_at r panicked = panicked

pub data Event : Type 0 where
  advance : Event
  ready_set : JsonObject → Event
  not_ready_set : Event

unfoldable pub step : Task → Event → Task
unfolding advance_at
step t advance = record t { place = advance_at t.ready t.place }
step t (ready_set payload) = record t { ready = set_ready t.ready payload }
step t not_ready_set = record t { ready = set_not_ready t.ready }

unfoldable pub run : Task → List Event → Task
run t [] = t
run t (e ∷ es) = run (step t e) es

unfoldable pub wait_until_ready : Ready → Task
wait_until_ready r = record { ready = r; place = testing }

abbrev pub advances : ℕ → List Event
advances zero = []
advances (suc n) = advance ∷ advances n

-- A task that is parked, and was not notified since, stays so.
run-parked :
    (r : Ready) (n : ℕ)
    → run (record { ready = r; place = parked r.changed }) (advances n)
      ≡ record { ready = r; place = parked r.changed }
unfolding run step
run-parked r zero = refl
run-parked r (suc n) = ground (arith, run-parked r n)

-- A READY that is set between the test of the loop and the call of `notified()` is missed: the task
-- stays parked, however many steps it is given, although the payload is there.
pub set_ready-lost :
    (r : Ready) (payload : JsonObject) (n : ℕ)
    → is_ready r ≡ false
    → let t = run (wait_until_ready r) (advance ∷ ready_set payload ∷ advance ∷ advances n) in
      (t.place ≡ parked (r.changed + 1)) × (t.ready.inner ≡ some payload)
unfolding run step wait_until_ready set_ready
set_ready-lost r payload n h = ground (arith, run-parked (set_ready r payload) n)

-- A READY that is reset between the last test and the last read makes the task panic.
pub set_not_ready-panic :
    (r : Ready)
    → is_ready r ≡ true
    → (run (wait_until_ready r) (advance ∷ not_ready_set ∷ advance ∷ [])).place ≡ panicked
unfolding run step wait_until_ready set_not_ready
set_not_ready-panic r h = ground arith

-- No write falls between a test of the loop and what the task does on its outcome.
abbrev pub Calm : Place → Event → Type 0
Calm subscribing (ready_set _) = ⊥
Calm subscribing not_ready_set = ⊥
Calm reading (ready_set _) = ⊥
Calm reading not_ready_set = ⊥
Calm _ _ = Unit {0}

abbrev pub Undisturbed : Task → List Event → Type 0
Undisturbed t [] = Unit {0}
Undisturbed t (e ∷ es) = Calm t.place e × Undisturbed (step t e) es

abbrev Inv : Ready → Place → Type 0
Inv r subscribing = r.inner ≡ none
Inv r reading = r.inner ≢ none
Inv r (parked seen) = (seen ≤ r.changed) × ((r.inner ≡ none) ⊎ (seen < r.changed))
Inv r panicked = ⊥
Inv r _ = Unit {0}

advance_at-Inv : (r : Ready) (p : Place) → Inv r p → Inv r (advance_at r p)
unfolding advance_at
advance_at-Inv r testing v = elim (Option-cases r.inner) [
  | inl empty ↦ rw (empty, advance_at) refl
  | inr (payload, full) ↦ rw (full, advance_at) (λ e. cc)
]
advance_at-Inv r subscribing v = (omega arith, inl v)
advance_at-Inv r (parked seen) v = elim (Bool-cases (ltb seen r.changed)) [
  | inl notified ↦ rw notified tt
  | inr asleep ↦ rw asleep v
]
advance_at-Inv r reading v = elim (Option-cases r.inner) [
  | inl empty ↦ absurd (v empty)
  | inr (payload, full) ↦ rw (full, advance_at) tt
]
advance_at-Inv r _ v = v

write-Inv :
    (r q : Ready) (p : Place) (payload : JsonObject)
    → q.changed ≡ r.changed + 1
    → Calm p (ready_set payload)
    → Inv r p
    → Inv q p
write-Inv r q (parked seen) payload e c v = (omega arith, inr (omega arith))
write-Inv r q subscribing payload e c v = absurd c
write-Inv r q reading payload e c v = absurd c
write-Inv r q _ payload e c v = v

step-Inv :
    (t : Task) (e : Event)
    → Calm t.place e
    → Inv t.ready t.place
    → Inv (step t e).ready (step t e).place
unfolding step set_ready set_not_ready
step-Inv t advance c v = advance_at-Inv t.ready t.place v
step-Inv t (ready_set payload) c v = write-Inv t.ready _ t.place payload refl c v
step-Inv t not_ready_set c v = write-Inv t.ready _ t.place [] refl (calm t.place c) v
  where
    calm : (p : Place) → Calm p not_ready_set → Calm p (ready_set [])
    calm subscribing c = c
    calm reading c = c
    calm _ c = tt

run-Inv :
    (t : Task) (es : List Event)
    → Undisturbed t es
    → Inv t.ready t.place
    → Inv (run t es).ready (run t es).place
unfolding run
run-Inv t [] u v = v
run-Inv t (e ∷ es) u v = run-Inv (step t e) es u.1 (step-Inv t e u.0 v)

-- The task ends with this payload within three steps.
abbrev Ends : Ready → Place → JsonObject → Type 0
Ends r p payload = (run (record { ready = r; place = p }) (advances 3)).place ≡ returned payload

abbrev pub Done : Place → Type 0
Done p = (payload : JsonObject) × (p ≡ returned payload)

ends :
    (r : Ready) (p : Place) (payload : JsonObject)
    → Inv r p
    → r.inner ≡ some payload
    → Done p ⊎ Ends r p payload
unfolding run step
ends r (returned q) payload v full = inl (q, refl)
ends r subscribing payload v full = absurd cc
ends r panicked payload v full = absurd v
ends r (parked seen) payload v full = inr (ground arith)
ends r testing payload v full = inr (ground arith)
ends r reading payload v full = inr (ground arith)

-- Where every write of the other tasks keeps clear of these two gaps, the task never panics, and
-- whenever the READY payload is there, either it has returned or three steps of its own make it
-- return this payload.
pub wait_until_ready-returns :
    (r : Ready) (es : List Event)
    → Undisturbed (wait_until_ready r) es
    → let t = run (wait_until_ready r) es in
      (t.place ≢ panicked)
      × ((payload : JsonObject)
          → t.ready.inner ≡ some payload
          → Done t.place ⊎ ((run t (advances 3)).place ≡ returned payload))
unfolding wait_until_ready
wait_until_ready-returns r es u =
    let t = run (record { ready = r; place = testing }) es in
    let v : Inv t.ready t.place = run-Inv (record { ready = r; place = testing }) es u tt in
    (λ e. rw e at v, λ payload full. ends t.ready t.place payload v full)
