-- ===== src/Server/Listening.antt =====
-- `run` of src/server.rs: the loop that accepts connections.
use gateway_proxy.Prelude.{
  ◌≡◌, refl, ap, ℕ, Bool, true, false, Option, none, some, List, [], ◌∷◌, ◌++◌, map, if◌then◌else◌,
  ◌⊎◌, inl, inr,
}
use gateway_proxy.Upgrade as Upgrade
use gateway_proxy.Upgrade.{Request, Answer, handler}

-- An accepted connection, by the requests that are read from it.
abbrev pub Connection : Type 0
Connection = List Request

-- The answers on the connections that are served, oldest first, and whether `run` still listens.
pub record Listener : Type 0 where
  pub served : List (List (Option Answer))
  pub listening : Bool

module _ (env : Upgrade.Env) (shard_count : ℕ) where
  -- `serve_connection_with_upgrades` with the service.
  unfoldable pub serve_connection : Connection → List (Option Answer)
  serve_connection requests = map (handler env shard_count) requests

  -- What `accept` yields; `none` is an error.
  unfoldable pub accept_loop : List (Option Connection) → Listener
  accept_loop [] = record { served = []; listening = true }
  accept_loop (none ∷ accepted) = record { served = []; listening = false }
  accept_loop (some conn ∷ accepted) =
      let rest = accept_loop accepted in
      record rest { served = serve_connection conn ∷ rest.served }

  -- `bound` says whether the listener could be bound.
  unfoldable pub run : Bool → List (Option Connection) → Listener
  run bound accepted =
      if bound then accept_loop accepted else record { served = []; listening = false }

  accept_loop-ends :
      (accepted : List (Option Connection))
      → (before : List Connection) × ((accept_loop accepted).served ≡ map serve_connection before)
        × (((accepted ≡ map some before) × ((accept_loop accepted).listening ≡ true))
            ⊎ ((after : List (Option Connection)) × (accepted ≡ map some before ++ (none ∷ after))
                × ((accept_loop accepted).listening ≡ false)))
  unfolding accept_loop
  accept_loop-ends [] = ([], refl, inl (refl, refl))
  accept_loop-ends (none ∷ accepted) = ([], refl, inr (accepted, refl, refl))
  accept_loop-ends (some conn ∷ accepted) =
      let (before, served, ends) = accept_loop-ends accepted in
      (
        conn ∷ before,
        ap (λ rest. serve_connection conn ∷ rest) served,
        elim ends [
          | inl (all, on) ↦ inl (ap (λ l. some conn ∷ l) all, on)
          | inr (after, split, off) ↦ inr (after, ap (λ l. some conn ∷ l) split, off)
        ],
      )

  -- Once bound, the proxy serves every connection that it accepts before the first error of `accept`;
  -- that error ends the listening for good, and no later connection is served.
  pub run-ends :
      (accepted : List (Option Connection))
      → (before : List Connection) × ((run true accepted).served ≡ map serve_connection before)
        × (((accepted ≡ map some before) × ((run true accepted).listening ≡ true))
            ⊎ ((after : List (Option Connection)) × (accepted ≡ map some before ++ (none ∷ after))
                × ((run true accepted).listening ≡ false)))
  unfolding run
  run-ends accepted = accept_loop-ends accepted
