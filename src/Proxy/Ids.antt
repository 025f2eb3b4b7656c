-- ===== src/Proxy/Ids.antt =====
-- The IDs of the shards, which no task changes (src/dispatch.rs, src/server.rs).
use gateway_proxy.Prelude.{◌≡◌, refl, ap, ◌∙◌, Option, none, some, true, false, List, [], ◌∷◌, map}
use gateway_proxy.State.{Shard}
use gateway_proxy.Deserializer.{into_parts}
use gateway_proxy.Dispatch.{
  Incoming, Env, Task, TwilightEvent, dispatch, invalidate_session, other, relay, react, broadcast,
  round,
}
use gateway_proxy.Dispatch.Rounds.{Holds, relay-Holds, relay-Holds_parts, finish-Holds, round-Holds}
use gateway_proxy.Proxy.Senders.{OnlySenders}

module _ {Cache Event : Type 0} (env : Env Cache Event) where
  react-id :
      (t : Task Cache) (event : Option (TwilightEvent Event))
      → (react env t event).shard.id ≡ t.shard.id
  unfolding react
  react-id t none = refl
  react-id t (some (dispatch event)) = refl
  react-id t (some (invalidate_session true)) = refl
  react-id t (some (invalidate_session false)) = refl
  react-id t (some other) = refl

  pub round-id :
      (t : Task Cache) (m : Incoming) → Holds (λ t'. t'.shard.id ≡ t.shard.id) (round env t m)
  unfolding broadcast
  round-id t m =
      let P : Task Cache → Type 0 = λ t'. t'.shard.id ≡ t.shard.id in
      round-Holds P env t m refl λ payload event _ parsed.
        finish-Holds P env P (relay env t payload (into_parts event)) payload
          (relay-Holds_parts P env t payload event refl λ info named.
            relay-Holds P env t payload event.op event.sequence info (λ _ _ _. refl) (λ _. refl)
              (λ _ _ _ _. refl) (λ _ _ _. refl))
          (λ t' h. react-id t' (env.parse payload) ∙ h)

pub ids-OnlySenders :
    {Cache : Type 0} (shards shards' : List (Shard Cache))
    → OnlySenders shards shards'
    → map (λ s. s.id) shards' ≡ map (λ s. s.id) shards
ids-OnlySenders [] [] only = refl
ids-OnlySenders [] (s' ∷ shards') only = absurd only
ids-OnlySenders (s ∷ shards) [] only = absurd only
ids-OnlySenders (s ∷ shards) (s' ∷ shards') only =
    ap (λ (t : Shard _). t.id ∷ map (λ s. s.id) shards') only.0
    ∙ ap (λ ids. s.id ∷ ids) (ids-OnlySenders shards shards' only.1)
