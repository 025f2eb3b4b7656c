-- ===== src/Dispatch/Caching.antt =====
-- What the task of src/dispatch.rs does to the cache of its shard.
use gateway_proxy.Prelude.{
  ◌≡◌, refl, ◌∙◌, ap, true, false, Option, none, some, List, [], ◌∷◌, Option-cases, inl, inr,
}
use gateway_proxy.Text.{Text}
use gateway_proxy.Deserializer.{from_json, into_parts}
use gateway_proxy.Dispatch.{
  Incoming, TwilightEvent, dispatch, invalidate_session, other, Env, Task, relay, react, broadcast,
  handle_text, events,
}
use gateway_proxy.Dispatch.Rounds.{Holds, Holds-map, relay-Holds, relay-Holds_parts, finish-Holds}
use gateway_proxy.Dispatch.Texts.{texts, events-texts}

module _ {Cache Event : Type 0} (env : Env Cache Event) where
  abbrev applied : Cache → Option (TwilightEvent Event) → Cache
  applied cache (some (dispatch event)) = env.update cache event
  applied cache (some (invalidate_session can_resume)) = cache
  applied cache (some other) = cache
  applied cache none = cache

  -- A cache that gets every dispatch event that Twilight reads from a payload with an opcode.
  unfoldable pub updated : Cache → Text → Cache
  updated cache payload = elim (from_json payload) [
    | none ↦ cache
    | some event ↦ applied cache (env.parse payload)
  ]

  abbrev pub updated_all : Cache → List Text → Cache
  updated_all cache [] = cache
  updated_all cache (p ∷ ps) = updated_all (updated cache p) ps

  abbrev KeepsGuilds : Task Cache → Task Cache → Type 0
  KeepsGuilds t t' = t'.shard.guilds ≡ t.shard.guilds

  react-guilds :
      (t t' : Task Cache) (r : Option (TwilightEvent Event))
      → KeepsGuilds t t'
      → (react env t' r).shard.guilds ≡ applied t.shard.guilds r
  unfolding react
  react-guilds t t' none h = h
  react-guilds t t' (some (dispatch event)) h = ap (λ cache. env.update cache event) h
  react-guilds t t' (some (invalidate_session true)) h = h
  react-guilds t t' (some (invalidate_session false)) h = h
  react-guilds t t' (some other) h = h

  handle_text-guilds :
      (t : Task Cache) (payload : Text)
      → Holds (λ t'. t'.shard.guilds ≡ updated t.shard.guilds payload) (handle_text env t payload)
  unfolding handle_text updated broadcast
  handle_text-guilds t payload = elim (Option-cases (from_json payload)) [
    | inl e ↦ rw (e, handle_text) (rw (e, updated) refl)
    | inr (event, e) ↦
        rw (e, handle_text)
          (finish-Holds (λ t'. t'.shard.guilds ≡ updated t.shard.guilds payload) env (KeepsGuilds t)
            (relay env t payload (into_parts event)) payload
            (relay-Holds_parts (KeepsGuilds t) env t payload event refl λ info named.
              relay-Holds (KeepsGuilds t) env t payload event.op event.sequence info (λ _ _ _. refl)
                (λ _. refl) (λ _ _ _ _. refl) (λ _ _ _. refl))
            (λ t' h. rw (e, updated) (react-guilds t t' (env.parse payload) h)))
  ]

  -- Unless the task panics, the cache of its shard is at the end the one at first, updated with every
  -- dispatch event that Twilight reads before the end of the stream, in order, whether the session is
  -- live or not.
  pub events-guilds :
      (t : Task Cache) (ms : List Incoming)
      → Holds (λ t'. t'.shard.guilds ≡ updated_all t.shard.guilds (texts ms)) (events env t ms)
  events-guilds t ms =
      events-texts env (λ t ps t'. t'.shard.guilds ≡ updated_all t.shard.guilds ps) (λ t. refl)
        (λ t p.
          Holds-map (λ t' step ps t'' h. h ∙ ap (λ cache. updated_all cache ps) step)
            (handle_text env t p) (handle_text-guilds t p))
        t ms
