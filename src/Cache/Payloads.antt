-- ===== src/Cache/Payloads.antt =====
-- The READY payload and the payloads of the guilds: their numbers and the guilds that they name.
use gateway_proxy.Prelude.{
  ℕ, ◌+◌, ◌^◌, ◌<◌, ◌≡◌, refl, Option, none, some, List, [], ◌∷◌, ◌++◌, map, arith, if◌then◌else◌,
  length, Bool-cases, filter_map, inl, inr,
}
use mathlib.Core.List.{map-append}
use gateway_proxy.Text.{Text, codes}
use gateway_proxy.Text.Words.{text_eq}
use gateway_proxy.Model.{array, values, JsonObject, get, get-insert}
use gateway_proxy.Cache.Records.{CachedGuild, InMemoryCache}
use gateway_proxy.Cache.{
  Payload, GuildBody, guild_create, guild_delete, next_sequence, guild_id_to_json, ready_guilds,
  get_ready_payload, guild_payload, guild_payloads, get_guild_payloads,
}
use gateway_proxy.Cache.InGuild.{new_guild}

-- The guilds with the sequence numbers `first`, `first + 1` and so on.
abbrev pub numbered : List CachedGuild → ℕ → List (CachedGuild × ℕ)
numbered [] first = []
numbered (guild ∷ guilds) first = (guild, first) ∷ numbered guilds (first + 1)

pub next_sequence-below :
    (sequence : ℕ) → sequence + 1 < 2 ^ 64 → next_sequence sequence ≡ sequence + 1
unfolding next_sequence
next_sequence-below sequence h = omega (arith, h)

module _ (cache : InMemoryCache) (to_string : Payload GuildBody → Text) where
  guild_payloads_lem :
      (guilds : List CachedGuild) (sequence : ℕ)
      → sequence + length guilds < 2 ^ 64
      → guild_payloads cache to_string guilds sequence ≡ (
        map (λ g. to_string (guild_payload cache g.0 g.1)) (numbered guilds (sequence + 1)),
        sequence + length guilds,
      )
  unfolding guild_payloads
  guild_payloads_lem [] sequence h = ground arith
  guild_payloads_lem (guild ∷ guilds) sequence h =
      rw (next_sequence-below sequence (omega (arith, h)))
        (rw (guild_payloads_lem guilds (sequence + 1) (omega (arith, h))) (ground arith))

  -- The payloads of the guilds are numbered without a gap, behind the given sequence number, and the
  -- caller's number is that of the last payload afterwards.
  pub get_guild_payloads-numbered :
      (sequence : ℕ)
      → sequence + length cache.guilds < 2 ^ 64
      → get_guild_payloads cache to_string sequence ≡ (
        map (λ g. to_string (guild_payload cache g.0 g.1)) (numbered cache.guilds (sequence + 1)),
        sequence + length cache.guilds,
      )
  unfolding get_guild_payloads
  get_guild_payloads-numbered sequence h = guild_payloads_lem cache.guilds sequence h

-- The ID of the guild that a payload creates.
abbrev pub created : GuildBody → Option ℕ
created (guild_create guild) = some guild.id
created (guild_delete guild) = none

module _ (cache : InMemoryCache) where
  created-guild_payload :
      (guild : CachedGuild) (sequence : ℕ)
      → created (guild_payload cache guild sequence).d
        ≡ (if guild.unavailable then none else some guild.id)
  unfolding guild_payload new_guild
  created-guild_payload guild sequence = elim (Bool-cases guild.unavailable) [
    | inl e ↦ rw e refl
    | inr e ↦ rw e refl
  ]

  available-created :
      (guilds : List CachedGuild) (first : ℕ)
      → filter_map
          (λ guild. if guild.unavailable then none else some (guild_id_to_json guild.id))
          guilds
        ≡ map guild_id_to_json
            (filter_map (λ g. created (guild_payload cache g.0 g.1).d) (numbered guilds first))
  unfolding filter_map
  available-created [] first = refl
  available-created (guild ∷ guilds) first = elim (Bool-cases guild.unavailable) [
    | inl e ↦
        ground (arith, available-created guilds (first + 1), created-guild_payload guild first)
    | inr e ↦
        ground (arith, available-created guilds (first + 1), created-guild_payload guild first)
  ]

  -- The READY names exactly the guilds for which a GUILD_CREATE follows, in the same order, then those
  -- that the cache holds as unavailable; every other key has the value of the READY that was stored.
  pub get_ready_payload-guilds :
      (ready : JsonObject) (sequence : ℕ) (key : Text)
      → get (get_ready_payload cache ready sequence).0.d key ≡ (
          if text_eq (codes "guilds") key
          then some (
              array (
                values (
                  map guild_id_to_json (
                    filter_map
                      (λ g. created (guild_payload cache g.0 g.1).d)
                      (numbered cache.guilds ((get_ready_payload cache ready sequence).0.s + 1))
                    ++ cache.unavailable_guilds))))
          else get ready key)
  unfolding get_ready_payload ready_guilds
  get_ready_payload-guilds ready sequence key =
      rw
        (
          get-insert ready (codes "guilds") key (array (values (ready_guilds cache))),
          map-append guild_id_to_json
              (filter_map (λ g. created (guild_payload cache g.0 g.1).d)
                (numbered cache.guilds (next_sequence sequence + 1)))
              cache.unavailable_guilds,
          ← available-created cache.guilds (next_sequence sequence + 1),
        )
        refl
