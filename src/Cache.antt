-- ===== src/Cache.antt =====
-- src/cache.rs: the payloads that the proxy makes up from the cache of a shard.
pub mod Records
pub mod InGuild
pub mod Payloads
pub mod Contents
pub mod Guilds
use gateway_proxy.Prelude.{
  ℕ, ◌+◌, ◌%◌, ◌^◌, Bool, true, false, not, Option, none, some, List, [], ◌∷◌, ◌++◌, map,
  if◌then◌else◌, ◌>>=◌, filter_map,
}
use mathlib.Core.Option
use gateway_proxy.Text.{Text, codes}
use gateway_proxy.Text.Number.{format}
use gateway_proxy.Model.{Value, bool, string, array, object, values, members, JsonObject, insert}
use Records.{CachedGuild, Guild, InMemoryCache}
use InGuild.{new_guild}

-- `Payload<T>`; the opcode of all that are built here is that of a dispatch.
pub record Payload (T : Type 0) : Type 0 where
  pub d : T
  pub op : ℕ
  pub t : Text
  pub s : ℕ

abbrev pub dispatch_op : ℕ
dispatch_op = 0

-- `*sequence += 1` on a `usize` of 64 bits, without overflow checks.
unfoldable pub next_sequence : ℕ → ℕ
next_sequence sequence = (sequence + 1) % 2 ^ 64

unfoldable pub guild_id_to_json : ℕ → Value
guild_id_to_json id =
    object (members ((codes "id", string (format id)) ∷ (codes "unavailable", bool true) ∷ []))

-- `GuildDelete`.
pub record GuildDelete : Type 0 where
  pub id : ℕ
  pub unavailable : Bool

-- What the payload of a guild holds.
pub data GuildBody : Type 0 where
  guild_delete : GuildDelete → GuildBody
  guild_create : Guild → GuildBody

module _ (cache : InMemoryCache) where
  -- The available guilds, then those of `unavailable_guilds`.
  unfoldable pub ready_guilds : List Value
  ready_guilds =
      filter_map (λ guild. if guild.unavailable then none else some (guild_id_to_json guild.id))
        cache.guilds
      ++ map guild_id_to_json cache.unavailable_guilds

  unfoldable pub get_ready_payload : JsonObject → ℕ → Payload JsonObject × ℕ
  get_ready_payload ready sequence =
      let sequence' = next_sequence sequence in
      (
        record {
          d = insert ready (codes "guilds") (array (values ready_guilds));
          op = dispatch_op;
          t = codes "READY";
          s = sequence';
        },
        sequence',
      )

  unfoldable pub guild_payload : CachedGuild → ℕ → Payload GuildBody
  guild_payload guild sequence =
      if guild.unavailable
      then record {
        d = guild_delete (record { id = guild.id; unavailable = true });
        op = dispatch_op;
        t = codes "GUILD_DELETE";
        s = sequence;
      }
      else record {
        d = guild_create (new_guild cache guild);
        op = dispatch_op;
        t = codes "GUILD_CREATE";
        s = sequence;
      }

-- The payloads of a list of guilds, and the sequence number after them.
module _ (cache : InMemoryCache) (to_string : Payload GuildBody → Text) where
  unfoldable pub guild_payloads : List CachedGuild → ℕ → List Text × ℕ
  guild_payloads [] sequence = ([], sequence)
  guild_payloads (guild ∷ guilds) sequence =
      let sequence' = next_sequence sequence in
      let (payloads, last) = guild_payloads guilds sequence' in
      (to_string (guild_payload cache guild sequence') ∷ payloads, last)

  -- The iterator, run to its end. `to_string` is the JSON library's; its `unwrap` cannot fail on these
  -- types.
  unfoldable pub get_guild_payloads : ℕ → List Text × ℕ
  get_guild_payloads sequence = guild_payloads cache.guilds sequence
