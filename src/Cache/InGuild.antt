-- ===== src/Cache/InGuild.antt =====
-- src/cache.rs: what the cache of a shard holds of a guild, and the guild that is made of it.
use gateway_proxy.Prelude.{
  ℕ, Bool, false, Option, none, some, List, [], if◌then◌else◌, ◌>>=◌, filter_map,
}
use gateway_proxy.Model.{Value}
use gateway_proxy.Cache.Records.{
  Channel, Presence, Emoji, Member, Sticker, VoiceState, CachedGuild, Guild, InMemoryCache,
}

-- `ids.map(|reference| reference.iter().filter_map(f).collect()).unwrap_or_default()`.
unfoldable pub collect : {B : Type 0} → Option (List ℕ) → (ℕ → Option B) → List B
collect none f = []
collect (some ids) f = filter_map f ids

abbrev pub unwrap_or_default : Option Bool → Bool
unwrap_or_default none = false
unwrap_or_default (some b) = b

module _ (cache : InMemoryCache) where
  unfoldable pub channels_in_guild : ℕ → List Channel
  channels_in_guild guild_id = collect (cache.guild_channels guild_id) λ channel_id. do
    channel ← cache.channel channel_id
    if channel.is_thread then none else some channel

  unfoldable pub presences_in_guild : ℕ → List Presence
  presences_in_guild guild_id = collect (cache.guild_presences guild_id) λ user_id. do
    presence ← cache.presence guild_id user_id
    some (record {
      activities = presence.activities;
      client_status = presence.client_status;
      guild_id = presence.guild_id;
      status = presence.status;
      user = presence.user_id;
    })

  unfoldable pub emojis_in_guild : ℕ → List Emoji
  emojis_in_guild guild_id = collect (cache.guild_emojis guild_id) λ emoji_id. do
    emoji ← cache.emoji emoji_id
    some (record {
      animated = emoji.animated;
      available = emoji.available;
      id = emoji.id;
      managed = emoji.managed;
      name = emoji.name;
      require_colons = emoji.require_colons;
      roles = emoji.roles;
      user = emoji.user_id >>= cache.user;
    })

  unfoldable pub member : ℕ → ℕ → Option Member
  member guild_id user_id = do
    member ← cache.cached_member guild_id user_id
    user ← cache.user member.user_id
    some (record {
      avatar = member.avatar;
      communication_disabled_until = member.communication_disabled_until;
      deaf = unwrap_or_default member.deaf;
      flags = member.flags;
      joined_at = member.joined_at;
      mute = unwrap_or_default member.mute;
      nick = member.nick;
      pending = member.pending;
      premium_since = member.premium_since;
      roles = member.roles;
      user = user;
    })

  unfoldable pub members_in_guild : ℕ → List Member
  members_in_guild guild_id = collect (cache.guild_members guild_id) (member guild_id)

  unfoldable pub roles_in_guild : ℕ → List Value
  roles_in_guild guild_id = collect (cache.guild_roles guild_id) cache.role

  unfoldable pub scheduled_events_in_guild : ℕ → List Value
  scheduled_events_in_guild guild_id =
      collect (cache.guild_scheduled_events guild_id) cache.scheduled_event

  unfoldable pub stage_instances_in_guild : ℕ → List Value
  stage_instances_in_guild guild_id =
      collect (cache.guild_stage_instances guild_id) cache.stage_instance

  unfoldable pub stickers_in_guild : ℕ → List Sticker
  stickers_in_guild guild_id = collect (cache.guild_stickers guild_id) λ sticker_id. do
    sticker ← cache.sticker sticker_id
    some (record {
      available = sticker.available;
      description = some sticker.description;
      format_type = sticker.format_type;
      guild_id = some sticker.guild_id;
      id = sticker.id;
      kind = sticker.kind;
      name = sticker.name;
      pack_id = sticker.pack_id;
      sort_value = sticker.sort_value;
      tags = sticker.tags;
      user = sticker.user_id >>= cache.user;
    })

  unfoldable pub voice_states_in_guild : ℕ → List VoiceState
  voice_states_in_guild guild_id = collect (cache.guild_voice_states guild_id) λ user_id. do
    voice_state ← cache.voice_state user_id guild_id
    some (record {
      channel_id = some voice_state.channel_id;
      deaf = voice_state.deaf;
      guild_id = some voice_state.guild_id;
      member = member guild_id user_id;
      mute = voice_state.mute;
      self_deaf = voice_state.self_deaf;
      self_mute = voice_state.self_mute;
      self_stream = voice_state.self_stream;
      self_video = voice_state.self_video;
      session_id = voice_state.session_id;
      suppress = voice_state.suppress;
      user_id = voice_state.user_id;
      request_to_speak_timestamp = voice_state.request_to_speak_timestamp;
    })

  unfoldable pub threads_in_guild : ℕ → List Channel
  threads_in_guild guild_id = collect (cache.guild_channels guild_id) λ channel_id. do
    channel ← cache.channel channel_id
    if channel.is_thread then some channel else none

  unfoldable pub new_guild : CachedGuild → Guild
  new_guild guild = record {
    id = guild.id;
    afk_channel_id = guild.afk_channel_id;
    afk_timeout = guild.afk_timeout;
    application_id = guild.application_id;
    banner = guild.banner;
    default_message_notifications = guild.default_message_notifications;
    description = guild.description;
    discovery_splash = guild.discovery_splash;
    explicit_content_filter = guild.explicit_content_filter;
    features = guild.features;
    icon = guild.icon;
    joined_at = guild.joined_at;
    large = guild.large;
    max_members = guild.max_members;
    max_presences = guild.max_presences;
    max_video_channel_users = guild.max_video_channel_users;
    member_count = guild.member_count;
    mfa_level = guild.mfa_level;
    name = guild.name;
    nsfw_level = guild.nsfw_level;
    owner_id = guild.owner_id;
    owner = guild.owner;
    permissions = guild.permissions;
    public_updates_channel_id = guild.public_updates_channel_id;
    preferred_locale = guild.preferred_locale;
    premium_progress_bar_enabled = guild.premium_progress_bar_enabled;
    premium_subscription_count = guild.premium_subscription_count;
    premium_tier = guild.premium_tier;
    rules_channel_id = guild.rules_channel_id;
    safety_alerts_channel_id = guild.safety_alerts_channel_id;
    splash = guild.splash;
    system_channel_flags = guild.system_channel_flags;
    system_channel_id = guild.system_channel_id;
    unavailable = false;
    vanity_url_code = guild.vanity_url_code;
    verification_level = guild.verification_level;
    widget_channel_id = guild.widget_channel_id;
    widget_enabled = guild.widget_enabled;
    approximate_member_count = none;
    approximate_presence_count = none;
    channels = channels_in_guild guild.id;
    emojis = emojis_in_guild guild.id;
    guild_scheduled_events = scheduled_events_in_guild guild.id;
    members = members_in_guild guild.id;
    presences = presences_in_guild guild.id;
    roles = roles_in_guild guild.id;
    stage_instances = stage_instances_in_guild guild.id;
    stickers = stickers_in_guild guild.id;
    threads = threads_in_guild guild.id;
    voice_states = voice_states_in_guild guild.id;
  }
