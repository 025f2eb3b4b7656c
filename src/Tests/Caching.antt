-- ===== src/Tests/Caching.antt =====
-- A cache and the payloads that src/cache.rs makes up from it.
use gateway_proxy.Prelude.{
  ℕ, ◌≡◌, true, false, Bool, some, none, [], ◌∷◌, ◌++◌, arith, if◌then◌else◌, All, Occurs,
  filter_map, inl, ◌==◌,
}
use mathlib.Core.List.{Perm}
use gateway_proxy.Text.{Text, codes}
use gateway_proxy.Text.Number.{format}
use gateway_proxy.Model.{null, string}
use gateway_proxy.Cache.Records.{
  Channel, CachedMember, CachedVoiceState, CachedGuild, InMemoryCache,
}
use gateway_proxy.Cache.{Payload, GuildBody}
use gateway_proxy.Cache.InGuild.{collect, channels_in_guild, threads_in_guild}
use gateway_proxy.Cache.Contents.{channels_in_guild-threads_in_guild}

abbrev pub guild : ℕ → Bool → CachedGuild
guild id unavailable = record {
  id = id;
  afk_channel_id = none;
  afk_timeout = null;
  application_id = none;
  banner = none;
  default_message_notifications = null;
  description = none;
  discovery_splash = none;
  explicit_content_filter = null;
  features = [];
  icon = none;
  joined_at = none;
  large = false;
  max_members = none;
  max_presences = none;
  max_video_channel_users = none;
  member_count = none;
  mfa_level = null;
  name = [];
  nsfw_level = null;
  owner_id = 0;
  owner = none;
  permissions = none;
  public_updates_channel_id = none;
  preferred_locale = [];
  premium_progress_bar_enabled = false;
  premium_subscription_count = none;
  premium_tier = null;
  rules_channel_id = none;
  safety_alerts_channel_id = none;
  splash = none;
  system_channel_flags = null;
  system_channel_id = none;
  unavailable = unavailable;
  vanity_url_code = none;
  verification_level = null;
  widget_channel_id = none;
  widget_enabled = none;
}

abbrev channel : ℕ → Bool → Channel
channel id is_thread = record { id = id; is_thread = is_thread; body = null }

abbrev cached_member : CachedMember
cached_member = record {
  avatar = none;
  communication_disabled_until = none;
  deaf = some true;
  flags = null;
  joined_at = none;
  mute = none;
  nick = none;
  pending = false;
  premium_since = none;
  roles = [];
  user_id = 5;
}

abbrev voice_state : CachedVoiceState
voice_state = record {
  channel_id = 1;
  deaf = false;
  guild_id = 7;
  mute = false;
  self_deaf = false;
  self_mute = false;
  self_stream = false;
  self_video = false;
  session_id = [];
  suppress = false;
  user_id = 5;
  request_to_speak_timestamp = none;
}

-- Guild 7 with two channels, of which one is a thread, and a member in a voice channel; guild 8 is
-- unavailable.
abbrev pub cache : InMemoryCache
cache = record {
  guilds = guild 7 false ∷ guild 8 true ∷ [];
  unavailable_guilds = 8 ∷ [];
  guild_channels = λ id. if id == 7 then some (1 ∷ 2 ∷ 3 ∷ []) else none;
  channel = λ id.
      if id == 1 then some (channel 1 false) else if id == 2 then some (channel 2 true) else none;
  guild_presences = λ id. none;
  presence = λ guild_id user_id. none;
  guild_emojis = λ id. none;
  emoji = λ id. none;
  guild_members = λ id. if id == 7 then some (5 ∷ []) else none;
  cached_member = λ guild_id user_id. if user_id == 5 then some cached_member else none;
  guild_roles = λ id. none;
  role = λ id. none;
  guild_scheduled_events = λ id. none;
  scheduled_event = λ id. none;
  guild_stage_instances = λ id. none;
  stage_instance = λ id. none;
  guild_stickers = λ id. none;
  sticker = λ id. none;
  guild_voice_states = λ id. if id == 7 then some (5 ∷ []) else none;
  voice_state = λ user_id guild_id. if user_id == 5 then some voice_state else none;
  user = λ id. some (string (codes "user"));
}

abbrev pub to_string : Payload GuildBody → Text
to_string payload = payload.t ++ format payload.s

channels_in_guild-threads_in_guild_example :
    Perm
      (channels_in_guild cache 7 ++ threads_in_guild cache 7)
      (channel 1 false ∷ channel 2 true ∷ [])
    × All (λ c. c.is_thread ≡ false) (channels_in_guild cache 7)
    × All (λ c. c.is_thread ≡ true) (threads_in_guild cache 7)
unfolding collect filter_map
channels_in_guild-threads_in_guild_example = channels_in_guild-threads_in_guild cache 7

members_listed :
    (user_id : ℕ) (m : CachedMember)
    → (if user_id == 5 then some cached_member else none) ≡ some m
    → Occurs user_id (5 ∷ [])
members_listed user_id m known = inl (ground arith)
