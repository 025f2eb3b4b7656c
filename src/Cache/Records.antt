-- ===== src/Cache/Records.antt =====
-- The models of twilight-model and twilight-cache-inmemory that src/cache.rs reads and builds. A field
-- that is only copied is kept as its JSON value, an ID as its number.
use gateway_proxy.Prelude.{ℕ, Bool, Option, List}
use gateway_proxy.Text.{Text}
use gateway_proxy.Model.{Value}

pub record Channel : Type 0 where
  pub id : ℕ
  pub is_thread : Bool
  pub body : Value

-- `CachedPresence`.
pub record CachedPresence : Type 0 where
  pub activities : List Value
  pub client_status : Value
  pub guild_id : ℕ
  pub status : Value
  pub user_id : ℕ

-- `Presence`; `user` is `UserOrId::UserId`.
pub record Presence : Type 0 where
  pub activities : List Value
  pub client_status : Value
  pub guild_id : ℕ
  pub status : Value
  pub user : ℕ

pub record CachedEmoji : Type 0 where
  pub animated : Bool
  pub available : Bool
  pub id : ℕ
  pub managed : Bool
  pub name : Text
  pub require_colons : Bool
  pub roles : List ℕ
  pub user_id : Option ℕ

pub record Emoji : Type 0 where
  pub animated : Bool
  pub available : Bool
  pub id : ℕ
  pub managed : Bool
  pub name : Text
  pub require_colons : Bool
  pub roles : List ℕ
  pub user : Option Value

pub record CachedMember : Type 0 where
  pub avatar : Option Value
  pub communication_disabled_until : Option Value
  pub deaf : Option Bool
  pub flags : Value
  pub joined_at : Option Value
  pub mute : Option Bool
  pub nick : Option Text
  pub pending : Bool
  pub premium_since : Option Value
  pub roles : List ℕ
  pub user_id : ℕ

pub record Member : Type 0 where
  pub avatar : Option Value
  pub communication_disabled_until : Option Value
  pub deaf : Bool
  pub flags : Value
  pub joined_at : Option Value
  pub mute : Bool
  pub nick : Option Text
  pub pending : Bool
  pub premium_since : Option Value
  pub roles : List ℕ
  pub user : Value

pub record CachedSticker : Type 0 where
  pub available : Bool
  pub description : Text
  pub format_type : Value
  pub guild_id : ℕ
  pub id : ℕ
  pub kind : Value
  pub name : Text
  pub pack_id : Option ℕ
  pub sort_value : Option ℕ
  pub tags : Text
  pub user_id : Option ℕ

pub record Sticker : Type 0 where
  pub available : Bool
  pub description : Option Text
  pub format_type : Value
  pub guild_id : Option ℕ
  pub id : ℕ
  pub kind : Value
  pub name : Text
  pub pack_id : Option ℕ
  pub sort_value : Option ℕ
  pub tags : Text
  pub user : Option Value

pub record CachedVoiceState : Type 0 where
  pub channel_id : ℕ
  pub deaf : Bool
  pub guild_id : ℕ
  pub mute : Bool
  pub self_deaf : Bool
  pub self_mute : Bool
  pub self_stream : Bool
  pub self_video : Bool
  pub session_id : Text
  pub suppress : Bool
  pub user_id : ℕ
  pub request_to_speak_timestamp : Option Value

pub record VoiceState : Type 0 where
  pub channel_id : Option ℕ
  pub deaf : Bool
  pub guild_id : Option ℕ
  pub mute : Bool
  pub self_deaf : Bool
  pub self_mute : Bool
  pub self_stream : Bool
  pub self_video : Bool
  pub session_id : Text
  pub suppress : Bool
  pub user_id : ℕ
  pub request_to_speak_timestamp : Option Value
  pub member : Option Member

pub record CachedGuild : Type 0 where
  pub id : ℕ
  pub afk_channel_id : Option ℕ
  pub afk_timeout : Value
  pub application_id : Option ℕ
  pub banner : Option Value
  pub default_message_notifications : Value
  pub description : Option Text
  pub discovery_splash : Option Value
  pub explicit_content_filter : Value
  pub features : List Value
  pub icon : Option Value
  pub joined_at : Option Value
  pub large : Bool
  pub max_members : Option ℕ
  pub max_presences : Option ℕ
  pub max_video_channel_users : Option ℕ
  pub member_count : Option ℕ
  pub mfa_level : Value
  pub name : Text
  pub nsfw_level : Value
  pub owner_id : ℕ
  pub owner : Option Bool
  pub permissions : Option Value
  pub public_updates_channel_id : Option ℕ
  pub preferred_locale : Text
  pub premium_progress_bar_enabled : Bool
  pub premium_subscription_count : Option ℕ
  pub premium_tier : Value
  pub rules_channel_id : Option ℕ
  pub safety_alerts_channel_id : Option ℕ
  pub splash : Option Value
  pub system_channel_flags : Value
  pub system_channel_id : Option ℕ
  pub unavailable : Bool
  pub vanity_url_code : Option Text
  pub verification_level : Value
  pub widget_channel_id : Option ℕ
  pub widget_enabled : Option Bool

pub record Guild : Type 0 where
  pub id : ℕ
  pub afk_channel_id : Option ℕ
  pub afk_timeout : Value
  pub application_id : Option ℕ
  pub banner : Option Value
  pub default_message_notifications : Value
  pub description : Option Text
  pub discovery_splash : Option Value
  pub explicit_content_filter : Value
  pub features : List Value
  pub icon : Option Value
  pub joined_at : Option Value
  pub large : Bool
  pub max_members : Option ℕ
  pub max_presences : Option ℕ
  pub max_video_channel_users : Option ℕ
  pub member_count : Option ℕ
  pub mfa_level : Value
  pub name : Text
  pub nsfw_level : Value
  pub owner_id : ℕ
  pub owner : Option Bool
  pub permissions : Option Value
  pub public_updates_channel_id : Option ℕ
  pub preferred_locale : Text
  pub premium_progress_bar_enabled : Bool
  pub premium_subscription_count : Option ℕ
  pub premium_tier : Value
  pub rules_channel_id : Option ℕ
  pub safety_alerts_channel_id : Option ℕ
  pub splash : Option Value
  pub system_channel_flags : Value
  pub system_channel_id : Option ℕ
  pub unavailable : Bool
  pub vanity_url_code : Option Text
  pub verification_level : Value
  pub widget_channel_id : Option ℕ
  pub widget_enabled : Option Bool
  pub approximate_member_count : Option ℕ
  pub approximate_presence_count : Option ℕ
  pub channels : List Channel
  pub emojis : List Emoji
  pub guild_scheduled_events : List Value
  pub members : List Member
  pub presences : List Presence
  pub roles : List Value
  pub stage_instances : List Value
  pub stickers : List Sticker
  pub threads : List Channel
  pub voice_states : List VoiceState

-- The queries of `InMemoryCache` at one moment.
pub record InMemoryCache : Type 0 where
  pub guilds : List CachedGuild
  pub unavailable_guilds : List ℕ
  pub guild_channels : ℕ → Option (List ℕ)
  pub channel : ℕ → Option Channel
  pub guild_presences : ℕ → Option (List ℕ)
  pub presence : ℕ → ℕ → Option CachedPresence
  pub guild_emojis : ℕ → Option (List ℕ)
  pub emoji : ℕ → Option CachedEmoji
  pub guild_members : ℕ → Option (List ℕ)
  pub cached_member : ℕ → ℕ → Option CachedMember
  pub guild_roles : ℕ → Option (List ℕ)
  pub role : ℕ → Option Value
  pub guild_scheduled_events : ℕ → Option (List ℕ)
  pub scheduled_event : ℕ → Option Value
  pub guild_stage_instances : ℕ → Option (List ℕ)
  pub stage_instance : ℕ → Option Value
  pub guild_stickers : ℕ → Option (List ℕ)
  pub sticker : ℕ → Option CachedSticker
  pub guild_voice_states : ℕ → Option (List ℕ)
  pub voice_state : ℕ → ℕ → Option CachedVoiceState
  pub user : ℕ → Option Value
