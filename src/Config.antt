-- ===== src/Config.antt =====
-- src/config.rs: what the cache options ask of Twilight, and how the configuration is loaded.
pub mod Loading
use gateway_proxy.Prelude.{
  ℕ, Bool, true, false, Option, none, some, List, [], ◌∷◌, ◌&&◌, ◌||◌, ◌==◌, if◌then◌else◌,
}
use gateway_proxy.Text.{Text, codes}

pub record Cache : Type 0 where
  pub channels : Bool
  pub presences : Bool
  pub emojis : Bool
  pub current_member : Bool
  pub members : Bool
  pub roles : Bool
  pub scheduled_events : Bool
  pub stage_instances : Bool
  pub stickers : Bool
  pub users : Bool
  pub voice_states : Bool

-- `Cache::default`.
unfoldable pub default : Cache
default = record {
  channels = true;
  presences = false;
  current_member = true;
  emojis = false;
  members = false;
  roles = true;
  scheduled_events = false;
  stage_instances = false;
  stickers = false;
  users = false;
  voice_states = false;
}

-- The flags of Twilight's `EventTypeFlags` that are named here, and that for the updates of stickers.
pub data EventTypeFlag : Type 0 where
  guild_create guild_delete guild_update ready gateway_invalidate_session : EventTypeFlag
  member_add member_remove member_update : EventTypeFlag
  role_create role_delete role_update : EventTypeFlag
  channel_create channel_delete channel_update : EventTypeFlag
  thread_create thread_delete thread_list_sync thread_update : EventTypeFlag
  presence_update guild_emojis_update guild_scheduled_events : EventTypeFlag
  stage_instance_create stage_instance_delete stage_instance_update : EventTypeFlag
  voice_state_update voice_server_update user_update guild_stickers_update : EventTypeFlag

-- The flags of `ResourceType`.
pub data ResourceFlag : Type 0 where
  guild user_current channel emoji member_current member presence role : ResourceFlag
  guild_scheduled_event stage_instance sticker user voice_state : ResourceFlag

abbrev pub event_bit : EventTypeFlag → ℕ
event_bit guild_create = 0
event_bit guild_delete = 1
event_bit guild_update = 2
event_bit ready = 3
event_bit gateway_invalidate_session = 4
event_bit member_add = 5
event_bit member_remove = 6
event_bit member_update = 7
event_bit role_create = 8
event_bit role_delete = 9
event_bit role_update = 10
event_bit channel_create = 11
event_bit channel_delete = 12
event_bit channel_update = 13
event_bit thread_create = 14
event_bit thread_delete = 15
event_bit thread_list_sync = 16
event_bit thread_update = 17
event_bit presence_update = 18
event_bit guild_emojis_update = 19
event_bit guild_scheduled_events = 20
event_bit stage_instance_create = 21
event_bit stage_instance_delete = 22
event_bit stage_instance_update = 23
event_bit voice_state_update = 24
event_bit voice_server_update = 25
event_bit user_update = 26
event_bit guild_stickers_update = 27

abbrev pub resource_bit : ResourceFlag → ℕ
resource_bit guild = 0
resource_bit user_current = 1
resource_bit channel = 2
resource_bit emoji = 3
resource_bit member_current = 4
resource_bit member = 5
resource_bit presence = 6
resource_bit role = 7
resource_bit guild_scheduled_event = 8
resource_bit stage_instance = 9
resource_bit sticker = 10
resource_bit user = 11
resource_bit voice_state = 12

module _ {F : Type 0} (bit : F → ℕ) where
  -- A set of flags, by its members: `A | B | …`.
  abbrev pub flags_of : List F → F → Bool
  flags_of [] f = false
  flags_of (g ∷ gs) f = (bit g == bit f) || flags_of gs f

  -- `if test { flags |= more; }`.
  abbrev pub add_if : Bool → List F → (F → Bool) → F → Bool
  add_if test more flags f = (flags_of more f && test) || flags f

-- `EventTypeFlags::from(Cache)`.
unfoldable pub event_type_flags : Cache → EventTypeFlag → Bool
event_type_flags cache =
    let flags =
      flags_of event_bit
        (guild_create ∷ guild_delete ∷ guild_update ∷ ready ∷ gateway_invalidate_session ∷ []) in
    let flags =
      add_if event_bit (cache.members || cache.current_member)
        (member_add ∷ member_remove ∷ member_update ∷ []) flags in
    let flags = add_if event_bit cache.roles (role_create ∷ role_delete ∷ role_update ∷ []) flags in
    let flags =
      add_if event_bit cache.channels
        (channel_create ∷ channel_delete ∷ channel_update ∷ thread_create ∷ thread_delete
          ∷ thread_list_sync ∷ thread_update ∷ [])
        flags in
    let flags = add_if event_bit cache.presences (presence_update ∷ []) flags in
    let flags = add_if event_bit cache.emojis (guild_emojis_update ∷ []) flags in
    let flags = add_if event_bit cache.scheduled_events (guild_scheduled_events ∷ []) flags in
    let flags =
      add_if event_bit cache.stage_instances
        (stage_instance_create ∷ stage_instance_delete ∷ stage_instance_update ∷ []) flags in
    let flags =
      add_if event_bit cache.voice_states (voice_state_update ∷ voice_server_update ∷ []) flags in
    add_if event_bit cache.users (user_update ∷ []) flags

-- `ResourceType::from(Cache)`.
unfoldable pub resource_types : Cache → ResourceFlag → Bool
resource_types cache =
    let types = flags_of resource_bit (guild ∷ user_current ∷ []) in
    let types = add_if resource_bit cache.channels (channel ∷ []) types in
    let types = add_if resource_bit cache.emojis (emoji ∷ []) types in
    let types = add_if resource_bit cache.current_member (member_current ∷ []) types in
    let types = add_if resource_bit cache.members (member ∷ []) types in
    let types = add_if resource_bit cache.presences (presence ∷ []) types in
    let types = add_if resource_bit cache.roles (role ∷ []) types in
    let types = add_if resource_bit cache.scheduled_events (guild_scheduled_event ∷ []) types in
    let types = add_if resource_bit cache.stage_instances (stage_instance ∷ []) types in
    let types = add_if resource_bit cache.stickers (sticker ∷ []) types in
    let types = add_if resource_bit cache.users (user ∷ []) types in
    add_if resource_bit cache.voice_states (voice_state ∷ []) types
