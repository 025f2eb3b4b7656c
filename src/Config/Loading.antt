-- ===== src/Config/Loading.antt =====
-- `load`, `CONFIG` and `watch_config_changes` of src/config.rs.
pub mod Cases
pub mod Reload
use gateway_proxy.Prelude.{
  ℕ, Bool, true, false, not, Option, none, some, List, [], ◌∷◌, ◌++◌, ◌⊎◌, inl, inr, if◌then◌else◌,
}
use gateway_proxy.Text.{Text, codes}
use gateway_proxy.Config.{Cache, default}

-- The fields of `Config` as the JSON library finds them; `none` is a field that is not there.
pub record Fields (Intents Activity Status : Type 0) : Type 0 where
  pub log_level : Option Text
  pub token : Option Text
  pub intents : Option Intents
  pub port : Option ℕ
  pub shards : Option ℕ
  pub shard_start : Option ℕ
  pub shard_end : Option ℕ
  pub activity : Option Activity
  pub status : Option Status
  pub backpressure : Option ℕ
  pub validate_token : Option Bool
  pub twilight_http_proxy : Option Text
  pub externally_accessible_url : Option Text
  pub cache : Option Cache

pub record Config (Intents Activity Status : Type 0) : Type 0 where
  pub log_level : Text
  pub token : Text
  pub intents : Intents
  pub port : ℕ
  pub shards : Option ℕ
  pub shard_start : Option ℕ
  pub shard_end : Option ℕ
  pub activity : Option Activity
  pub status : Status
  pub backpressure : ℕ
  pub validate_token : Bool
  pub twilight_http_proxy : Option Text
  pub externally_accessible_url : Text
  pub cache : Cache

pub data Error (JsonError : Type 0) : Type 0 where
  invalid_config : JsonError → Error JsonError
  not_found : Text → Error JsonError

-- A result, or the exit of the process with what it has printed.
pub data Outcome (E A : Type 0) : Type 0 where
  ok : A → Outcome E A
  err : E → Outcome E A
  exit : Text → Outcome E A

abbrev pub map_err : {E F A : Type 0} → (E → F) → Outcome E A → Outcome F A
map_err f (ok a) = ok a
map_err f (err e) = err (f e)
map_err f (exit message) = exit message

abbrev pub get_or {ℓ} : {A : Type ℓ} → Option A → A → A
get_or none a = a
get_or (some b) a = b

abbrev pub default_log_level : Text
default_log_level = codes "info"

abbrev pub default_port : ℕ
default_port = 7878

abbrev pub default_backpressure : ℕ
default_backpressure = 100

abbrev pub default_validate_token : Bool
default_validate_token = true

abbrev pub no_token : Text
no_token = codes "Config Error: token is not present and TOKEN environment variable is not set"

-- The process's environment, the file system and the libraries.
pub record Env (Intents Activity Status JsonError : Type 0) : Type 0 where
  pub var : Text → Option Text
  pub online : Status
  pub missing_field : Text → JsonError
  pub fields : Text → JsonError ⊎ Fields Intents Activity Status
  pub display : JsonError → Text

-- What the inotify library yields: whether it can be initialised, whether it takes the watch, and the
-- events; `none` is an error, and the others come with what `read_to_string` then yields.
pub record Inotify : Type 0 where
  pub is_initialized : Bool
  pub is_watching : Bool
  pub events : List (Option (Option Text))

-- The versions of the file that are read before the first event that is an error.
abbrev pub until_error : List (Option (Option Text)) → List (Option Text)
until_error [] = []
until_error (none ∷ events) = []
until_error (some content ∷ events) = content ∷ until_error events

module _ {Intents Activity Status JsonError : Type 0}
    (env : Env Intents Activity Status JsonError) where
  unfoldable pub token_fallback : Outcome JsonError Text
  token_fallback = elim (env.var (codes "TOKEN")) [ none ↦ exit no_token | some token ↦ ok token ]

  unfoldable pub token_of : Option Text → Outcome JsonError Text
  token_of none = token_fallback
  token_of (some token) = ok token

  -- The derived `Deserialize`: defaults are taken, and missing fields are found, in the order of the
  -- fields.
  unfoldable pub config_of :
      Fields Intents Activity Status → Outcome JsonError (Config Intents Activity Status)
  config_of f = elim (token_of f.token) [
    | err e ↦ err e
    | exit message ↦ exit message
    | ok token ↦ elim f.intents [
      | none ↦ err (env.missing_field (codes "intents"))
      | some intents ↦ elim f.externally_accessible_url [
        | none ↦ err (env.missing_field (codes "externally_accessible_url"))
        | some url ↦ ok (record {
          log_level = get_or f.log_level default_log_level;
          token = token;
          intents = intents;
          port = get_or f.port default_port;
          shards = f.shards;
          shard_start = f.shard_start;
          shard_end = f.shard_end;
          activity = f.activity;
          status = get_or f.status env.online;
          backpressure = get_or f.backpressure default_backpressure;
          validate_token = get_or f.validate_token default_validate_token;
          twilight_http_proxy = f.twilight_http_proxy;
          externally_accessible_url = url;
          cache = get_or f.cache default;
        })
      ]
    ]
  ]

  -- `from_str` of the JSON library.
  unfoldable pub from_str : Text → Outcome JsonError (Config Intents Activity Status)
  from_str content = elim (env.fields content) [ inl e ↦ err e | inr fields ↦ config_of fields ]

  -- `read` is what `read_to_string(path)` yields.
  unfoldable pub load :
      Text → Option Text → Outcome (Error JsonError) (Config Intents Activity Status)
  load path none = err (not_found path)
  load path (some content) = map_err invalid_config (from_str content)

  abbrev pub config_path : Text
  config_path = get_or (env.var (codes "CONFIG")) (codes "config.json")

  -- `Display` of `Error`.
  unfoldable pub fmt : Error JsonError → Text
  fmt (invalid_config e) = env.display e
  fmt (not_found path) = codes "File " ++ (path ++ codes " not found or access denied")

  -- The static `CONFIG`.
  unfoldable pub read_config :
      (Text → Option Text) → Outcome (Error JsonError) (Config Intents Activity Status)
  read_config read_to_string = elim (load config_path (read_to_string config_path)) [
    | ok config ↦ ok config
    | err e ↦ exit (codes "Config Error: " ++ fmt e)
    | exit message ↦ exit message
  ]

  -- `watch_config_changes`, for the changes of the file: the level filter afterwards. `none` is the end
  -- of the process, as `token_fallback` ends it.
  module _ {LevelFilter : Type 0} (level_from_str : Text → Option LevelFilter)
      (info : LevelFilter) where
    unfoldable pub reload : Option Text → LevelFilter → Option LevelFilter
    reload content filter = elim (load config_path content) [
      | ok config ↦ some (get_or (level_from_str config.log_level) info)
      | err e ↦ some filter
      | exit message ↦ none
    ]

    unfoldable pub watch_config_changes : List (Option Text) → LevelFilter → Option LevelFilter
    watch_config_changes [] filter = some filter
    watch_config_changes (content ∷ contents) filter = elim (reload content filter) [
      | none ↦ none
      | some filter' ↦ watch_config_changes contents filter'
    ]

    -- The whole task; where the file cannot be watched it ends at once.
    unfoldable pub watch : Inotify → LevelFilter → Option LevelFilter
    watch inotify filter =
        if not inotify.is_initialized
        then some filter
        else if not inotify.is_watching
        then some filter
        else watch_config_changes (until_error inotify.events) filter
