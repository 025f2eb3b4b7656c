-- ===== src/Tests/Starting.antt =====
-- src/main.rs and src/config.rs on concrete configurations.
use gateway_proxy.Prelude.{
  ℕ, ltb, zero, suc, ◌≡◌, ◌≢◌, refl, true, Option, some, none, [], ◌∷◌, inl, inr, arith,
  if◌then◌else◌, get_elem?,
}
use gateway_proxy.Text.{Text, codes, starts_with}
use gateway_proxy.Text.Number.{format}
use gateway_proxy.Text.Words.{text_eq, last_word}
use gateway_proxy.State.{Shard}
use gateway_proxy.Server.Client.{connected, handle_identify, panic, refuses}
use gateway_proxy.Server.Client.Cases.{Accepted}
use gateway_proxy.Launch.{
  Config, Joined, shut_down, elapsed, activity_name, replace_at, create_state, join_all, shutdown,
}
use gateway_proxy.Launch.Shards.{create_state-handle_identify}
use gateway_proxy.Launch.Running as Running
use gateway_proxy.Launch.Running.{Gateway, Env}
use gateway_proxy.Config.Loading as Loading
use gateway_proxy.Config.Loading.Cases.{IsComplete, LacksToken}
use gateway_proxy.Config.Loading.Reload.{watch-eq-none_iff}
use gateway_proxy.Tests.Clients as Clients

abbrev config : Config
config = record {
  shards = some 2;
  shard_start = none;
  shard_end = none;
  activity = some (codes "Shard {{shard}}!");
}

activity_name-shard : activity_name config 12 ≡ some (codes "Shard 12!")
unfolding activity_name replace_at starts_with format
activity_name-shard = refl

accepted : Accepted Clients.env (create_state tt config 9) Clients.identify_text Clients.identify
unfolding text_eq refuses last_word create_state
accepted = record { parsed = refl; count_matches = refl; in_range = omega arith; allowed = refl }

create_state-handle_identify_example :
    (shard : Shard (Unit {0})) × (get_elem? (create_state tt config 9).shards 1 ≡ some shard)
    × (shard.id ≡ 1)
    × (handle_identify Clients.env Clients.samples
          (create_state tt config 9, connected)
          Clients.identify_text
        ≢ panic)
create_state-handle_identify_example =
    create_state-handle_identify tt config 9 Clients.env Clients.samples (create_state tt config 9)
      connected Clients.identify_text Clients.identify refl (omega arith) refl refl accepted

-- Of three tasks, two end in time.
abbrev joined : ℕ → Joined
joined zero = shut_down
joined (suc zero) = shut_down
joined (suc (suc i)) = elapsed

shutdown-counts : shutdown 3 joined ≡ (2, 1)
unfolding shutdown join_all
shutdown-counts = refl

abbrev gateway : Gateway
gateway = record {
  shards = 9;
  session_start_limit = record {
    max_concurrency = 1;
    remaining = 1000;
    reset_after = 0;
    total = 1000;
  };
}

-- A channel needs a place for at least one message.
abbrev running : Env ℕ Text
running = record {
  level_from_str = λ name. none;
  info = 3;
  gateway = λ client. inr gateway;
  allocates = λ capacity. ltb capacity 1000;
  shard_id = λ id shards. ltb id shards;
  channel = λ capacity. ltb 0 capacity;
  joined = joined;
  display = λ e. e;
}

abbrev run_config : ℕ → Running.Config
run_config backpressure = record {
  sharding = config;
  log_level = codes "info";
  token = codes "abc";
  twilight_http_proxy = none;
  backpressure = backpressure;
}

-- Discord has two shards for the bot, and the configuration asks for a third.
abbrev beyond : Running.Config
beyond = record (run_config 100) { sharding = record config { shard_end = some 3 } }

abbrev fields : Loading.Fields ℕ (Unit {0}) ℕ
fields = record {
  log_level = some (codes "debug");
  token = some (codes "abc");
  intents = some 32511;
  port = none;
  shards = none;
  shard_start = none;
  shard_end = none;
  activity = none;
  status = none;
  backpressure = none;
  validate_token = none;
  twilight_http_proxy = none;
  externally_accessible_url = some (codes "ws://localhost:7878");
  cache = none;
}

abbrev complete_text : Text
complete_text = codes "complete"

abbrev no_token_text : Text
no_token_text = codes "no token"

-- The JSON library reads two files; no variable is set.
abbrev loading : Loading.Env ℕ (Unit {0}) ℕ Text
loading = record {
  var = λ name. none;
  online = 0;
  missing_field = λ name. name;
  fields = λ text.
      if text_eq text complete_text
      then inr fields
      else if text_eq text no_token_text
      then inr (record fields { token = none })
      else inl (codes "invalid");
  display = λ e. e;
}

complete_text-IsComplete : IsComplete loading complete_text
unfolding text_eq
complete_text-IsComplete = record {
  fields = fields;
  read = refl;
  has_token = inl (λ e. absurd cc);
  has_intents = λ e. absurd cc;
  has_url = λ e. absurd cc;
}

abbrev level_from_str : Text → Option ℕ
level_from_str name = if text_eq name (codes "debug") then some 4 else none

lacks : LacksToken loading (some no_token_text)
unfolding text_eq
lacks = record {
  text = no_token_text;
  fields = record fields { token = none };
  content_is = refl;
  read = refl;
  no_field = refl;
  no_variable = refl;
}

abbrev inotify : Loading.Inotify
inotify = record {
  is_initialized = true;
  is_watching = true;
  events = some (some complete_text) ∷ some (some no_token_text) ∷ none ∷ [];
}

watch-eq-none_iff_example : Loading.watch loading level_from_str 3 inotify 2 ≡ none
watch-eq-none_iff_example =
    (watch-eq-none_iff loading level_from_str 3 inotify 2).1
      (refl, refl, some no_token_text, inr (inl refl), lacks)
