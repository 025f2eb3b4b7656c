-- ===== src/Tests/Measuring.antt =====
-- src/dispatch.rs: the timer for the metrics on concrete times.
use gateway_proxy.Prelude.{ℕ, ◌+◌, ◌*◌, ◌≤◌, refl, List, [], ◌∷◌, length}
use gateway_proxy.Dispatch.{text, error, closed}
use gateway_proxy.Dispatch.Rounds.{Holds}
use gateway_proxy.Dispatch.Statistics.{Stats, active, Turn, Timed, ten_seconds, timed_events}
use gateway_proxy.Dispatch.Statistics.Timer.{Spaced, timed_events-Spaced}
use gateway_proxy.Tests.Dispatching.{env, start, ready_text, message_text}

abbrev stats : ℕ → Stats
stats updates = record {
  emojis = 0;
  guilds = updates;
  members = 0;
  presences = 0;
  channels = 0;
  roles = 0;
  unavailable_guilds = 0;
  users = 1;
  voice_states = 0;
}

abbrev begin : Timed ℕ
begin = record { task = start; last_metrics_update = 5; recorded = [] }

abbrev turns : List Turn
turns =
    record { now = 7; state = active; latencies = []; message = text ready_text }
    ∷ record {
      now = 10000000006;
      state = active;
      latencies = 3 ∷ 4 ∷ [];
      message = text message_text;
    }
    ∷ record { now = 10000000007; state = active; latencies = []; message = error }
    ∷ record { now = 30000000000; state = active; latencies = []; message = closed }
    ∷ []

timed_events-Spaced_example :
    Holds
      (λ t. Spaced 5 t.recorded × (5 + length t.recorded * ten_seconds ≤ t.last_metrics_update))
      (timed_events env stats 3 begin turns)
timed_events-Spaced_example = timed_events-Spaced env stats 3 begin turns refl
