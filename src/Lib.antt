-- ===== src/Lib.antt =====
-- gateway-proxy: a proxy between Discord's gateway and its clients.
--
-- The proxy keeps one connection to Discord for each shard and lets any number of clients connect to
-- it as if it were the gateway. A client sends IDENTIFY or RESUME; from then on it gets the events of
-- its shard, with sequence numbers of its own, and its commands go to the shard.
--
-- Text (Rust's `str`): texts are lists of Unicode scalar values, and every index is a byte offset
--   of their UTF-8 form, as in the source. Text.Number has `FromStr` and `itoa`, Text.Words
--   `split_whitespace().last()`, Text.Bytes the bytes of a text.
-- Deserializer (src/deserializer.rs): `find_integer`, `find_event_type`, `from_json` as in the
--   source. Integer and EventType describe what they find, Rewrite the replacement of the sequence
--   number, Blanks a blank before a number.
-- Model (src/model.rs): payload types, JSON values, objects as lists of entries.
-- State (src/state.rs): `Inner`, `Shard`, `Session`. An `Arc` of a shard is its index in `shards`.
--   What was sent through a `MessageSender` or a broadcast channel is kept as a list. Readiness is
--   `Ready`; Waiting splits `wait_until_ready` into the steps between which another task may
--   write, with the notifications as a counter.
-- Server.Client (`handle_client` of src/server.rs): one function for each opcode, and the loop
--   over what the websocket yields. `Outcome` says whether the loop goes on, ends, panics (an
--   index out of range) or has undefined behaviour (`unwrap_unchecked` on a message that is no
--   text). Before each message the other tasks may change the shared state, by a function that is
--   part of the input. The JSON library is the two functions of `Env`, the random generator the
--   samples of each arrival.
-- Dispatch (`events` of src/dispatch.rs): one round for each message of the shard, in the two
--   halves of the source, what the proxy reads itself and what Twilight makes of it. Rounds says
--   when a property is kept, Relay is about what is broadcast, Texts makes it a fold over the
--   texts, Live compares what is broadcast with a specification, Started reads that off the
--   payloads, Session is about the READY state, Panics about the only panic, Ending about the end
--   of the loop, Caching about the cache of the shard. Statistics has `update_shard_statistics`
--   and the loop with its timer.
-- Cache (src/cache.rs): the payloads that are made up from a snapshot of Twilight's cache. InGuild
--   has the `*_in_guild` functions, Payloads is about numbers and guilds, Contents about the lists
--   in a guild, Guilds hands on to the library.
-- Server.Forward (`forward_shard` of src/server.rs): what is sent before the events, and the loop
--   over the events; the number is a `usize` of 64 bits that wraps around, as in a release build.
--   Numbering and Shard are about what a client is sent, Continue about a run that goes on, Ready
--   about the READY, Resuming about a RESUME with its session ID.
-- Server.Sink (`sink_from_queue` and `compress_full` of src/server.rs): what a client is sent. The
--   loops of `compress_full` are on fuel. Deflate has what zlib documents, Reading the loop that
--   reads the input, Compressing the loop that flushes, which never ends on an empty input, Frames
--   what is sent and what it inflates to. Enough fuel is a theorem.
-- System (`forward_shard` of src/server.rs beside `events`): the same task step by step, so that
--   the task of the shard may take its rounds between any two steps. The broadcast channel retains
--   `capacity` messages; a receiver that is further behind skips what is not retained. Waiting is
--   the task of `State.Waiting`; the guilds are read in one step. `Reachable` is every
--   interleaving. Refinement leads the steps back to `Server.Forward`, Replays and Positions say
--   which messages are received, Progress is about a client that keeps up, Joining and Service
--   about the steps that it needs, Safety about panics, Sharing says that a client leaves the
--   shard as it is, Data is about the READY data that it reads, Delivery about the client's queue.
-- Connection (`handle_client` of src/server.rs with all that it spawns): a whole connection, event
--   by event: a message of the client, a step of `forward_shard`, a round of `events`, commands
--   that the sender of the shard gets, a send of the sink. Both writers put their texts into one
--   queue, of which `taken` were sent. Messages says what one message does, Steps when a property
--   is kept, Logs, Merging and Soundness what the queue holds, Queue compares it with
--   `forward_shard`, Feeding and Delivery lead what System says of a client up to the connection,
--   Staying is about connections that are open, Heartbeats counts the ACKs, Unmoved and Unheard
--   are about a client that is not answered. An abort takes effect at once.
-- Proxy (src/main.rs, src/dispatch.rs and src/server.rs together): any number of clients, each
--   with its `forward_shard`, and the tasks of all shards, over the one state that `main` creates.
--   A shard stands in that state only, where all of them read and write it. `Reaches` has every
--   run in which nothing panics or is undefined; a message, a round of `events` and a step of
--   `forward_shard` are each taken at once. Views says when a connection shows a client of the
--   proxy, Senders what a client does to the shards, Rounds, Spawning, Told and Forwards that each
--   step of the proxy is one or two events of the connection, Soundness that every client is so
--   shown, Begun is about the shards at first, Clients brings it all to the client, Crashes to the
--   panics of `forward_shard`. Ids, Sessions, Safety and Messages are about the panics of
--   `handle_client`. The sinks are in Connection only.
-- Server.Listening (`run` of src/server.rs): which connections are accepted and served.
-- Upgrade (src/upgrade.rs, `handler` of src/server.rs): the answers to HTTP requests.
-- Launch (src/main.rs): the shards that `run` creates, and its shutdown. Running has `run` as a
--   list of what the process does, and `main`; Making is about the loop that creates the shards,
--   Ends about how it ends, Panics about its panics.
-- Config (src/config.rs): sets of flags as functions to Bool. Loading has `load`, `CONFIG` and
--   `watch_config_changes`; the exit of the process is a value.
--
-- Numbers are natural numbers; the widths of `u8` and `u64` are enforced where the source parses them.
-- `format_digits` takes one more than its number as fuel, and the number falls at each step.
-- Not modelled: sockets, TLS, logging and the export of metrics, and the libraries for JSON, HTTP,
-- compression and Discord's protocol; the setup of logging in
-- `run` of src/main.rs and the example client (examples/twilight), which only call libraries.
mod Prelude
pub mod Text
pub mod Deserializer
pub mod Model
pub mod State
pub mod Cache
pub mod Server
pub mod Dispatch
pub mod Launch
pub mod System
pub mod Connection
pub mod Proxy
pub mod Config
pub mod Upgrade
mod Tests
