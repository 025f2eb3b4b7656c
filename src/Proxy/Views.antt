-- ===== src/Proxy/Views.antt =====
-- What one client of the proxy sees: the events of a connection.
use gateway_proxy.Prelude.{
  ℕ, ◌≡◌, refl, sym, ap, ◌∙◌, subst, true, Option, none, some, List, [], ◌∷◌, ◌++◌, if◌then◌else◌,
  get_elem?, All,
}
use gateway_proxy.Cache.Records.{InMemoryCache}
use gateway_proxy.State.{Inner, Shard}
use gateway_proxy.Dispatch as Dispatch
use gateway_proxy.Dispatch.{Incoming, Task, next, return, round}
use gateway_proxy.Server.Client as Client
use gateway_proxy.Server.Client.{ForwardTask, World, Message, Arrival, handle_message}
use gateway_proxy.Server.Forward.{Env}
use gateway_proxy.System.{with_sender}
use gateway_proxy.Connection.{
  Connection, Forwarding, Event, clients_command, opened, command_step, open_step, take_step,
  take_steps,
}
use gateway_proxy.Connection.Steps.{Admits}
use gateway_proxy.Connection.Queue.{connect}
use gateway_proxy.Connection.Feeding.{Feeds}
use gateway_proxy.Connection.Unmoved.{take_steps-append}
use gateway_proxy.Proxy.{Forwarder, Seat, Proxy, system_of}
use gateway_proxy.Proxy.Senders.{OnlySenders, get_elem?-OnlySenders}

-- The `forward_shard` of a connection is that of the client, beside the task of its shard.
abbrev pub View : Proxy → Option (ForwardTask × Forwarder) → Option Forwarding → Type 0
View p none g = g ≡ none
View p (some (task, f)) g =
    (shard : Shard InMemoryCache) × (get_elem? p.state.shards task.shard ≡ some shard)
    × (g ≡ some (task, system_of (p.locals task.shard) shard f))

pub record Shows (p : Proxy) (seat : Seat) (x : Connection) : Type 0 where
  pub client : x.world.1 ≡ seat.client
  pub queue : x.queue ≡ seat.queue
  pub is_open : x.is_open ≡ true
  pub forwarding : View p seat.forwarder x.forwarding

module _ {Event' : Type 0} (client_env : Client.Env) (env : Env)
    (dispatch_env : Dispatch.Env InMemoryCache Event') (capacity : ℕ) where
  abbrev pub Fine : Event → Type 0
  Fine = Admits (Feeds client_env env dispatch_env capacity)

  -- A connection shows a client of the proxy, and has come there by events that feed its shards.
  abbrev pub Seen : Inner InMemoryCache → Proxy → Seat → Type 0
  Seen begin p seat =
      (es : List Event) × All Fine es
      × Shows p seat (connect client_env env dispatch_env capacity begin es)

  -- The connection shows the client after some more events.
  abbrev pub Comes : Proxy → Seat → Connection → Type 0
  Comes p seat x =
      (more : List Event) × All Fine more
      × Shows p seat (take_steps client_env env dispatch_env capacity x more)

  -- Whatever connection shows a client shows, after some events, the client that it has become.
  abbrev pub Goes : Proxy → Seat → Proxy → Seat → Type 0
  Goes p seat p' seat' = (x : Connection) → Shows p seat x → Comes p' seat' x

  All-append : (es es' : List Event) → All Fine es → All Fine es' → All Fine (es ++ es')
  All-append [] es' h h' = h'
  All-append (e ∷ es) es' h h' = (h.0, All-append es es' h.1 h')

  pub Goes-Seen :
      (begin : Inner InMemoryCache) (p p' : Proxy) (seat seat' : Seat)
      → Goes p seat p' seat'
      → Seen begin p seat
      → Seen begin p' seat'
  Goes-Seen begin p p' seat seat' goes (es, fine, shows) =
      let (more, fine', shows') =
        goes (connect client_env env dispatch_env capacity begin es) shows in
      (
        es ++ more,
        All-append es more fine fine',
        subst (Shows p' seat')
            (sym (take_steps-append client_env env dispatch_env capacity (opened begin) es more))
            shows',
      )

  opened_step :
      (x : Connection) (e : Event)
      → x.is_open ≡ true
      → take_step client_env env dispatch_env capacity x e
        ≡ open_step client_env env dispatch_env capacity x e
  unfolding take_step
  opened_step x e is_open =
      ap (λ b. if b then open_step client_env env dispatch_env capacity x e else x) is_open

  pub by_event :
      (p : Proxy) (seat : Seat) (x : Connection) (e : Event)
      → x.is_open ≡ true
      → Fine e
      → Comes p seat (open_step client_env env dispatch_env capacity x e)
      → Comes p seat x
  unfolding take_steps
  by_event p seat x e is_open fine (more, fine', shows) = (
    e ∷ more,
    (fine, fine'),
    subst (λ y. Shows p seat (take_steps client_env env dispatch_env capacity y more))
        (sym (opened_step x e is_open)) shows,
  )

  -- The messages of other clients, and what they hand to the sender of the shard.
  module _ (p p' : Proxy) (same : p'.locals ≡ p.locals)
      (only : OnlySenders p.state.shards p'.state.shards) where
    pub senders-Goes : (seat : Seat) → Goes p seat p' seat
    unfolding take_steps open_step command_step
    senders-Goes seat x shows = go seat.forwarder x.forwarding refl refl shows.forwarding
      where
        go :
            (f : Option (ForwardTask × Forwarder)) (g : Option Forwarding)
            → seat.forwarder ≡ f
            → x.forwarding ≡ g
            → View p f g
            → Comes p' seat x
        go none g e e' view = (
          [],
          tt,
          record {
            client = shows.client;
            queue = shows.queue;
            is_open = shows.is_open;
            forwarding = subst (λ f. View p' f x.forwarding) (sym e) (e' ∙ view);
          },
        )
        go (some (task, f)) g e e' (shard, at, view) =
            let (shard', at', same_shard) =
              get_elem?-OnlySenders p.state.shards p'.state.shards task.shard shard only at in
            let s = system_of (p.locals task.shard) shard f in
            let stepped = ap (λ g. command_step x g shard'.sender) (e' ∙ view) in
            by_event p' seat x (clients_command shard'.sender) shows.is_open tt (
              subst (Comes p' seat) (sym stepped) (
                [],
                tt,
                record {
                  client = shows.client;
                  queue = shows.queue;
                  is_open = shows.is_open;
                  forwarding =
                      subst
                        (λ o.
                          View p' o
                            (some (task, record s { task = with_sender s.task shard'.sender })))
                        (sym e)
                        (
                          shard',
                          at',
                          sym (λ i. some (task, system_of (same i task.shard) (same_shard i) f)),
                        );
                },
              ))
