-- ===== src/Broker/Connecting.antt =====
-- src/threads/mqtt/broker.cpp: the beginning of a session, from the accept handler to the
-- acknowledgement of CONNECT.
use octopusmq_cpp.Base.{◌≡◌, ◌≢◌, refl, true, Option, some, [], ◌∷◌, ◌++◌, ==_refl, Text, arith}
use octopusmq_cpp.Network.{Address, Version, v3, v5}
use octopusmq_cpp.Platform.{Platform, Connection}
use octopusmq_cpp.Broker.{done, ◌>>=◌, connack_accepted, Broker, note}
use octopusmq_cpp.Broker.Handlers.{accept, connected, handle_connect_v3, handle_connect_v5}

module _ (p : Platform) where
  -- A connection that has a session now; those of others are as before.
  pub record Entered (c : Connection) (remote : Address) (client_id : Text) (v : Version)
      (b b' : Broker p) : Type 0 where
    pub member : b'.connections c ≡ true
    pub metadata :
        b'.meta c ≡ some (record { address = remote; client_id = client_id; protocol_version = v })
    pub others :
        (d : Connection) → d ≢ c → (b'.connections d ≡ b.connections d) × (b'.meta d ≡ b.meta d)
    pub out : b'.sent ≡ b.sent ++ (c, connack_accepted v) ∷ []
    pub subs : b'.subs ≡ b.subs
    pub queue : b'.global_queue ≡ b.global_queue

  connected-Entered :
      (peers : Connection → Option Address) (v : Version) (c : Connection) (remote : Address)
      (client_id : Text) (b : Broker p)
      → peers c ≡ some remote
      → (b' : Broker p) × ((accept p peers c b >>= λ a. done (connected p v c client_id a))
          ≡ done b')
        × Entered c remote client_id v b b'
  unfolding accept note
  connected-Entered peers v c remote client_id b h =
      rw (accept, h)
        (
          _,
          refl,
          record {
            member = rw (==_refl c) refl;
            metadata = rw (==_refl c) refl;
            others = λ d n. (ground (arith, n), ground (arith, n));
            out = refl;
            subs = refl;
            queue = refl;
          },
        )

  -- A connection that has a remote end when it is accepted, and then sends a CONNECT of either
  -- version: it is in the set of connections, with the remote end, the client's name and the
  -- version as its metadata, and the CONNECT is acknowledged; other connections, the subscriptions
  -- and the queue stay.
  pub session-Entered :
      (peers : Connection → Option Address) (c : Connection) (remote : Address) (client_id : Text)
      (b : Broker p)
      → peers c ≡ some remote
      → ((b' : Broker p) × ((accept p peers c b >>= λ a. done (handle_connect_v3 p c client_id a))
            ≡ done b')
          × Entered c remote client_id v3 b b')
        × ((b' : Broker p) × ((accept p peers c b >>= λ a. done (handle_connect_v5 p c client_id a))
              ≡ done b')
            × Entered c remote client_id v5 b b')
  unfolding handle_connect_v3 handle_connect_v5
  session-Entered peers c remote client_id b h = (
    connected-Entered peers v3 c remote client_id b h,
    connected-Entered peers v5 c remote client_id b h,
  )
