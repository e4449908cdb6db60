-- ===== src/Factory.antt =====
-- src/factory.rs: the factory of handlers. As for a handler, a callback changes the factory and the
-- world, and log output is left out.
use xnet_socket.Platform.{Platform}
use xnet_socket.Handler.{Handler}
use xnet_socket.Communication.{Channels}
use xnet_socket.Communication.Senders.{Sender}

pub record Factory {p : Platform} (c : Channels p) (h : Handler p) : Type 1 where
  pub F : Type 0
  pub connection_made : Sender c → F → p.World → h.H × F × p.World
  pub on_shutdown : F → p.World → F × p.World
  pub client_connected : Sender c → F → p.World → h.H × F × p.World
  pub server_connected : Sender c → F → p.World → h.H × F × p.World
  pub connection_lost : h.H → F → p.World → F × p.World

module _ {p : Platform} (c : Channels p) (h : Handler p) where
  -- The default methods of the trait around a given `connection_made`.
  unfoldable pub factory_defaults :
      (F : Type 0) → (Sender c → F → p.World → h.H × F × p.World) → Factory c h
  factory_defaults F made = record {
    F = F;
    connection_made = made;
    on_shutdown = λ f w. (f, w);
    client_connected = made;
    server_connected = made;
    connection_lost = λ gone f w. (f, w);
  }

  -- `impl Factory for F where F: FnMut(Sender) -> H`: the closure, with what it captures, makes the
  -- handlers.
  unfoldable pub closure_factory :
      (F : Type 0) → (Sender c → F → p.World → h.H × F × p.World) → Factory c h
  unfolding factory_defaults
  closure_factory F f = factory_defaults F f
