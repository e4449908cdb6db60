-- ===== src/Handler.antt =====
-- src/handler.rs: the callbacks of the library's user. A callback changes the handler and the
-- world; a panic of a callback is not modelled. Log output has no effect and is left out.
use xnet_socket.Base.{ℕ, Str, ok}
use xnet_socket.Errors.{Error, Result}
use xnet_socket.Protocol.{CloseCode}
use xnet_socket.Message.{Message}
use xnet_socket.Platform.{Platform}

-- What a callback that returns a `Result` leaves behind.
abbrev pub Answer : (H W : Type 0) → Type 0
Answer H W = Result (Unit {0}) × H × W

pub record Handler (p : Platform) : Type 1 where
  pub H : Type 0
  pub on_shutdown : H → p.World → H × p.World
  pub on_open : H → p.World → Answer H p.World
  pub on_message : Message → H → p.World → Answer H p.World
  pub on_close : CloseCode → Str → H → p.World → H × p.World
  pub on_error : Error → H → p.World → H × p.World
  pub on_timeout : ℕ → H → p.World → Answer H p.World
  pub on_new_timeout : ℕ → p.Timeout → H → p.World → Answer H p.World

-- The default methods of the trait around a given `on_message`: they log and change nothing.
unfoldable pub with_defaults :
    (p : Platform) (H : Type 0) → (Message → H → p.World → Answer H p.World) → Handler p
with_defaults p H receive = record {
  H = H;
  on_shutdown = λ h w. (h, w);
  on_open = λ h w. (ok tt, h, w);
  on_message = receive;
  on_close = λ code reason h w. (h, w);
  on_error = λ e h w. (h, w);
  on_timeout = λ event h w. (ok tt, h, w);
  on_new_timeout = λ event timeout h w. (ok tt, h, w);
}

-- The default `on_message`.
unfoldable pub default_on_message :
    (p : Platform) (H : Type 0) → Message → H → p.World → Answer H p.World
default_on_message p H m h w = (ok tt, h, w)

-- `impl Handler for F where F: Fn(Message) -> Result<()>`: the closure answers the messages.
unfoldable pub closure_handler :
    (p : Platform) → (Message → p.World → Result (Unit {0}) × p.World) → Handler p
unfolding with_defaults
closure_handler p f = with_defaults p (Unit {0}) (λ m h w. let (r, w') = f m w in (r, h, w'))
