-- ===== src/Settings.antt =====
-- src/lib.rs, lines 72 to 161: the settings of a socket and their defaults.
use xnet_socket.Base.{ℕ, Bool, true, false}

pub record Settings : Type 0 where
  pub max_connections : ℕ
  pub queue_size : ℕ
  pub panic_on_new_connection : Bool
  pub panic_on_shutdown : Bool
  pub fragments_capacity : ℕ
  pub fragments_grow : Bool
  pub fragment_size : ℕ
  pub in_buffer_capacity : ℕ
  pub in_buffer_grow : Bool
  pub out_buffer_capacity : ℕ
  pub out_buffer_grow : Bool
  pub panic_on_internal : Bool
  pub panic_on_capacity : Bool
  pub panic_on_protocol : Bool
  pub panic_on_encoding : Bool
  pub panic_on_queue : Bool
  pub panic_on_io : Bool
  pub panic_on_timeout : Bool
  pub shutdown_on_interrupt : Bool
  pub tcp_nodelay : Bool

unfoldable pub default_settings : Settings
default_settings = record {
  max_connections = 100;
  queue_size = 5;
  panic_on_new_connection = false;
  panic_on_shutdown = false;
  fragments_capacity = 10;
  fragments_grow = true;
  fragment_size = 65535;
  in_buffer_capacity = 2048;
  in_buffer_grow = true;
  out_buffer_capacity = 2048;
  out_buffer_grow = true;
  panic_on_internal = true;
  panic_on_capacity = false;
  panic_on_protocol = false;
  panic_on_encoding = false;
  panic_on_queue = false;
  panic_on_io = false;
  panic_on_timeout = false;
  shutdown_on_interrupt = true;
  tcp_nodelay = false;
}
