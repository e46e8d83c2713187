-- ===== src/Knxd/Client/Interface.antt =====
-- `KnxdClientInterface` of src/knxd/knxd_client.h, and `KnxdClient` as one.
use cometvisu_knxd_fcgi.Prelude.Int.{ℤ}
use cometvisu_knxd_fcgi.Prelude.Program.{Program}
use cometvisu_knxd_fcgi.Knxd.Message.{EibTypes}
use cometvisu_knxd_fcgi.Knxd.Client.Os.{Os}
use cometvisu_knxd_fcgi.Knxd.Client.Connection
use cometvisu_knxd_fcgi.Knxd.Client.Connection.{Link, WaitResult}
use cometvisu_knxd_fcgi.Knxd.Client.Telegrams
use cometvisu_knxd_fcgi.Prelude.{ℕ, Bool, Option, Bytes}

-- `K` is the client with all that lies outside.
pub record KnxdClientInterface (K : Type 0) : Type 0 where
  pub connect : Bytes → K → Bool × K
  pub disconnect : K → K
  pub reconnect : Program K Bool
  pub is_connected : K → Bool
  pub open_group_socket : Bool → Program K Bool
  pub send_group_packet : ℕ → Bytes → Program K Bool
  pub poll_group_telegram : Program K (Option (ℕ × Bytes))
  pub get_fd : K → Option ℕ
  pub get_telegram_count : K → ℕ
  pub set_nonblocking : Bool → K → K
  pub wait_for_activity : ℤ → K → WaitResult × K

module _ {W : Type 0} (os : Os W) (path_limit fuel : ℕ) (eib : EibTypes) where
  unfoldable pub knxd_client : KnxdClientInterface (Link W)
  knxd_client = record {
    connect = Connection.connect os path_limit;
    disconnect = Connection.disconnect os path_limit;
    reconnect = Connection.reconnect os path_limit fuel eib;
    is_connected = λ l. Connection.is_connected l.client;
    open_group_socket = Connection.open_group_socket os path_limit fuel eib;
    send_group_packet = Telegrams.send_group_packet os path_limit fuel eib;
    poll_group_telegram = Telegrams.poll_group_telegram os path_limit fuel eib;
    get_fd = λ l. l.client.fd;
    get_telegram_count = λ l. l.client.telegram_count;
    set_nonblocking = Connection.set_nonblocking os path_limit;
    wait_for_activity = Connection.wait_for_activity os path_limit;
  }
