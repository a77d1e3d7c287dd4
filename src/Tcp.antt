-- ===== src/Tcp.antt =====
-- powermand/device_tcp.c: the connection method for devices behind a TCP port, such as terminal
-- servers. The children hold its telnet state machine and its connecting.
pub mod Telnet
pub mod Connect
mod Tests
use powerman.Base.{ℕ, ◌*◌, Bool, true, false, List, [], ◌∷◌, Option, none, some}
use powerman.CStr.{CStr, codes, str_eq}

pub data TelnetState : Type 0 where
  telnet_none telnet_cmd telnet_opt : TelnetState

-- An address of the list that getaddrinfo returns. `cur` holds the addresses from tcp->cur on, and
-- is empty for NULL.
pub record TcpDev : Type 0 where
  pub tstate : TelnetState
  pub tcmd : ℕ
  pub quiet : Bool
  pub addrs : List ℕ
  pub cur : List ℕ

abbrev pub max_dev_buf : ℕ
max_dev_buf = 1024 * 64

-- _telnet_init
unfoldable pub telnet_init : TcpDev → TcpDev
telnet_init tcp = record tcp { tstate = telnet_none; tcmd = 0 }

-- The loop of _parse_options over the words that strtok finds: false where it exits with an error.
unfoldable pub parse_options : List CStr → TcpDev → Option TcpDev
unfolding str_eq
parse_options [] tcp = some tcp
parse_options (opt ∷ opts) tcp = elim (str_eq opt (codes "quiet")) [
  | true ↦ parse_options opts (record tcp { quiet = true })
  | false ↦ none
]
