-- ===== src/Client.antt =====
-- powermand/client.c and libcommon/client_proto.h: the clients of the daemon, the command that each
-- one waits for, and the responses. The children hold the operations.
pub mod Reply
pub mod Wire
pub mod Finish
pub mod Input
pub mod Poll
mod Tests
use powerman.Base.{
  ℕ, ◌+◌, ◌≡◌, Bool, true, false, List, [], ◌∷◌, ◌++◌, Option, none, some, if◌then◌else◌, ◌==◌, ltb,
}
use powerman.CStr.{CStr}
use powerman.Arglist.{ArgStore}
use powerman.Commands.{Com}
use powerman.Conf.{Conf}

-- The responses of client_proto.h, with the values that the format takes. A `%s` that is given a
-- pointer which may be NULL takes an Option.
pub data Response : Type 0 where
  prompt version : Response
  rsp_quit rsp_com_complete rsp_qry_complete : Response
  rsp_telemetry rsp_exprange : Bool → Response
  err_unknown err_toolong err_internal err_clibusy : Response
  err_com_complete err_qry_complete err_unimpl : Response
  err_hostlist err_nosuchnodes : CStr → Response
  info_help : Response
  info_status : CStr → CStr → CStr → Response
  info_xstatus : CStr → Option CStr → Response
  info_telemetry info_nodes info_xnodes info_acterror : CStr → Response
  info_device : CStr → CStr → ℕ → ℕ → CStr → CStr → Response

-- `hl` and `arglist` are not NULL in a command that _create_command returns. `arglist` is the place
-- of the ArgList in the store.
pub record Command : Type 0 where
  pub pm : Com
  pub hl : List CStr
  pub pending : ℕ
  pub error : Bool
  pub arglist : ℕ

-- The output buffer of a client: the responses that are not written in whole, and how many bytes of
-- the first are written.
pub record Output : Type 0 where
  pub responses : List Response
  pub written : ℕ

-- `to` holds the responses that are written and not yet sent, `from` the bytes that were read and
-- not yet parsed. A file descriptor is none for NO_FD.
pub record Client : Type 0 where
  pub fd : Option ℕ
  pub ofd : Option ℕ
  pub to : Output
  pub from : List ℕ
  pub cmd : Option Command
  pub client_id : ℕ
  pub telemetry : Bool
  pub exprange : Bool
  pub client_quit : Bool

-- The state that the modules of the daemon share: the ArgLists, the clients (cli_clients), the
-- counter of client ids, the configuration (conf_nodes and the aliases), how often the environment was
-- read (the clock and the devices' methods), and whether an assertion failed.
pub record World : Type 0 where
  pub conf : Conf
  pub args : ArgStore
  pub clients : List Client
  pub cli_id_seq : ℕ
  pub reads : ℕ
  pub aborted : Bool

abbrev pub int_max : ℕ
int_max = 2147483647

-- _next_cli_id(): the id, and the counter's new value.
unfoldable pub next_cli_id : ℕ → ℕ × ℕ
next_cli_id seq = if ltb seq int_max then (seq, seq + 1) else (int_max, 1)

abbrev pub append_output : Output → List Response → Output
append_output to rs = record to { responses = to.responses ++ rs }

unfoldable pub client_printf : Client → List Response → Client
client_printf c rs = record c { to = append_output c.to rs }

-- list_find_first(cli_clients, _match_client, &seq)
unfoldable pub find_client : List Client → ℕ → Option Client
find_client [] seq = none
find_client (c ∷ cs) seq = if c.client_id == seq then some c else find_client cs seq

-- Writes through the pointer that find_client returns.
unfoldable pub set_client : List Client → ℕ → Client → List Client
set_client [] seq c' = []
set_client (c ∷ cs) seq c' = if c.client_id == seq then c' ∷ cs else c ∷ set_client cs seq c'

-- assert(FALSE)
unfoldable pub abort : World → World
abort w = record w { aborted = true }
