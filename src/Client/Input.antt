-- ===== src/Client/Input.antt =====
-- client.c: _parse_input, which runs a line of input of a client, and what it calls; the requests
-- are those of libcommon/client_proto.h.
pub mod Requests
pub mod Balance
pub mod Logins
pub mod Validated
use powerman.Base.{
  ℕ, zero, suc, ◌+◌, ◌-◌, ◌≡◌, Bool, true, false, ◌&&◌, ◌||◌, not, List, [], ◌∷◌, ◌++◌, map, Option,
  none, some, if◌then◌else◌, ltb, leb, ◌==◌, length, is_some, is_empty,
}
use powerman.CStr.{CStr, codes, isspace}
use powerman.Hostlist.{Hostlist}
use powerman.Pluglist.{Plug}
use powerman.Arglist.{arglist_create, arglist_unlink, alloc}
use powerman.Commands.{
  Com, pm_status_plugs, pm_status_beacon, pm_status_temp, pm_power_on, pm_power_off, pm_beacon_on,
  pm_beacon_off, pm_power_cycle, pm_reset,
}
use powerman.Conf.{Conf, conf_node_exists, conf_exp_aliases}
use powerman.Client
use powerman.Client.{
  append_output, Output, Response, Command, Client, World, client_printf, set_client, abort,
}
use powerman.Device.{Device, ConnectState, dev_not_connected, dev_connecting, dev_connected}
use powerman.Device.Enqueue.{Request, is_target, dev_check_actions, dev_enqueue_actions}

-- isspace from the left: the leading part of _strip_whitespace.
unfoldable pub strip_left : CStr → CStr
strip_left [] = []
strip_left (c ∷ cs) = if isspace c then strip_left cs else c ∷ cs

-- The trailing part.
unfoldable pub strip_right : CStr → CStr
strip_right [] = []
strip_right (c ∷ cs) =
    let rest = strip_right cs in if is_empty rest && isspace c then [] else c ∷ rest

unfoldable pub strip_whitespace : CStr → CStr
unfolding strip_left strip_right
strip_whitespace str = strip_right (strip_left str)

-- tolower() in the C locale.
unfoldable pub tolower : ℕ → ℕ
tolower c = if leb 65 c && leb c 90 then c + 32 else c

-- strncasecmp(str, word, strlen(word)) == 0
unfoldable pub has_prefix : CStr → CStr → Bool
unfolding tolower
has_prefix str [] = true
has_prefix [] (x ∷ word) = false
has_prefix (c ∷ str) (x ∷ word) = tolower c == tolower x && has_prefix str word

-- The bytes up to white space: what "%s" takes.
unfoldable pub scan_word : CStr → CStr
scan_word [] = []
scan_word (c ∷ cs) = let rest = scan_word cs in if isspace c then [] else c ∷ rest

-- sscanf(str, "word %s", arg1) == 1, with the value of arg1: a space of the format takes any white
-- space, or none.
unfoldable pub scan_arg : CStr → CStr → Option CStr
unfolding strip_left scan_word
scan_arg str [] = let arg = scan_word (strip_left str) in if is_empty arg then none else some arg
scan_arg [] (x ∷ word) = none
scan_arg (c ∷ str) (x ∷ word) = if c == x then scan_arg str word else none

-- What a line asks for: a command has its hosts, none for NULL.
pub data Line : Type 0 where
  toolong busy help list_nodes telemetry exprange quit unknown : Line
  command : Com → Option CStr → Line
  device : Option CStr → Line

-- A test of the chain in _parse_input.
pub data Test : Type 0 where
  prefix : CStr → Line → Test
  argument : CStr → (CStr → Line) → Test

unfoldable pub run_test : CStr → Test → Option Line
unfolding has_prefix scan_arg
run_test str (prefix word line) = if has_prefix str word then some line else none
run_test str (argument word line) = elim (scan_arg str word) [
  | none ↦ none
  | some arg ↦ some (line arg)
]

abbrev pub asks : Com → CStr → Line
asks pm arg = command pm (some arg)

abbrev pub tests : List Test
tests =
    prefix (codes "help") help
    ∷ prefix (codes "nodes") list_nodes
    ∷ prefix (codes "telemetry") telemetry
    ∷ prefix (codes "exprange") exprange
    ∷ prefix (codes "quit") quit
    ∷ argument (codes "on") (asks pm_power_on)
    ∷ argument (codes "off") (asks pm_power_off)
    ∷ argument (codes "cycle") (asks pm_power_cycle)
    ∷ argument (codes "reset") (asks pm_reset)
    ∷ argument (codes "flash") (asks pm_beacon_on)
    ∷ argument (codes "unflash") (asks pm_beacon_off)
    ∷ argument (codes "status") (asks pm_status_plugs)
    ∷ prefix (codes "status") (command pm_status_plugs none)
    ∷ argument (codes "temp") (asks pm_status_temp)
    ∷ prefix (codes "temp") (command pm_status_temp none)
    ∷ argument (codes "beacon") (asks pm_status_beacon)
    ∷ prefix (codes "beacon") (command pm_status_beacon none)
    ∷ argument (codes "device") (λ arg. device (some arg))
    ∷ prefix (codes "device") (device none)
    ∷ []

unfoldable pub first_line : CStr → List Test → Line
unfolding run_test
first_line str [] = unknown
first_line str (t ∷ ts) = elim (run_test str t) [ none ↦ first_line str ts | some line ↦ line ]

abbrev pub cp_linemax : ℕ
cp_linemax = 8192

-- The chain: `busy'` is whether the client has a command.
unfoldable pub classify : Bool → CStr → Line
unfolding first_line
classify busy' str =
    if leb cp_linemax (length str) then toolong else if busy' then busy else first_line str tests

-- The hosts that are no nodes, in order.
unfoldable pub bad_hosts : Hostlist → List CStr → List CStr → List CStr → List CStr
unfolding conf_node_exists
bad_hosts hostlist nodes acc [] = acc
bad_hosts hostlist nodes acc (host ∷ hl) =
    bad_hosts hostlist nodes
      (if conf_node_exists hostlist nodes host then acc else hostlist.push_host acc host) hl

-- The hosts after the aliases; the fuel is enough (Conf.Aliases).
unfoldable pub expanded : Hostlist → Conf → List CStr → List CStr
unfolding conf_exp_aliases
expanded hostlist conf hl = elim (conf_exp_aliases (suc (length hl)) hostlist conf.aliases hl) [
  | none ↦ hl
  | some hl' ↦ hl'
]

-- The hosts, or the response to the client. That the empty list or the iterator cannot be made, for
-- which _hostlist_create_validated also gives the internal error, does not happen here.
unfoldable pub hostlist_create_validated :
    Hostlist → Conf → CStr → Option (List CStr) × List Response
unfolding bad_hosts expanded
hostlist_create_validated hostlist conf str = elim (hostlist.create str) [
  | none ↦ (
    none,
    (if hostlist.invalid_range str
          then Client.err_hostlist (codes "invalid range")
          else Client.err_internal)
        ∷ [],
  )
  | some hl ↦
      let hl' = expanded hostlist conf hl in
      let badhl = bad_hosts hostlist conf.nodes [] hl' in
      if is_empty badhl
      then (some hl', [])
      else (none, Client.err_nosuchnodes (hostlist.ranged_string badhl) ∷ [])
]

-- _client_query_nodes_reply: the responses, and the configuration, whose nodes it sorts in place.
unfoldable pub query_nodes_reply : Hostlist → Conf → Bool → List Response × Conf
query_nodes_reply hostlist conf exprange' =
    let nodes' = hostlist.sort conf.nodes in
    (
      (if exprange'
            then map Client.info_xnodes nodes'
            else Client.info_nodes (hostlist.ranged_string nodes') ∷ [])
          ++ Client.rsp_qry_complete ∷ [],
      record conf { nodes = nodes' },
    )

unfoldable pub plug_nodes : Hostlist → List CStr → List Plug → List CStr
plug_nodes hostlist acc [] = acc
plug_nodes hostlist acc (p ∷ ps) =
    plug_nodes hostlist (elim p.node [ none ↦ acc | some node ↦ hostlist.push acc node ]) ps

unfoldable pub make_pluglist_str : Hostlist → Device → CStr
unfolding plug_nodes
make_pluglist_str hostlist dev =
    hostlist.ranged_string (hostlist.sort (plug_nodes hostlist [] dev.plugs))

unfoldable pub any_target : Hostlist → List CStr → List Plug → Bool
unfolding is_target
any_target hostlist targ [] = false
any_target hostlist targ (p ∷ ps) = is_target hostlist targ p || any_target hostlist targ ps

unfoldable pub device_matches_targets : Hostlist → Device → CStr → Bool
unfolding any_target
device_matches_targets hostlist dev arg = elim (hostlist.create arg) [
  | none ↦ false
  | some targ ↦ any_target hostlist targ dev.plugs
]

unfoldable pub connection_text : ConnectState → CStr
connection_text dev_connected = codes "connected"
connection_text dev_connecting = codes "connecting"
connection_text dev_not_connected = codes "disconnected"

unfoldable pub device_line : Hostlist → Device → Response
unfolding connection_text make_pluglist_str
device_line hostlist dev =
    Client.info_device dev.name (connection_text dev.connect_state)
      (dev.stat_successful_connects - 1) dev.stat_successful_actions dev.specname
      (make_pluglist_str hostlist dev)

-- The devices of the reply: all without an argument, else those with a target.
unfoldable pub device_lines : Hostlist → Option CStr → List Device → List Response
unfolding device_line device_matches_targets
device_lines hostlist arg [] = []
device_lines hostlist none (dev ∷ devs) = device_line hostlist dev ∷ device_lines hostlist none devs
device_lines hostlist (some arg) (dev ∷ devs) =
    let rest = device_lines hostlist (some arg) devs in
    if device_matches_targets hostlist dev arg then device_line hostlist dev ∷ rest else rest

unfoldable pub query_device_reply : Hostlist → List Device → Option CStr → List Response
unfolding device_lines
query_device_reply hostlist devs arg =
    device_lines hostlist arg devs ++ Client.rsp_qry_complete ∷ []

-- The hosts of a command, or the response: those of its argument, or all nodes.
unfoldable pub command_hosts : Hostlist → Conf → Option CStr → Option (List CStr) × List Response
unfolding hostlist_create_validated
command_hosts hostlist conf none = (some conf.nodes, [])
command_hosts hostlist conf (some arg1) = hostlist_create_validated hostlist conf arg1

-- _create_command: the command, the responses, and the world with the ArgList of the command.
unfoldable pub create_command :
    Hostlist
    → Conf
    → List Device
    → World
    → Com
    → Option CStr
    → Option Command × List Response × World
unfolding command_hosts alloc
create_command hostlist conf devs w pm arg1 =
    let (hl, rs) = command_hosts hostlist conf arg1 in
    elim hl as (λ _. Option Command × List Response × World) [
      | none ↦ (none, rs, w)
      | some hl' ↦
          if not (dev_check_actions hostlist devs pm hl')
          then (none, rs ++ Client.err_unimpl ∷ [], w)
          else (
            some (record { pm = pm; hl = hl'; pending = 0; error = false; arglist = w.args.next }),
            rs,
            record w { args = alloc w.args (arglist_create hl') },
          )
    ]

-- "reissue prompt if we didn't queue up any device actions"
unfoldable pub reissue : Client → List Response
reissue c = if c.client_quit then [] else Client.prompt ∷ []

-- The devices, the client, and the world, in which the client is not yet written back.
abbrev pub Parsed : Type 0
Parsed = List Device × Client × World

-- "enqueue device actions and tie up the client if necessary"
unfoldable pub enqueue_command : Hostlist → List Device → World → Client → Command → Parsed
unfolding arglist_unlink reissue
enqueue_command hostlist devs w c cmd =
    let r : Request = record {
      complete_fun = true;
      vpf_fun = c.telemetry;
      client_id = c.client_id;
      arglist = some cmd.arglist;
    } in
    let (devs', pending', w') = dev_enqueue_actions hostlist devs w cmd.pm cmd.hl r in
    if pending' == 0
    then (
      devs',
      client_printf c (Client.err_unimpl ∷ reissue c),
      record w' { args = arglist_unlink w'.args cmd.arglist },
    )
    else (devs', record c { cmd = some (record cmd { pending = pending' }) }, w')

-- The command that was made, or the prompt if there is none.
unfoldable pub finish_command :
    Hostlist → List Device → World → Client → Option Command → List Response → Parsed
unfolding enqueue_command reissue
finish_command hostlist devs w c none rs = (devs, client_printf c (rs ++ reissue c), w)
finish_command hostlist devs w c (some cmd) rs =
    enqueue_command hostlist devs w (client_printf c rs) cmd

unfoldable pub run_command :
    Hostlist → Conf → List Device → World → Client → Com → Option CStr → Parsed
unfolding create_command finish_command
run_command hostlist conf devs w c pm arg1 =
    let (made, rs, w') = create_command hostlist conf devs w pm arg1 in
    finish_command hostlist devs w' c made rs

-- A line, by what it asks for. `flush` is what _handle_write leaves of the output.
unfoldable pub run_line :
    Hostlist → (Output → Output) → List Device → World → Client → Line → Parsed
unfolding run_command query_nodes_reply query_device_reply reissue
run_line hostlist flush devs w c toolong =
    (devs, client_printf c (Client.err_toolong ∷ reissue c), w)
run_line hostlist flush devs w c busy = (devs, client_printf c (Client.err_clibusy ∷ []), w)
run_line hostlist flush devs w c help =
    (devs, client_printf c (Client.info_help ∷ Client.rsp_qry_complete ∷ reissue c), w)
run_line hostlist flush devs w c list_nodes =
    let (rs, conf) = query_nodes_reply hostlist w.conf c.exprange in
    (devs, client_printf c (rs ++ reissue c), record w { conf = conf })
run_line hostlist flush devs w c telemetry =
    let on = not c.telemetry in
    (devs, client_printf (record c { telemetry = on }) (Client.rsp_telemetry on ∷ reissue c), w)
run_line hostlist flush devs w c exprange =
    let on = not c.exprange in
    (devs, client_printf (record c { exprange = on }) (Client.rsp_exprange on ∷ reissue c), w)
run_line hostlist flush devs w c quit = (
  devs,
  record c { client_quit = true; to = flush (append_output c.to (Client.rsp_quit ∷ [])) },
  w,
)
run_line hostlist flush devs w c (command pm arg1) = run_command hostlist w.conf devs w c pm arg1
run_line hostlist flush devs w c (device arg) =
    (devs, client_printf c (query_device_reply hostlist devs arg ++ reissue c), w)
run_line hostlist flush devs w c unknown =
    (devs, client_printf c (Client.err_unknown ∷ reissue c), w)

-- _parse_input for a client `c` of the list of clients.
unfoldable pub parse_input :
    Hostlist → (Output → Output) → List Device → World → Client → CStr → List Device × World
unfolding classify run_line strip_whitespace
parse_input hostlist flush devs w c input =
    let (devs', c', w') =
      run_line hostlist flush devs w c (classify (is_some c.cmd) (strip_whitespace input)) in
    (devs', record w' { clients = set_client w'.clients c.client_id c' })
