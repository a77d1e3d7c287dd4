-- ===== src/Libpowerman/Tests.antt =====
-- Runs of libpowerman.c at concrete inputs.
use mathlib.Core.List.{reverse}
use powerman.Base.{
  ◌≡◌, ◌≤◌, ℕ, refl, true, false, List, [], ◌∷◌, ◌++◌, map, none, some, arith, length, take, drop,
  All,
}
use powerman.CStr.{CStr, codes, isspace}
use powerman.Arglist.{Arg, st_on, st_off}
use powerman.Samples.{hosts, conf, t1, t2}
use powerman.Client.{Response}
use powerman.Client.Reply.{client_query_status_reply, qry_complete, xstatus}
use powerman.Client.Wire.{Build, cp_prompt, join_lines, response_lines, wire}
use powerman.Client.Input.{query_nodes_reply}
use powerman.Libpowerman.{
  pm_esuccess, pm_eservereof, parse_response, server_retcode, snprintf, format, strncmpend,
}
use powerman.Libpowerman.Lines.{with_eol, parse_response-lines}
use powerman.Libpowerman.Codes.{IsClean, first_verdict, server_retcode-wire}
use powerman.Libpowerman.Handle.{
  chunk, eof, Connection, overrun, state, server_recv_response, server_command, pm_node_on,
  pm_node_status, pm_node_iterator_create,
}
use powerman.Libpowerman.Connect.{parse_hostport}
use powerman.Libpowerman.Transfer.{Arrives, joined, request, outcome, server_command-outcome}
use powerman.Libpowerman.Status.{node_state, pm_node_status-args}
use powerman.Libpowerman.Nodes.{IsWord, pm_node_iterator_create-nodes}

abbrev build : Build
build = record { version = codes "powerman-2.3"; place = codes "client.c::1" }

abbrev args : List Arg
args =
    record { node = t1; state = st_on; val = none }
    ∷ record { node = t2; state = st_off; val = none }
    ∷ []

-- The reply to a status query, in two reads.
abbrev status_reply : List Response
status_reply = client_query_status_reply hosts true args false

abbrev sent : List Response → CStr
sent rs = wire build (rs ++ Response.prompt ∷ [])

abbrev in_two : CStr → List (List ℕ)
in_two s = take 15 s ∷ drop 15 s ∷ []

abbrev connection : CStr → Connection
connection s = record { reads = map chunk (in_two s); writes = some 5 ∷ some 20 ∷ []; sent = [] }

-- Fewer bytes than the prompt has, in the first read.
short_read :
    (server_recv_response (record { reads = chunk (codes "001 ") ∷ []; writes = []; sent = [] })).0
    ≡ overrun
unfolding server_recv_response
short_read = refl

lost_server :
    (pm_node_on (some (record { reads = eof ∷ []; writes = some 40 ∷ []; sent = [] })) t1).0
    ≡ some pm_eservereof
unfolding pm_node_on
lost_server = refl

host_and_port : parse_hostport (some (codes "pm:99")) ≡ (codes "pm", codes "99")
unfolding parse_hostport
host_and_port = refl

parse_response-lines_example :
    parse_response (join_lines (t1 ∷ t2 ∷ []) ++ cp_prompt) ≡ reverse (map with_eol (t1 ∷ t2 ∷ []))
parse_response-lines_example = parse_response-lines (t1 ∷ t2 ∷ []) (ground arith)

IsClean-status : All (IsClean build) status_reply
unfolding client_query_status_reply xstatus qry_complete response_lines
IsClean-status = ground arith

server_retcode-wire_example :
    server_retcode (parse_response (sent status_reply)) ≡ first_verdict status_reply
server_retcode-wire_example = server_retcode-wire build status_reply IsClean-status

Arrives-status : Arrives [] (in_two (sent status_reply))
unfolding client_query_status_reply xstatus qry_complete wire strncmpend
Arrives-status = (omega arith, refl, tt)

joined_status : joined (in_two (sent status_reply)) ≡ sent status_reply
unfolding client_query_status_reply xstatus qry_complete wire
joined_status = refl

fits_status : length (request (codes "status %s") t1) ≤ 25
unfolding format snprintf
fits_status = omega arith

server_command-outcome_example :
    let r = server_command (connection (sent status_reply)) (codes "status %s") t1 in
    (r.0 ≡ outcome build status_reply) × (r.1.sent ≡ request (codes "status %s") t1)
server_command-outcome_example =
    server_command-outcome build (connection (sent status_reply)) (codes "status %s") t1
      (in_two (sent status_reply)) status_reply fits_status refl Arrives-status joined_status
      IsClean-status

pm_node_status-args_example :
    (pm_node_status (some (connection (sent status_reply))) t1).0 ≡ state (node_state t1 args)
pm_node_status-args_example =
    pm_node_status-args build hosts (connection (sent status_reply)) t1 args false
      (in_two (sent status_reply)) (omega arith) fits_status refl Arrives-status joined_status
      (ground arith)

abbrev nodes_reply : List Response
nodes_reply = (query_nodes_reply hosts conf true).0

Arrives-nodes : Arrives [] (in_two (sent nodes_reply))
unfolding query_nodes_reply wire strncmpend
Arrives-nodes = (omega arith, refl, tt)

joined_nodes : joined (in_two (sent nodes_reply)) ≡ sent nodes_reply
unfolding query_nodes_reply wire
joined_nodes = refl

words : All IsWord (t1 ∷ t2 ∷ [])
unfolding isspace
words = ground arith

fits_nodes : length (request (codes "nodes") []) ≤ 25
unfolding format snprintf
fits_nodes = omega arith

pm_node_iterator_create-nodes_example :
    let (nodes, e, conn') = pm_node_iterator_create (some (connection (sent nodes_reply))) in
    (nodes ≡ t1 ∷ t2 ∷ []) × (e ≡ some pm_esuccess)
pm_node_iterator_create-nodes_example =
    pm_node_iterator_create-nodes build hosts conf (connection (sent nodes_reply))
      (in_two (sent nodes_reply)) fits_nodes refl Arrives-nodes joined_nodes words
