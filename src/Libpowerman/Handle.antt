-- ===== src/Libpowerman/Handle.antt =====
-- libpowerman.c: a handle's connection, and the functions that send a command over it.
use powerman.Base.{
  ℕ, Bool, true, false, List, [], ◌∷◌, ◌++◌, Option, none, some, if◌then◌else◌, ltb, length, take,
  drop, is_empty,
}
use powerman.CStr.{CStr, codes}
use powerman.Client.Wire.{cp_eol, cp_prompt}
use powerman.Libpowerman.{
  PmErr, pm_esuccess, pm_errnovalid, pm_ebadhand, pm_eservereof, PmNodeState, pm_unknown, pm_off,
  pm_on, list_search, strncmpend, parse_response, server_retcode, format, snprintf,
}
use powerman.Client.Input.{scan_arg}

-- What read() returns: some bytes, at least one and no more than fit; 0; or -1.
pub data Reading : Type 0 where
  chunk : List ℕ → Reading
  eof failed : Reading

-- The connection of a handle: what read() and write() will return (none for -1), and what was sent.
pub record Connection : Type 0 where
  pub reads : List Reading
  pub writes : List (Option ℕ)
  pub sent : List ℕ

-- The lines of a response, or an error. `overrun` is a read in front of the buffer, in _strncmpend;
-- `waiting` is a call of read() or write() that does not return. Memory does not run out.
pub data Outcome : Type 0 where
  lines : List CStr → Outcome
  err : PmErr → Outcome
  overrun waiting : Outcome

-- The buffer that the loop of _server_recv_response reads up to a prompt.
pub data Received : Type 0 where
  got : List ℕ → Received
  lost : PmErr → Received
  short stuck : Received

unfoldable pub recv_loop : List ℕ → List Reading → Received × List Reading
unfolding strncmpend
recv_loop buf [] = (stuck, [])
recv_loop buf (eof ∷ rs) = (lost pm_eservereof, rs)
recv_loop buf (failed ∷ rs) = (lost pm_errnovalid, rs)
recv_loop buf (chunk c ∷ rs) =
    let buf' = buf ++ c in
    let more = recv_loop buf' rs in
    if ltb (length buf') (length cp_prompt)
    then (short, rs)
    else if strncmpend buf' cp_prompt
    then (got buf', rs)
    else more

abbrev pub is_pm_success : PmErr → Bool
is_pm_success pm_esuccess = true
is_pm_success _ = false

-- What _server_recv_response makes of the buffer.
unfoldable pub received : Received → Outcome
unfolding parse_response server_retcode
received (got buf) =
    let resp = parse_response buf in
    let e = server_retcode resp in if is_pm_success e then lines resp else err e
received (lost e) = err e
received short = overrun
received stuck = waiting

unfoldable pub server_recv_response : Connection → Outcome × Connection
unfolding recv_loop received
server_recv_response conn =
    let (r, rs) = recv_loop [] conn.reads in (received r, record conn { reads = rs })

-- The loop of _server_send_command on the bytes not yet written: none if write() does not return.
unfoldable pub write_loop :
    List ℕ → List ℕ → List (Option ℕ) → Option PmErr × List ℕ × List (Option ℕ)
write_loop sent rest [] = (if is_empty rest then some pm_esuccess else none, sent, [])
write_loop sent rest (none ∷ ws) =
    if is_empty rest then (some pm_esuccess, sent, none ∷ ws) else (some pm_errnovalid, sent, ws)
write_loop sent rest (some n ∷ ws) =
    let more = write_loop (sent ++ take n rest) (drop n rest) ws in
    if is_empty rest then (some pm_esuccess, sent, some n ∷ ws) else more

unfoldable pub server_send_command : Connection → CStr → CStr → Option PmErr × Connection
unfolding write_loop format snprintf
server_send_command conn cmd arg =
    let (e, sent, ws) =
      write_loop conn.sent (snprintf (snprintf (format cmd arg) ++ cp_eol)) conn.writes in
    (e, record conn { sent = sent; writes = ws })

-- What _server_command does after sending.
unfoldable pub after_send : Option PmErr → Connection → Outcome × Connection
unfolding server_recv_response
after_send none conn = (waiting, conn)
after_send (some pm_esuccess) conn = server_recv_response conn
after_send (some e) conn = (err e, conn)

unfoldable pub server_command : Connection → CStr → CStr → Outcome × Connection
unfolding server_send_command after_send
server_command conn cmd arg =
    let (e, conn') = server_send_command conn cmd arg in after_send e conn'

-- A result that is only an error: none if the function does not return, or reads out of bounds.
unfoldable pub error_of : Outcome → Option PmErr
error_of (lines resp) = some pm_esuccess
error_of (err e) = some e
error_of overrun = none
error_of waiting = none

-- A handle is none if it is NULL or has a wrong magic number.
unfoldable pub node_command : CStr → Option Connection → CStr → Option PmErr × Option Connection
unfolding server_command error_of
node_command cmd none node = (some pm_ebadhand, none)
node_command cmd (some conn) node =
    let (out, conn') = server_command conn cmd node in (error_of out, some conn')

unfoldable pub pm_node_on : Option Connection → CStr → Option PmErr × Option Connection
unfolding node_command
pm_node_on = node_command (codes "on %s")

unfoldable pub pm_node_off : Option Connection → CStr → Option PmErr × Option Connection
unfolding node_command
pm_node_off = node_command (codes "off %s")

unfoldable pub pm_node_cycle : Option Connection → CStr → Option PmErr × Option Connection
unfolding node_command
pm_node_cycle = node_command (codes "cycle %s")

-- snprintf(..., CP_INFO_XSTATUS, node, value)
unfoldable pub xstatus_line : CStr → CStr → CStr
unfolding snprintf
xstatus_line node value = snprintf (codes "303 " ++ (node ++ (codes ": " ++ (value ++ cp_eol))))

unfoldable pub find_state : List CStr → CStr → PmNodeState
find_state resp node =
    if list_search resp (xstatus_line node (codes "off"))
    then pm_off
    else if list_search resp (xstatus_line node (codes "on"))
    then pm_on
    else pm_unknown

-- A state, or an error.
pub data Status : Type 0 where
  state : PmNodeState → Status
  no_state : Option PmErr → Status

unfoldable pub status_of : Outcome → CStr → Status
unfolding find_state error_of
status_of (lines resp) node = state (find_state resp node)
status_of out node = no_state (error_of out)

unfoldable pub pm_node_status : Option Connection → CStr → Status × Option Connection
unfolding server_command status_of
pm_node_status none node = (no_state (some pm_ebadhand), none)
pm_node_status (some conn) node =
    let (out, conn') = server_command conn (codes "status %s") node in
    (status_of out node, some conn')

-- The body of the loop of pm_node_iterator_create: sscanf(lp->data, CP_INFO_XNODES, node) == 1 takes
-- a node, and _list_add puts it in front.
unfoldable pub add_node : List CStr → CStr → List CStr
unfolding scan_arg
add_node nodes line = elim (scan_arg line (codes "307")) [ none ↦ nodes | some node ↦ node ∷ nodes ]

unfoldable pub collect_nodes : List CStr → List CStr → List CStr
unfolding add_node
collect_nodes nodes [] = nodes
collect_nodes nodes (line ∷ resp) = collect_nodes (add_node nodes line) resp

-- The nodes of the iterator, or an error.
unfoldable pub nodes_of : Outcome → List CStr × Option PmErr
unfolding collect_nodes error_of
nodes_of (lines resp) = (collect_nodes [] resp, some pm_esuccess)
nodes_of out = ([], error_of out)

unfoldable pub pm_node_iterator_create :
    Option Connection → List CStr × Option PmErr × Option Connection
unfolding server_command nodes_of
pm_node_iterator_create none = ([], some pm_ebadhand, none)
pm_node_iterator_create (some conn) =
    let (out, conn') = server_command conn (codes "nodes") [] in
    let (nodes, e) = nodes_of out in (nodes, e, some conn')

-- pm_node_next, on the nodes from pmi_pos on.
unfoldable pub pm_node_next : List CStr → Option CStr × List CStr
pm_node_next [] = (none, [])
pm_node_next (node ∷ pos) = (some node, pos)

-- pm_disconnect: what is left of the connection, which is closed.
unfoldable pub pm_disconnect : Option Connection → Option Connection
unfolding server_command
pm_disconnect none = none
pm_disconnect (some conn) = some ((server_command conn (codes "quit") []).1)
