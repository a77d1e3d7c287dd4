-- ===== src/Client/Reply.antt =====
-- client.c: the replies to the query commands.
use powerman.Base.{
  Bool, true, false, List, [], ◌∷◌, ◌++◌, map, some, if◌then◌else◌, is_some, is_empty,
}
use powerman.CStr.{CStr, codes}
use powerman.Hostlist.{Hostlist}
use powerman.Arglist.{InterpState, st_unknown, st_off, st_on, Arg}
use powerman.Client.{Response, err_qry_complete, rsp_qry_complete, info_status, info_xstatus}

unfoldable pub state_text : InterpState → CStr
state_text st_on = codes "on"
state_text st_off = codes "off"
state_text st_unknown = codes "unknown"

abbrev pub same_state : InterpState → InterpState → Bool
same_state st_on st_on = true
same_state st_off st_off = true
same_state st_unknown st_unknown = true
same_state _ _ = false

unfoldable pub qry_complete : Bool → Response
qry_complete error = if error then err_qry_complete else rsp_qry_complete

-- The nodes that the loop pushes onto the hostlist of one state, in order.
unfoldable pub push_state : Hostlist → InterpState → List CStr → List Arg → List CStr
push_state hl state acc [] = acc
push_state hl state acc (a ∷ as') =
    push_state hl state (if same_state a.state state then hl.push acc a.node else acc) as'

unfoldable pub status_list : Hostlist → InterpState → List Arg → CStr
unfolding push_state
status_list hl state args = hl.ranged_string (hl.sort (push_state hl state [] args))

unfoldable pub xstatus : Arg → Response
unfolding state_text
xstatus a = info_xstatus a.node (some (state_text a.state))

-- `args` are the Args that arglist_next yields.
unfoldable pub client_query_status_reply : Hostlist → Bool → List Arg → Bool → List Response
unfolding status_list xstatus qry_complete
client_query_status_reply hl exprange args error =
    (if exprange
      then map xstatus args
      else info_status (status_list hl st_on args) (status_list hl st_off args)
          (status_list hl st_unknown args)
        ∷ [])
    ++ qry_complete error ∷ []

unfoldable pub push_novals : Hostlist → List CStr → List Arg → List CStr
push_novals hl acc [] = acc
push_novals hl acc (a ∷ as') =
    push_novals hl (if is_some a.val then acc else hl.push acc a.node) as'

unfoldable pub xvalue : Arg → Response
xvalue a = info_xstatus a.node a.val

unfoldable pub client_query_status_reply_nointerp : Hostlist → List Arg → Bool → List Response
unfolding push_novals xvalue qry_complete
client_query_status_reply_nointerp hl args error =
    let novals = push_novals hl [] args in
    map xvalue args
    ++ ((if is_empty novals
          then []
          else info_xstatus (hl.ranged_string (hl.sort novals)) (some (codes "unknown")) ∷ [])
        ++ qry_complete error ∷ [])
