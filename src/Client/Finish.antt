-- ===== src/Client/Finish.antt =====
-- client.c: the callbacks that the device module makes.
pub mod Pending
use powerman.Base.{
  ℕ, ◌-◌, Bool, true, false, List, [], ◌∷◌, ◌++◌, Option, none, some, if◌then◌else◌, ◌==◌,
}
use powerman.CStr.{CStr}
use powerman.Hostlist.{Hostlist}
use powerman.Arglist.{Arg, ArgStore, arglist_unlink, arglist_iterate}
use powerman.Commands.{
  Com, pm_status_plugs, pm_status_beacon, pm_status_temp, pm_power_on, pm_power_off, pm_beacon_on,
  pm_beacon_off, pm_power_cycle, pm_reset,
}
use powerman.Client.{
  Response, prompt, rsp_com_complete, err_com_complete, err_internal, info_acterror, info_telemetry,
  Command, Client, World, client_printf, find_client, set_client, abort,
}
use powerman.Client.Reply.{client_query_status_reply, client_query_status_reply_nointerp}

-- ActError of device_private.h.
pub data ActError : Type 0 where
  act_esuccess act_eexpfail act_eabort act_econnecttimeout act_elogintimeout : ActError

-- _telemetry_printf with the text already formatted.
unfoldable pub telemetry_printf : World → ℕ → CStr → World
telemetry_printf w client_id str = elim (find_client w.clients client_id) [
  | none ↦ w
  | some c ↦ record w {
    clients = set_client w.clients client_id (client_printf c (info_telemetry str ∷ []));
  }
]

-- The Args that arglist_next yields for a command's ArgList.
unfoldable pub command_args : ArgStore → Command → List Arg
unfolding arglist_iterate
command_args s cmd = elim (s.cell cmd.arglist) [
  | none ↦ []
  | some al ↦ arglist_iterate al.args al.hl
]

unfoldable pub com_complete : Bool → Response
com_complete error = if error then err_com_complete else rsp_com_complete

-- The switch of _act_finish: the response, and whether the assertion of `default` fails.
unfoldable pub final_response : Hostlist → Bool → List Arg → Com → Bool → List Response × Bool
unfolding com_complete
final_response hl exprange args pm_status_plugs error =
    (client_query_status_reply hl exprange args error, false)
final_response hl exprange args pm_status_beacon error =
    (client_query_status_reply hl exprange args error, false)
final_response hl exprange args pm_status_temp error =
    (client_query_status_reply_nointerp hl args error, false)
final_response hl exprange args pm_power_on error = (com_complete error ∷ [], false)
final_response hl exprange args pm_power_off error = (com_complete error ∷ [], false)
final_response hl exprange args pm_beacon_on error = (com_complete error ∷ [], false)
final_response hl exprange args pm_beacon_off error = (com_complete error ∷ [], false)
final_response hl exprange args pm_power_cycle error = (com_complete error ∷ [], false)
final_response hl exprange args pm_reset error = (com_complete error ∷ [], false)
final_response hl exprange args _ error = (err_internal ∷ [], true)

abbrev pub is_success : ActError → Bool
is_success act_esuccess = true
is_success _ = false

-- "handle errors immediately"
unfoldable pub note_error : ActError → CStr → List Response
note_error act_esuccess str = []
note_error _ str = info_acterror str ∷ []

-- The last action has called back: respond, destroy the command, and prompt again.
unfoldable pub complete_command : Hostlist → World → Client → Command → World
unfolding final_response command_args
complete_command hl w c cmd =
    let r = final_response hl c.exprange (command_args w.args cmd) cmd.pm cmd.error in
    let c' = record (client_printf c (r.0 ++ prompt ∷ [])) { cmd = none } in
    let w' = record w {
      args = arglist_unlink w.args cmd.arglist;
      clients = set_client w.clients c.client_id c';
    } in
    if r.1 then abort w' else w'

-- One more action of the command `cmd` has called back. `--pending == 0` is `pending == 1` before;
-- a count that is 0 already would go below, and never end the command; here it stays 0, and does not
-- end the command either.
unfoldable pub finish_one : Hostlist → World → Client → Command → ActError → CStr → World
unfolding complete_command note_error
finish_one hl w c cmd acterr str =
    let cmd' = record cmd {
      error = if is_success acterr then cmd.error else true;
      pending = cmd.pending - 1;
    } in
    let c' = record (client_printf c (note_error acterr str)) { cmd = some cmd' } in
    if cmd.pending == 1
    then complete_command hl w c' cmd'
    else record w { clients = set_client w.clients c.client_id c' }

-- `str` is the formatted text; it is not read on success.
unfoldable pub act_finish : Hostlist → World → ℕ → ActError → CStr → World
unfolding finish_one
act_finish hl w client_id acterr str = elim (find_client w.clients client_id) [
  | none ↦ w
  | some c ↦ elim c.cmd [ none ↦ abort w | some cmd ↦ finish_one hl w c cmd acterr str ]
]
