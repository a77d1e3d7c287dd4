-- ===== src/Powerman.antt =====
-- powerman/powerman.c: the command line client, from its options to the requests that it sends.
-- Powerman.Session is its side of a session with the daemon.
pub mod Session
pub mod Read
pub mod Lines
pub mod Respond
pub mod Execute
pub mod Words
pub mod Options
pub mod Requests
mod Tests
use powerman.Base.{
  Bool, true, false, ◌||◌, List, [], ◌∷◌, ◌++◌, Option, none, some, if◌then◌else◌, leb, length,
  is_empty,
}
use powerman.CStr.{CStr, codes, str_eq}
use powerman.Hostlist.{Hostlist}
use powerman.Argv.{argv_create, argv_append}
use powerman.Client.Input.{cp_linemax}
use powerman.Libpowerman.{format}

-- cmd_t; none for NULL.
pub record Cmd : Type 0 where
  pub fmt : CStr
  pub argv : Option (List CStr)
  pub sendstr : Option CStr

-- The options that make a command, with their argument.
pub data Opt : Type 0 where
  opt_on opt_off opt_cycle opt_reset opt_query opt_flash opt_unflash : CStr → Opt
  opt_beacon opt_temp opt_device : CStr → Opt
  opt_list opt_query_all opt_beacon_all opt_temp_all opt_device_all : Opt
  opt_telemetry opt_exprange : Opt

-- _cmd_create; none where argv_create fails an assertion.
unfoldable pub cmd_create : List Cmd → CStr → Option CStr → Bool → Option (List Cmd)
unfolding argv_create
cmd_create cl fmt' none prepend =
    let cp : Cmd = record { fmt = fmt'; argv = none; sendstr = none } in
    some (if prepend then cp ∷ cl else cl ++ cp ∷ [])
cmd_create cl fmt' (some arg) prepend = elim (argv_create arg []) [
  | none ↦ none
  | some argv' ↦
      let cp : Cmd = record { fmt = fmt'; argv = some argv'; sendstr = none } in
      some (if prepend then cp ∷ cl else cl ++ cp ∷ [])
]

-- A case of the switch in main.
unfoldable pub option_command : List Cmd → Opt → Option (List Cmd)
unfolding cmd_create
option_command cl (opt_on arg) = cmd_create cl (codes "on %s") (some arg) false
option_command cl (opt_off arg) = cmd_create cl (codes "off %s") (some arg) false
option_command cl (opt_cycle arg) = cmd_create cl (codes "cycle %s") (some arg) false
option_command cl (opt_reset arg) = cmd_create cl (codes "reset %s") (some arg) false
option_command cl opt_list = cmd_create cl (codes "nodes") none false
option_command cl (opt_query arg) = cmd_create cl (codes "status %s") (some arg) false
option_command cl opt_query_all = cmd_create cl (codes "status") none false
option_command cl (opt_flash arg) = cmd_create cl (codes "flash %s") (some arg) false
option_command cl (opt_unflash arg) = cmd_create cl (codes "unflash %s") (some arg) false
option_command cl (opt_beacon arg) = cmd_create cl (codes "beacon %s") (some arg) false
option_command cl opt_beacon_all = cmd_create cl (codes "beacon") none false
option_command cl (opt_temp arg) = cmd_create cl (codes "temp %s") (some arg) false
option_command cl opt_temp_all = cmd_create cl (codes "temp") none false
option_command cl (opt_device arg) = cmd_create cl (codes "device %s") (some arg) false
option_command cl opt_device_all = cmd_create cl (codes "device") none false
option_command cl opt_telemetry = cmd_create cl (codes "telemetry") none true
option_command cl opt_exprange = cmd_create cl (codes "exprange") none true

-- The getopt loop of main over the options that make commands.
unfoldable pub option_commands : List Cmd → List Opt → Option (List Cmd)
unfolding option_command
option_commands cl [] = some cl
option_commands cl (o ∷ os) = elim (option_command cl o) [
  | none ↦ none
  | some cl' ↦ option_commands cl' os
]

-- The format that takes targets in place of one that does not.
unfoldable pub targets_fmt : CStr → Option CStr
unfolding str_eq
targets_fmt fmt' =
    if str_eq fmt' (codes "status")
    then some (codes "status %s")
    else if str_eq fmt' (codes "beacon")
    then some (codes "beacon %s")
    else if str_eq fmt' (codes "device")
    then some (codes "device %s")
    else if str_eq fmt' (codes "temp")
    then some (codes "temp %s")
    else none

-- _cmd_append; none where it exits with "option takes no arguments".
unfoldable pub cmd_append : Cmd → CStr → Option Cmd
unfolding argv_create argv_append targets_fmt
cmd_append cp arg = elim cp.argv [
  | some argv' ↦ some (record cp { argv = some (argv_append argv' arg) })
  | none ↦ elim (targets_fmt cp.fmt) [
    | none ↦ none
    | some fmt' ↦ elim (argv_create arg []) [
      | none ↦ none
      | some argv' ↦ some (record cp { fmt = fmt'; argv = some argv' })
    ]
  ]
]

unfoldable pub append_all : Cmd → List CStr → Option Cmd
unfolding cmd_append
append_all cp [] = some cp
append_all cp (arg ∷ args) = elim (cmd_append cp arg) [
  | none ↦ none
  | some cp' ↦ append_all cp' args
]

-- "additional arguments are more targets for last command"
unfoldable pub append_to_last : List Cmd → List CStr → Option (List Cmd)
unfolding append_all
append_to_last [] args = if is_empty args then some [] else none
append_to_last (cp ∷ []) args = elim (append_all cp args) [
  | none ↦ none
  | some cp' ↦ some (cp' ∷ [])
]
append_to_last (cp ∷ next ∷ cl) args = elim (append_to_last (next ∷ cl) args) [
  | none ↦ none
  | some cl' ↦ some (cp ∷ cl')
]

-- The loop of _cmd_prepare; none where hostlist_push inserts no host.
unfoldable pub push_targets : Hostlist → List CStr → List CStr → Option (List CStr)
push_targets hostlist hl [] = some hl
push_targets hostlist hl (arg ∷ argv) = elim (hostlist.create arg) [
  | none ↦ none
  | some [] ↦ none
  | some (h ∷ hs) ↦ push_targets hostlist (hostlist.push hl arg) argv
]

-- The text of the targets, in a buffer of CP_LINEMAX bytes.
unfoldable pub targets_text : Hostlist → Option (List CStr) → Option CStr
unfolding push_targets
targets_text hostlist none = some []
targets_text hostlist (some argv) = elim (push_targets hostlist [] argv) [
  | none ↦ none
  | some hl ↦
      let text = hostlist.ranged_string hl in
      if leb cp_linemax (length text) then none else some text
]

-- _cmd_prepare without genders; none where it exits with "hostlist error".
unfoldable pub cmd_prepare : Hostlist → Cmd → Option Cmd
unfolding targets_text format
cmd_prepare hostlist cp = elim (targets_text hostlist cp.argv) [
  | none ↦ none
  | some text ↦ some (record cp { sendstr = some (format cp.fmt text) })
]

unfoldable pub cmd_prepare_all : Hostlist → List Cmd → Option (List Cmd)
unfolding cmd_prepare
cmd_prepare_all hostlist [] = some []
cmd_prepare_all hostlist (cp ∷ cl) =
    let rest = cmd_prepare_all hostlist cl in
    elim (cmd_prepare hostlist cp) [
      | none ↦ none
      | some cp' ↦ elim rest [ none ↦ none | some cl' ↦ some (cp' ∷ cl') ]
    ]

-- main up to the connection: the options, the remaining arguments, and the commands, none where the
-- program exits.
unfoldable pub prepared : Hostlist → List Opt → List CStr → Option (List Cmd)
unfolding option_commands append_to_last cmd_prepare_all
prepared hostlist os args = elim (option_commands [] os) [
  | none ↦ none
  | some [] ↦ none
  | some (cp ∷ cl) ↦ elim (append_to_last (cp ∷ cl) args) [
    | none ↦ none
    | some cl' ↦ cmd_prepare_all hostlist cl'
  ]
]
