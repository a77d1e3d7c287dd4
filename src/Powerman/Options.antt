-- ===== src/Powerman/Options.antt =====
-- The request that an option of powerman and the arguments behind the options make.
use mathlib.Core.List.{append_assoc, append-nil}
use powerman.Base.{
  ◌≡◌, refl, ap, ◌∙◌, sym, ◌||◌, Bool, true, false, List, [], ◌∷◌, ◌++◌, Option, none, some, arith,
  is_empty,
}
use powerman.CStr.{CStr, codes, str_eq}
use powerman.Hostlist.{Hostlist}
use powerman.Commands.{
  pm_status_plugs, pm_status_beacon, pm_status_temp, pm_power_on, pm_power_off, pm_beacon_on,
  pm_beacon_off, pm_power_cycle, pm_reset,
}
use powerman.Client.Input.{Line, list_nodes, telemetry, exprange, command, device, asks, unknown}
use powerman.Argv.{argv_append}
use powerman.Argv.Words.{words, argv_create-words}
use powerman.Libpowerman.{format}
use powerman.Powerman.{
  Cmd, Opt, opt_on, opt_off, opt_cycle, opt_reset, opt_query, opt_flash, opt_unflash, opt_beacon,
  opt_temp, opt_device, opt_list, opt_query_all, opt_beacon_all, opt_temp_all, opt_device_all,
  opt_telemetry, opt_exprange, cmd_create, option_command, option_commands, cmd_append, append_all,
  append_to_last, targets_text, cmd_prepare, cmd_prepare_all, prepared, targets_fmt,
}

-- The word that an option sends.
abbrev pub keyword : Opt → CStr
keyword (opt_on arg) = codes "on"
keyword (opt_off arg) = codes "off"
keyword (opt_cycle arg) = codes "cycle"
keyword (opt_reset arg) = codes "reset"
keyword (opt_query arg) = codes "status"
keyword (opt_flash arg) = codes "flash"
keyword (opt_unflash arg) = codes "unflash"
keyword (opt_beacon arg) = codes "beacon"
keyword (opt_temp arg) = codes "temp"
keyword (opt_device arg) = codes "device"
keyword opt_list = codes "nodes"
keyword opt_telemetry = codes "telemetry"
keyword opt_exprange = codes "exprange"
keyword opt_query_all = codes "status"
keyword opt_beacon_all = codes "beacon"
keyword opt_temp_all = codes "temp"
keyword opt_device_all = codes "device"

-- Whether an option may have targets.
abbrev pub takes_targets : Opt → Bool
takes_targets opt_list = false
takes_targets opt_telemetry = false
takes_targets opt_exprange = false
takes_targets _ = true

-- What an option asks the daemon for: with the text of its targets, and without targets.
abbrev pub asks_for : Opt → CStr → Line
asks_for (opt_on arg) t = asks pm_power_on t
asks_for (opt_off arg) t = asks pm_power_off t
asks_for (opt_cycle arg) t = asks pm_power_cycle t
asks_for (opt_reset arg) t = asks pm_reset t
asks_for (opt_query arg) t = asks pm_status_plugs t
asks_for (opt_flash arg) t = asks pm_beacon_on t
asks_for (opt_unflash arg) t = asks pm_beacon_off t
asks_for (opt_beacon arg) t = asks pm_status_beacon t
asks_for (opt_temp arg) t = asks pm_status_temp t
asks_for (opt_device arg) t = device (some t)
asks_for opt_query_all t = asks pm_status_plugs t
asks_for opt_beacon_all t = asks pm_status_beacon t
asks_for opt_temp_all t = asks pm_status_temp t
asks_for opt_device_all t = device (some t)
asks_for opt_list t = list_nodes
asks_for opt_telemetry t = telemetry
asks_for opt_exprange t = exprange

abbrev pub asks_all : Opt → Line
asks_all opt_list = list_nodes
asks_all opt_telemetry = telemetry
asks_all opt_exprange = exprange
asks_all opt_query_all = command pm_status_plugs none
asks_all opt_beacon_all = command pm_status_beacon none
asks_all opt_temp_all = command pm_status_temp none
asks_all opt_device_all = device none
asks_all (opt_query arg) = command pm_status_plugs none
asks_all (opt_beacon arg) = command pm_status_beacon none
asks_all (opt_temp arg) = command pm_status_temp none
asks_all (opt_device arg) = device none
asks_all _ = unknown

-- The targets of an option, and those with the arguments behind the options.
abbrev pub option_argv : Opt → Option (List CStr)
option_argv (opt_on arg) = some (words [] arg)
option_argv (opt_off arg) = some (words [] arg)
option_argv (opt_cycle arg) = some (words [] arg)
option_argv (opt_reset arg) = some (words [] arg)
option_argv (opt_query arg) = some (words [] arg)
option_argv (opt_flash arg) = some (words [] arg)
option_argv (opt_unflash arg) = some (words [] arg)
option_argv (opt_beacon arg) = some (words [] arg)
option_argv (opt_temp arg) = some (words [] arg)
option_argv (opt_device arg) = some (words [] arg)
option_argv _ = none

abbrev more_argv : Option (List CStr) → List CStr → Option (List CStr)
more_argv (some argv) args = some (argv ++ args)
more_argv none [] = none
more_argv none (arg ∷ args) = some (words [] arg ++ args)

abbrev pub targets : Opt → List CStr → Option (List CStr)
targets o args = more_argv (option_argv o) args

-- What an option asks for with these targets, and the request that it sends.
abbrev pub asked : Opt → Option (List CStr) → CStr → Line
asked o none t = asks_all o
asked o (some argv) t = asks_for o t

abbrev pub request_of : Opt → Option (List CStr) → CStr → CStr
request_of o none t = keyword o
request_of o (some argv) t = keyword o ++ 32 ∷ t

-- The command of an option with these targets.
abbrev cmd_with : Opt → Option (List CStr) → Cmd
cmd_with o none = record { fmt = keyword o; argv = none; sendstr = none }
cmd_with o (some argv') = record {
  fmt = keyword o ++ codes " %s";
  argv = some argv';
  sendstr = none;
}

create-targets :
    (fmt' arg : CStr)
    → cmd_create [] fmt' (some arg) false
      ≡ some (record { fmt = fmt'; argv = some (words [] arg); sendstr = none } ∷ [])
unfolding cmd_create
create-targets fmt' arg = rw (argv_create-words arg [], cmd_create) refl

option_command-cmd : (o : Opt) → option_command [] o ≡ some (cmd_with o (option_argv o) ∷ [])
unfolding option_command cmd_create
option_command-cmd (opt_on arg) = create-targets _ arg
option_command-cmd (opt_off arg) = create-targets _ arg
option_command-cmd (opt_cycle arg) = create-targets _ arg
option_command-cmd (opt_reset arg) = create-targets _ arg
option_command-cmd (opt_query arg) = create-targets _ arg
option_command-cmd (opt_flash arg) = create-targets _ arg
option_command-cmd (opt_unflash arg) = create-targets _ arg
option_command-cmd (opt_beacon arg) = create-targets _ arg
option_command-cmd (opt_temp arg) = create-targets _ arg
option_command-cmd (opt_device arg) = create-targets _ arg
option_command-cmd _ = refl

append_all-argv :
    (fmt' : CStr) (argv' args : List CStr)
    → append_all (record { fmt = fmt'; argv = some argv'; sendstr = none }) args
      ≡ some (record { fmt = fmt'; argv = some (argv' ++ args); sendstr = none })
unfolding append_all cmd_append argv_append
append_all-argv fmt' argv' [] =
    ap (λ v. some (record { fmt = fmt'; argv = some v; sendstr = none })) (sym (append-nil argv'))
append_all-argv fmt' argv' (arg ∷ args) =
    append_all-argv fmt' (argv' ++ arg ∷ []) args
    ∙ ap (λ v. some (record { fmt = fmt'; argv = some v; sendstr = none }))
        (append_assoc argv' (arg ∷ []) args)

cmd_append-first :
    (o : Opt) (arg : CStr)
    → takes_targets o ≡ true
    → option_argv o ≡ none
    → cmd_append (cmd_with o none) arg ≡ some (cmd_with o (some (words [] arg)))
unfolding cmd_append targets_fmt str_eq
cmd_append-first opt_query_all arg h e = rw (argv_create-words arg [], cmd_append) refl
cmd_append-first opt_beacon_all arg h e = rw (argv_create-words arg [], cmd_append) refl
cmd_append-first opt_temp_all arg h e = rw (argv_create-words arg [], cmd_append) refl
cmd_append-first opt_device_all arg h e = rw (argv_create-words arg [], cmd_append) refl
cmd_append-first opt_list arg h e = cc
cmd_append-first opt_telemetry arg h e = cc
cmd_append-first opt_exprange arg h e = cc
cmd_append-first _ arg h e = cc

append_all-more :
    (o : Opt) (argv' : Option (List CStr)) (args : List CStr)
    → argv' ≡ option_argv o
    → takes_targets o || is_empty args ≡ true
    → append_all (cmd_with o argv') args ≡ some (cmd_with o (more_argv argv' args))
unfolding append_all
append_all-more o (some argv') args e h = append_all-argv _ argv' args
append_all-more o none [] e h = refl
append_all-more o none (arg ∷ args) e h =
    rw (cmd_append-first o arg (ground (arith, h)) (sym e), append_all)
      (append_all-argv _ (words [] arg) args)

format-targets :
    (o : Opt) (t : CStr) → format (keyword o ++ codes " %s") t ≡ keyword o ++ (32 ∷ (t ++ []))
unfolding format
format-targets opt_list t = refl
format-targets _ t = refl

format-keyword : (o : Opt) (t : CStr) → format (keyword o) t ≡ keyword o
unfolding format
format-keyword opt_list t = refl
format-keyword _ t = refl

-- The command with the request that it sends.
abbrev pub sending : Opt → Option (List CStr) → CStr → Cmd
sending o argv' t = record (cmd_with o argv') { sendstr = some (request_of o argv' t) }

cmd_prepare-request :
    (hostlist : Hostlist) (o : Opt) (argv' : Option (List CStr)) (t : CStr)
    → targets_text hostlist argv' ≡ some t
    → cmd_prepare hostlist (cmd_with o argv') ≡ some (sending o argv' t)
unfolding cmd_prepare targets_text
cmd_prepare-request hostlist o none t h =
    ap (λ x. some (record (cmd_with o none) { sendstr = some x })) (format-keyword o [])
cmd_prepare-request hostlist o (some argv') t h =
    rw (h, cmd_prepare)
      (ap (λ x. some (record (cmd_with o (some argv')) { sendstr = some x }))
        (format-targets o t ∙ ap (λ x. keyword o ++ (32 ∷ x)) (append-nil t)))

pub prepared-request :
    (hostlist : Hostlist) (o : Opt) (args : List CStr) (t : CStr)
    → takes_targets o || is_empty args ≡ true
    → targets_text hostlist (targets o args) ≡ some t
    → prepared hostlist (o ∷ []) args ≡ some (sending o (targets o args) t ∷ [])
unfolding prepared option_commands append_to_last cmd_prepare_all
prepared-request hostlist o args t takes h =
    rw (option_command-cmd o, prepared, option_commands)
      (rw (append_all-more o (option_argv o) args refl takes, append_to_last)
        (rw (cmd_prepare-request hostlist o (targets o args) t h, cmd_prepare_all) refl))
