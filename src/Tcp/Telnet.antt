-- ===== src/Tcp/Telnet.antt =====
-- device_tcp.c: the telnet state machine, which takes the telnet commands out of the input of a
-- device and answers the options.
pub mod Tokens
mod Loop
pub mod Preprocess
use powerman.Base.{
  ℕ, ◌||◌, ◌==◌, Bool, true, false, List, [], ◌∷◌, ◌++◌, Option, none, some, if◌then◌else◌, length,
  take, drop, ltb,
}
use powerman.CStr.{CStr}
use powerman.Tcp.{TcpDev, TelnetState, telnet_none, telnet_cmd, telnet_opt, max_dev_buf}

-- arpa/telnet.h
abbrev pub iac : ℕ
iac = 255

abbrev pub dont : ℕ
dont = 254

abbrev pub do_opt : ℕ
do_opt = 253

abbrev pub wont : ℕ
wont = 252

abbrev pub will : ℕ
will = 251

-- cbuf_write(buf, s, len, NULL): none for an error, else the buffer and the number of bytes dropped.
abbrev pub CbufWrite : Type 0
CbufWrite = List ℕ → CStr → Option (List ℕ × ℕ)

-- The buffer after cbuf_write.
unfoldable pub cbuf_put : CbufWrite → List ℕ → CStr → List ℕ
cbuf_put write buf s = elim (write buf s) [ none ↦ buf | some (buf', dropped) ↦ buf' ]

-- TELOPT_SGA and TELOPT_TM
unfoldable pub accepts : ℕ → Bool
accepts opt = opt == 3 || opt == 6

-- TELOPT_TTYPE, _NAWS, _NEW_ENVIRON, _XDISPLOC, _TSPEED, _ECHO, _LFLOW and _BINARY
unfoldable pub refuses : ℕ → Bool
refuses opt =
    opt == 24
    || (opt == 31
        || (opt == 39 || (opt == 35 || (opt == 32 || (opt == 1 || (opt == 33 || opt == 0))))))

unfoldable pub telnet_sendopt : CbufWrite → List ℕ → ℕ → ℕ → List ℕ
unfolding cbuf_put
telnet_sendopt write to cmd opt = cbuf_put write to (iac ∷ cmd ∷ opt ∷ [])

-- The output buffer after _telnet_recvopt.
unfoldable pub telnet_recvopt : CbufWrite → List ℕ → ℕ → ℕ → List ℕ
unfolding accepts refuses telnet_sendopt
telnet_recvopt write to cmd opt =
    if cmd == do_opt
    then (if accepts opt
        then telnet_sendopt write to will opt
        else if refuses opt
        then telnet_sendopt write to wont opt
        else to)
    else to

-- The variables of the loop of _telnet_preprocess: the state machine, the bytes kept so far
-- (device[0..k-1]) and the output buffer.
pub record Telnet : Type 0 where
  pub tstate : TelnetState
  pub tcmd : ℕ
  pub kept : List ℕ
  pub to : List ℕ

unfoldable pub is_option_command : ℕ → Bool
is_option_command c = c == dont || (c == do_opt || (c == will || c == wont))

-- The body of the loop, in each state.
unfoldable pub none_byte : Telnet → ℕ → Telnet
none_byte t c =
    if c == iac then record t { tstate = telnet_cmd } else record t { kept = t.kept ++ c ∷ [] }

unfoldable pub cmd_byte : Telnet → ℕ → Telnet
unfolding is_option_command
cmd_byte t c =
    if c == iac
    then record t { kept = t.kept ++ c ∷ []; tstate = telnet_none }
    else if is_option_command c
    then record t { tcmd = c; tstate = telnet_opt }
    else record t { tstate = telnet_none }

unfoldable pub opt_byte : CbufWrite → Telnet → ℕ → Telnet
unfolding telnet_recvopt
opt_byte write t c = record t { to = telnet_recvopt write t.to t.tcmd c; tstate = telnet_none }

unfoldable pub telnet_byte : CbufWrite → Telnet → ℕ → Telnet
unfolding none_byte cmd_byte opt_byte
telnet_byte write t c = elim t.tstate [
  | telnet_none ↦ none_byte t c
  | telnet_cmd ↦ cmd_byte t c
  | telnet_opt ↦ opt_byte write t c
]

unfoldable pub telnet_loop : CbufWrite → Telnet → List ℕ → Telnet
telnet_loop write t [] = t
telnet_loop write t (c ∷ cs) = telnet_loop write (telnet_byte write t c) cs

-- The state of the device, and its buffers `from` and `to`, after _telnet_preprocess.
unfoldable pub telnet_preprocess : CbufWrite → TcpDev → List ℕ → List ℕ → TcpDev × List ℕ × List ℕ
unfolding telnet_loop telnet_byte cbuf_put
telnet_preprocess write tcp from to =
    let peek = take max_dev_buf from in
    let t =
      telnet_loop write (record { tstate = tcp.tstate; tcmd = tcp.tcmd; kept = []; to = to })
        peek in
    (
      record tcp { tstate = t.tstate; tcmd = t.tcmd },
      if ltb (length t.kept) (length peek)
          then cbuf_put write (drop (length peek) from) t.kept
          else from,
      t.to,
    )
