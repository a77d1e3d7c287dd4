-- ===== src/Device.antt =====
-- powermand/device.c and device_private.h: devices, their scripts, and the queue of actions. The
-- children hold the operations.
pub mod Enqueue
pub mod Timer
pub mod Connect
pub mod Statement
pub mod Process
pub mod Poll
mod Tests
use powerman.Base.{ℕ, ◌+◌, Bool, List, [], ◌∷◌, Option, none, some}
use powerman.CStr.{CStr}
use powerman.Hostlist.{Hostlist}
use powerman.Pluglist.{Plug}
use powerman.Arglist.{InterpState}
use powerman.Xregex.{Regexec, XregexMatch}
use powerman.Commands.{Com}
use powerman.Client.Finish.{ActError}

-- A regular expression is its text.
pub record Interp : Type 0 where
  pub state : InterpState
  pub re : CStr

-- Stmt and its union. A time is in microseconds; a match position is none for -1.
mutual
  pub data Stmt : Type 0 where
    send : CStr → Stmt
    expect : CStr → Stmt
    setplugstate : Option CStr → Option ℕ → Option ℕ → List Interp → Stmt
    delay : ℕ → Stmt
    foreachplug : Stmts → Stmt
    foreachnode : Stmts → Stmt
    ifoff : Stmts → Stmt
    ifon : Stmts → Stmt

  pub data Stmts : Type 0 where
    nil : Stmts
    cons : Stmt → Stmts → Stmts

-- `cur` and `stmtitr` are the current statement and those that the iterator has not reached;
-- `plugs` and `plugitr` are none for NULL, and `plugitr` holds the plugs not yet visited.
pub record ExecCtx : Type 0 where
  pub block : Stmts
  pub cur : Option Stmt
  pub stmtitr : Stmts
  pub plugs : Option (List Plug)
  pub plugitr : Option (List Plug)
  pub processing : Bool

-- `exec` is the stack, its top first. The callbacks are _act_finish and _telemetry_printf, or NULL.
-- A time is in microseconds, 0 where the timer is clear. `arglist` is a place in the store.
pub record Action : Type 0 where
  pub pm : Com
  pub exec : List ExecCtx
  pub complete_fun : Bool
  pub vpf_fun : Bool
  pub client_id : ℕ
  pub errnum : ActError
  pub time_stamp : ℕ
  pub delay_start : ℕ
  pub arglist : Option ℕ

pub data ConnectState : Type 0 where
  dev_not_connected dev_connecting dev_connected : ConnectState

-- What a connection method sets on the device.
pub record Link : Type 0 where
  pub connect_state : ConnectState
  pub fd : Option ℕ
  pub stat_successful_connects : ℕ
  pub to : List ℕ

-- `to` and `from` are the unread bytes of the buffers, `plugs` the plugs of the PlugList.
pub record Device : Type 0 where
  pub name : CStr
  pub specname : CStr
  pub connect_state : ConnectState
  pub logged_in : Bool
  pub xmatch : XregexMatch
  pub fd : Option ℕ
  pub acts : List Action
  pub timeout : ℕ
  pub to : List ℕ
  pub from : List ℕ
  pub plugs : List Plug
  pub scripts : Com → Option Stmts
  pub last_retry : ℕ
  pub retry_count : ℕ
  pub last_ping : ℕ
  pub ping_period : ℕ
  pub stat_successful_connects : ℕ
  pub stat_successful_actions : ℕ

-- What the device module calls outside device.c. A method of the device gets the number of earlier
-- readings of the environment, so that its outcome may differ from call to call.
pub record Env : Type 0 where
  pub hostlist : Hostlist
  pub regexec : Regexec
  -- hsprintf(fmt, arg), with none for NULL.
  pub hsprintf : CStr → Option CStr → CStr
  -- dbg_memstr of debug.c.
  pub memstr : CStr → CStr
  -- "%ld.%-6.6ld" of a time in microseconds.
  pub timestr : ℕ → CStr
  -- cbuf_write: none for an error, else the buffer and the number of bytes dropped.
  pub cbuf_write : List ℕ → CStr → Option (List ℕ × ℕ)
  -- The i-th reading of gettimeofday, in microseconds.
  pub clock : ℕ → ℕ
  -- dev->connect and dev->finish_connect: what they set, and their result.
  pub connect : ℕ → Device → Link × Bool
  pub finish_connect : ℕ → Device → Link × Bool
  -- dev->disconnect: the file descriptor that it leaves.
  pub disconnect : Device → Option ℕ
  -- dev->preprocess: the input buffer that it leaves (the device's own if there is no such method).
  pub preprocess : Device → List ℕ
  pub short_circuit_delay : Bool
