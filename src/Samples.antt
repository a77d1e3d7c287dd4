-- ===== src/Samples.antt =====
-- Concrete values for the tests: a device with two plugs, a client, and an environment.
use powerman.Base.{
  ℕ, ◌≡◌, refl, Bool, true, false, [], ◌∷◌, ◌++◌, Option, none, some, is_some, length,
}
use powerman.CStr.{CStr, codes, contains}
use powerman.Hostlist.{Hostlist, erase}
use powerman.Pluglist.{Plug}
use powerman.Arglist.{ArgStore, alloc, arglist_create}
use powerman.Commands
use powerman.Commands.{Com}
use powerman.Conf.{Conf}
use powerman.Client.{Client, World}
use powerman.Client.Finish.{act_esuccess}
use powerman.Device.{
  Stmts, send, expect, nil, cons, Action, ExecCtx, Device, Env, Link, dev_not_connected,
  dev_connected,
}
use powerman.Device.Statement.{Exec}

abbrev pub index_if : Bool → Option ℕ
index_if true = some 0
index_if false = none

pub index_if_lem : (b : Bool) → is_some (index_if b) ≡ b
index_if_lem true = refl
index_if_lem false = refl

-- A hostlist of one name.
abbrev pub hosts : Hostlist
hosts = record {
  create = λ s. some (s ∷ []);
  invalid_range = λ s. true;
  find = λ hl host. index_if (contains host hl);
  push = λ hl s. hl ++ s ∷ [];
  sort = λ hl. hl;
  ranged_string = λ hl. [];
  push_host = λ hl host. hl ++ host ∷ [];
  push_list = λ hl hl'. hl ++ hl';
  delete_host = λ hl host. erase host hl;
  push_host_appends = λ hl host. refl;
  push_list_appends = λ hl hl'. refl;
  delete_host_erases = λ hl host. refl;
  find_contains = λ hl host. index_if_lem (contains host hl);
}

abbrev pub t1 : CStr
t1 = codes "t1"

abbrev pub t2 : CStr
t2 = codes "t2"

abbrev pub plug1 : Plug
plug1 = record { name = codes "1"; node = some t1 }

abbrev pub plug2 : Plug
plug2 = record { name = codes "2"; node = some t2 }

-- "on" for one plug, "off" for all, and a login.
abbrev pub scripts : Com → Option Stmts
scripts Commands.pm_power_on = some (cons (send (codes "on %s")) (cons (expect (codes "ok")) nil))
scripts Commands.pm_power_off_all = some (cons (send (codes "off")) nil)
scripts Commands.pm_log_in = some (cons (expect (codes "login")) nil)
scripts _ = none

abbrev pub dev : Device
dev = record {
  name = codes "pdu";
  specname = codes "pdu2";
  connect_state = dev_connected;
  logged_in = true;
  xmatch = record { nmatch = 1; pmatch = []; str = none; result = false; used = false };
  fd = some 5;
  acts = [];
  timeout = 1_000_000;
  to = [];
  from = codes "ok";
  plugs = plug1 ∷ plug2 ∷ [];
  scripts = scripts;
  last_retry = 0;
  retry_count = 2;
  last_ping = 0;
  ping_period = 0;
  stat_successful_connects = 1;
  stat_successful_actions = 0;
}

abbrev pub link : Link
link = record {
  connect_state = dev_not_connected;
  fd = none;
  stat_successful_connects = 1;
  to = [];
}

-- Every expression matches all of a string, the clock stands at 500 microseconds, a buffer takes
-- what is written, and no connection is made.
abbrev pub env : Env
env = record {
  hostlist = hosts;
  regexec = λ re s. some (some (0, length s) ∷ []);
  hsprintf = λ fmt arg. fmt;
  memstr = λ s. s;
  timestr = λ t. [];
  cbuf_write = λ to s. some (to ++ s, 0);
  clock = λ i. 500;
  connect = λ i d. (link, false);
  finish_connect = λ i d. (link, false);
  disconnect = λ d. none;
  preprocess = λ d. d.from;
  short_circuit_delay = false;
}

abbrev pub conf : Conf
conf = record {
  nodes = t1 ∷ t2 ∷ [];
  aliases = record { name = codes "both"; hl = t1 ∷ t2 ∷ [] } ∷ [];
  listen = [];
}

abbrev pub idle_client : Client
idle_client = record {
  fd = some 3;
  ofd = some 3;
  to = record { responses = []; written = 0 };
  from = [];
  cmd = none;
  client_id = 7;
  telemetry = false;
  exprange = false;
  client_quit = false;
}

-- The client waits for one action, to power on t1.
abbrev pub waiting_client : Client
waiting_client = record idle_client {
  cmd =
      some (record {
        pm = Commands.pm_power_on;
        hl = t1 ∷ [];
        pending = 1;
        error = false;
        arglist = 0;
      });
}

abbrev pub no_args : ArgStore
no_args = record { next = 0; cell = λ p. none }

abbrev pub one_arglist : ArgStore
one_arglist = alloc no_args (arglist_create (t1 ∷ []))

abbrev pub idle_world : World
idle_world = record {
  args = no_args;
  clients = idle_client ∷ [];
  cli_id_seq = 8;
  conf = conf;
  reads = 0;
  aborted = false;
}

abbrev pub waiting_world : World
waiting_world = record {
  args = one_arglist;
  clients = waiting_client ∷ [];
  cli_id_seq = 8;
  conf = conf;
  reads = 0;
  aborted = false;
}

abbrev pub on_script : Stmts
on_script = cons (send (codes "on %s")) (cons (expect (codes "ok")) nil)

-- The action that the client waits for, at the start of its script.
abbrev pub ctx : ExecCtx
ctx = record {
  block = on_script;
  cur = some (send (codes "on %s"));
  stmtitr = cons (expect (codes "ok")) nil;
  plugs = some (plug1 ∷ []);
  plugitr = none;
  processing = false;
}

abbrev pub action : Action
action = record {
  pm = Commands.pm_power_on;
  exec = ctx ∷ [];
  complete_fun = true;
  vpf_fun = false;
  client_id = 7;
  errnum = act_esuccess;
  time_stamp = 100;
  delay_start = 100;
  arglist = some 0;
}

abbrev pub busy_dev : Device
busy_dev = record dev { acts = action ∷ [] }

abbrev pub exec : Exec
exec = record {
  dev = dev;
  act = action;
  e = ctx;
  w = waiting_world;
  timeout = 0;
  push = none;
  finished = false;
}
