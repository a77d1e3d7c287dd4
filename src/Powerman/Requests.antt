-- ===== src/Powerman/Requests.antt =====
-- What the daemon makes of the requests that the options of powerman ask for.
use powerman.CStr.{CStr}
use powerman.Hostlist.{Hostlist}
