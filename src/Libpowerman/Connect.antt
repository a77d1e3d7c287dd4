-- ===== src/Libpowerman/Connect.antt =====
-- libpowerman.c: opening a connection to the daemon.
use powerman.Base.{ℕ, ◌==◌, List, [], ◌∷◌, Option, none, some, if◌then◌else◌, take, is_empty}
use powerman.CStr.{CStr, codes}
use powerman.Libpowerman.{PmErr, pm_esuccess, pm_enoaddr, pm_econnect}
use powerman.Libpowerman.Handle.{
  Connection, lines, err, overrun, waiting, server_recv_response, server_command,
}

-- _parse_hostport on a host that is given, before the buffers cut the parts short.
unfoldable pub split_port : CStr → CStr × Option CStr
split_port [] = ([], none)
split_port (c ∷ cs) =
    let (host, port) = split_port cs in if c == b':' then ([], some cs) else (c ∷ host, port)

unfoldable pub parse_hostport : Option CStr → CStr × CStr
unfolding split_port
parse_hostport s =
    let (host, port) = split_port (take 63 (elim s [ none ↦ codes "localhost" | some t ↦ t ])) in
    (host, elim port [ none ↦ codes "10101" | some p ↦ take 63 p ])

-- The loop over the addresses; `dial` is socket() and connect(), none for an error.
unfoldable pub connect_addrs : (ℕ → Option Connection) → List ℕ → Option Connection
connect_addrs dial [] = none
connect_addrs dial (addr ∷ addrs) =
    let rest = connect_addrs dial addrs in elim (dial addr) [ none ↦ rest | some conn ↦ some conn ]

-- _connect_to_server_tcp; `addrs` is getaddrinfo(), empty for an error.
unfoldable pub connect_to_server :
    (CStr → CStr → List ℕ) → (ℕ → Option Connection) → Option CStr → PmErr × Option Connection
unfolding parse_hostport connect_addrs
connect_to_server getaddrinfo dial server =
    let (host, port) = parse_hostport server in
    let addrs = getaddrinfo host port in
    if is_empty addrs then (pm_enoaddr, none) else elim (connect_addrs dial addrs) [
      | none ↦ (pm_econnect, none)
      | some conn ↦ (pm_esuccess, some conn)
    ]

-- What pm_connect does with an open connection.
unfoldable pub greet : Connection → Option PmErr × Option Connection
unfolding server_recv_response server_command
greet conn =
    let (out, conn') = server_recv_response conn in
    elim out [
      | lines resp ↦
          let (out', conn'') = server_command conn' (codes "exprange") [] in
          elim out' [
            | lines resp' ↦ (some pm_esuccess, some conn'')
            | err e ↦ (some e, none)
            | overrun ↦ (none, none)
            | waiting ↦ (none, none)
          ]
      | err e ↦ (some e, none)
      | overrun ↦ (none, none)
      | waiting ↦ (none, none)
    ]

-- The error and the handle; the handle's pointer is not NULL.
unfoldable pub pm_connect :
    (CStr → CStr → List ℕ)
    → (ℕ → Option Connection)
    → Option CStr
    → Option PmErr × Option Connection
unfolding connect_to_server greet
pm_connect getaddrinfo dial server =
    let (e, conn) = connect_to_server getaddrinfo dial server in
    elim conn [ none ↦ (some e, none) | some c ↦ greet c ]
