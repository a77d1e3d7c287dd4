-- ===== src/Client/Poll.antt =====
-- client.c: the clients' side of the main loop. New connections, reading and writing, the lines of
-- input, and the end of a client.
mod Input
mod Clients
mod Serve
pub mod Balance
mod Tests
use powerman.Base.{
  ℕ, zero, suc, ◌+◌, ◌<◌, ◌≡◌, Bool, true, false, ◌||◌, ◌&&◌, not, List, [], ◌∷◌, ◌++◌, Option,
  none, some, if◌then◌else◌, ◌==◌, length, is_some, is_empty, map,
}
use powerman.CStr.{CStr}
use powerman.Conf.{Conf}
use powerman.Hostlist.{Hostlist}
use powerman.Arglist.{arglist_unlink}
use powerman.Device.{Device}
use powerman.Client
use powerman.Client.{
  Output, Response, Client, World, client_printf, next_cli_id, find_client, set_client,
}
use powerman.Client.Input.{parse_input}

-- What the poll call found for a file descriptor: an error, a hangup or an invalid descriptor;
-- readable; writable.
pub record Revents : Type 0 where
  pub bad : Bool
  pub readable : Bool
  pub writable : Bool

-- What accept() and the checks after it make of a new connection: a file descriptor; an error that
-- ends the client at once; or one that ends the daemon.
pub data Accepted : Type 0 where
  accepted : ℕ → Accepted
  rejected : Accepted
  fatal : Accepted

-- The input and output of the clients. `read` is the input buffer that cbuf_write_from_fd leaves,
-- none for a result that is not positive; `write` is the output that cbuf_read_to_fd leaves, none for
-- an error, and `flush` what it leaves of a last write. read_line is cbuf_read_line(buf, ..., 1): a
-- line and what is left of the buffer, none if the buffer has no whole line; it consumes the line.
pub record ClientIo : Type 0 where
  pub revents : ℕ → Revents
  pub accept : ℕ → Accepted
  pub read : Client → Option (List ℕ)
  pub write : Client → Option Output
  pub flush : Output → Output
  pub read_line : List ℕ → Option (CStr × List ℕ)
  pub read_line_consumes :
      (buf : List ℕ) (line : CStr) (rest : List ℕ)
      → read_line buf ≡ some (line, rest)
      → length rest < length buf

-- A client that has just connected.
abbrev pub new_client : ℕ → ℕ → Option ℕ → Client
new_client id fd ofd = record {
  fd = some fd;
  ofd = ofd;
  to = record { responses = Client.version ∷ Client.prompt ∷ []; written = 0 };
  from = [];
  cmd = none;
  client_id = id;
  telemetry = false;
  exprange = false;
  client_quit = false;
}

-- _create_client_socket: none if the daemon exits.
unfoldable pub create_client_socket : ClientIo → World → ℕ → Option World
unfolding next_cli_id
create_client_socket io w listen_fd =
    let (id, seq) = next_cli_id w.cli_id_seq in
    elim (io.accept listen_fd) [
      | fatal ↦ none
      | rejected ↦ some (record w { cli_id_seq = seq })
      | accepted fd ↦
          some (record w { clients = w.clients ++ new_client id fd none ∷ []; cli_id_seq = seq })
    ]

unfoldable pub create_client_stdio : World → World
unfolding next_cli_id
create_client_stdio w =
    let (id, seq) = next_cli_id w.cli_id_seq in
    record w { clients = w.clients ++ new_client id 0 (some 1) ∷ []; cli_id_seq = seq }

unfoldable pub handle_read : ClientIo → Client → Client
handle_read io c = elim (io.read c) [
  | none ↦ record c { client_quit = true }
  | some from ↦ record c { from = from }
]

unfoldable pub handle_write : ClientIo → Client → Client
handle_write io c = elim (io.write c) [
  | none ↦ record c { client_quit = true }
  | some to ↦ record c { to = to }
]

-- The client after the handlers of one file descriptor, `reads` and `writes` being whether the
-- descriptor is readable and writable.
unfoldable pub handle_ready : ClientIo → Client → Bool → Bool → Client
unfolding handle_read handle_write
handle_ready io c reads writes =
    let c' = if reads then handle_read io c else c in if writes then handle_write io c' else c'

-- The part of cli_post_poll for c->fd: none where it goes to client_dead.
unfoldable pub poll_fd : ClientIo → Client → Option Client
unfolding handle_ready
poll_fd io c = elim c.fd [
  | none ↦ some c
  | some fd ↦
      let flags = io.revents fd in
      if flags.bad then none else some (handle_ready io c flags.readable flags.writable)
]

-- The part for c->ofd.
unfoldable pub poll_ofd : ClientIo → Client → Option Client
unfolding handle_ready
poll_ofd io c = elim c.ofd [
  | none ↦ some c
  | some ofd ↦
      let flags = io.revents ofd in
      if flags.bad || not (is_some c.fd)
      then none
      else some (handle_ready io c false flags.writable)
]

unfoldable pub poll_client : ClientIo → Client → Option Client
unfolding poll_fd poll_ofd
poll_client io c = elim (poll_fd io c) [ none ↦ none | some c' ↦ poll_ofd io c' ]

-- list_delete of a client, and _destroy_client; the devices keep its actions.
unfoldable pub delete_client : List Client → ℕ → List Client
delete_client [] id = []
delete_client (c ∷ cs) id = if c.client_id == id then cs else c ∷ delete_client cs id

unfoldable pub destroy_client : World → Client → World
unfolding delete_client arglist_unlink
destroy_client w c = record w {
  clients = delete_client w.clients c.client_id;
  args = elim c.cmd [ none ↦ w.args | some cmd ↦ arglist_unlink w.args cmd.arglist ];
}

-- The loop of _handle_input for the client `id`; none if the fuel runs out.
unfoldable pub handle_input :
    ℕ → ClientIo → Hostlist → List Device → World → ℕ → Option (List Device × World)
handle_input zero io hostlist devs w id = none
handle_input (suc fuel) io hostlist devs w id = elim (find_client w.clients id) [
  | none ↦ some (devs, w)
  | some c ↦ elim (io.read_line c.from) [
    | none ↦ some (devs, w)
    | some (line, rest) ↦
        let c' = record c { from = rest } in
        let w' = record w { clients = set_client w.clients id c' } in
        let (devs', w'') = parse_input hostlist io.flush devs w' c' line in
        handle_input fuel io hostlist devs' w'' id
  ]
]

-- The end of the loop's body: a client that quit is dead.
unfoldable pub reap_client : World → ℕ → World
unfolding destroy_client
reap_client w id = elim (find_client w.clients id) [
  | none ↦ w
  | some c ↦ if c.client_quit then destroy_client w c else w
]

-- The body of the second loop of cli_post_poll; the fuel is that of _handle_input.
unfoldable pub post_poll_client :
    ClientIo → Hostlist → List Device → World → Client → Option (List Device × World)
unfolding poll_client destroy_client handle_input reap_client
post_poll_client io hostlist devs w c = elim (poll_client io c) [
  | none ↦ some (devs, destroy_client w c)
  | some c' ↦
      let w' = record w { clients = set_client w.clients c.client_id c' } in
      elim (handle_input (suc (length c'.from)) io hostlist devs w' c.client_id) [
        | none ↦ none
        | some (devs', w'') ↦ some (devs', reap_client w'' c.client_id)
      ]
]

-- The loop, over the ids of the clients that the iterator has not reached.
unfoldable pub serve_clients :
    ClientIo → Hostlist → List ℕ → List Device → World → Option (List Device × World)
unfolding post_poll_client
serve_clients io hostlist [] devs w = some (devs, w)
serve_clients io hostlist (id ∷ ids) devs w = elim (find_client w.clients id) [
  | none ↦ serve_clients io hostlist ids devs w
  | some c ↦ elim (post_poll_client io hostlist devs w c) [
    | none ↦ none
    | some (devs', w') ↦ serve_clients io hostlist ids devs' w'
  ]
]

-- The first loop, over the listening sockets; none for NO_FD.
unfoldable pub accept_clients : ClientIo → World → List (Option ℕ) → Option World
unfolding create_client_socket
accept_clients io w [] = some w
accept_clients io w (none ∷ fds) = accept_clients io w fds
accept_clients io w (some fd ∷ fds) =
    elim (if (io.revents fd).readable then create_client_socket io w fd else some w) [
      | none ↦ none
      | some w' ↦ accept_clients io w' fds
    ]

-- cli_post_poll: none if the daemon exits, or the fuel of an input loop runs out.
unfoldable pub cli_post_poll :
    ClientIo → Hostlist → List (Option ℕ) → List Device → World → Option (List Device × World)
unfolding accept_clients serve_clients
cli_post_poll io hostlist listen_fds devs w = elim (accept_clients io w listen_fds) [
  | none ↦ none
  | some w' ↦ serve_clients io hostlist (map (λ c. c.client_id) w'.clients) devs w'
]

-- What cli_pre_poll asks for: a file descriptor, and whether it is to write.
abbrev pub Interest : Type 0
Interest = List (Option ℕ × Bool)

unfoldable pub pre_poll_client : Client → Interest
pre_poll_client c = elim c.fd [
  | none ↦ []
  | some fd ↦
      (some fd, false)
      ∷ (if is_empty c.to.responses
          then []
          else elim c.ofd [ none ↦ (some fd, true) ∷ [] | some ofd ↦ (some ofd, true) ∷ [] ])
]

unfoldable pub pre_poll_clients : List Client → Interest
unfolding pre_poll_client
pre_poll_clients [] = []
pre_poll_clients (c ∷ cs) = pre_poll_client c ++ pre_poll_clients cs

-- The call for a listening socket is not under the test for NO_FD.
unfoldable pub cli_pre_poll : List (Option ℕ) → List Client → Interest
unfolding pre_poll_clients
cli_pre_poll listen_fds cs = map (λ fd. (fd, false)) listen_fds ++ pre_poll_clients cs
