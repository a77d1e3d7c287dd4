-- ===== src/Client/Poll/Balance.antt =====
-- What the clients wait for, through the clients' side of the main loop.
use mathlib.Core.Path.{subst}
use powerman.Base.{
  ℕ, suc, ◌+◌, ◌≤◌, ◌<◌, ◌≡◌, refl, ap, ◌∙◌, sym, inl, inr, ◌==◌, List, [], ◌∷◌, ◌++◌, Option, none,
  some, arith, if◌then◌else◌, length, map, Option-cases, if_both, if_cases,
}
use powerman.Hostlist.{Hostlist}
use powerman.Device.{Device}
use powerman.Device.Enqueue.Counting.{owed_by}
use powerman.Client.{Client, World, find_client, int_max, next_cli_id}
use powerman.Client.Finish.Pending.{ClientPending, CmdPending}
use powerman.Client.Input.Balance.{AllBalanced}
use powerman.Client.Poll.{
  ClientIo, accepted, rejected, fatal, new_client, create_client_socket, accept_clients,
  cli_post_poll, serve_clients,
}
use powerman.Client.Poll.Clients.{
  Distinct, Below, find-Below, find-append_client, append_client-Distinct,
}
use powerman.Client.Poll.Serve.{Sound, Served, Returned, serve_clients-Returned}

-- The ids that clients and actions have lie below the counter, and `n` more will be at most `m`.
abbrev Room : ℕ → ℕ → List Device → World → Type 0
Room m n devs w =
    Below w.cli_id_seq w.clients
    × ((i : ℕ) → w.cli_id_seq ≤ i → owed_by i devs ≡ 0)
    × (w.cli_id_seq + n ≤ m)

-- The ids that clients and actions have lie below the counter, with room for `n` more.
abbrev pub Numbered : ℕ → List Device → World → Type 0
Numbered n devs w = Room int_max n devs w

append_client-Below :
    (cs : List Client) (c : Client) (n : ℕ)
    → Below n cs
    → c.client_id < n + 1
    → Below (n + 1) (cs ++ c ∷ [])
append_client-Below [] c n h k = (k, tt)
append_client-Below (x ∷ cs) c n h k = (omega arith, append_client-Below cs c n h.1 k)

appended-Pending :
    (o : Option Client) (c : Client) (i k : ℕ)
    → ClientPending o k
    → (c.client_id ≡ i → CmdPending c.cmd k)
    → ClientPending
        (elim o [ none ↦ if c.client_id == i then some c else none | some d ↦ some d ])
        k
appended-Pending (some d) c i k h f = h
appended-Pending none c i k h f =
    if_cases (λ o. ClientPending o k) (c.client_id == i) (some c) none (λ e. f (ground arith))
      (λ e. tt)

append_client-Sound :
    (devs : List Device) (w : World) (c : Client)
    → find_client w.clients c.client_id ≡ none
    → c.cmd ≡ none
    → owed_by c.client_id devs ≡ 0
    → Sound devs w
    → Sound devs (record w { clients = w.clients ++ c ∷ []; cli_id_seq = w.cli_id_seq + 1 })
append_client-Sound devs w c new free unowed (b, d) = (
  (λ i.
      subst (λ o. ClientPending o (owed_by i devs)) (sym (find-append_client w.clients c i))
        (appended-Pending (find_client w.clients i) c i (owed_by i devs) (b i) (λ same.
          subst (λ m. CmdPending m (owed_by i devs)) (sym free)
            (ap (λ j. owed_by j devs) (sym same) ∙ unowed)))),
  append_client-Distinct w.clients c new d,
)

abbrev Admitted : ℕ → ℕ → List Device → Option World → Type 0
Admitted m n devs o = elim o [ none ↦ Unit | some w ↦ Sound devs w × Room m n devs w ]

next_cli_id_lem : (seq n : ℕ) → seq + suc n ≤ int_max → next_cli_id seq ≡ (seq, seq + 1)
unfolding next_cli_id
next_cli_id_lem seq n h = ground arith

abbrev admit : World → ℕ × ℕ → ℕ → World
admit w (id, seq) fd = record w {
  clients = w.clients ++ new_client id fd none ∷ [];
  cli_id_seq = seq;
}

Below-suc : (n : ℕ) (cs : List Client) → Below n cs → Below (n + 1) cs
Below-suc n [] h = tt
Below-suc n (c ∷ cs) h = (omega arith, Below-suc n cs h.1)

next-Room :
    (m n : ℕ) (devs : List Device) (w : World)
    → Room m (suc n) devs w
    → Room m n devs (record w { cli_id_seq = w.cli_id_seq + 1 })
next-Room m n devs w (below, unowed, room) =
    (Below-suc w.cli_id_seq w.clients below, (λ i h. unowed i (omega arith)), omega arith)

create_client_socket-Admitted :
    (io : ClientIo) (m n : ℕ) (devs : List Device) (w : World) (fd : ℕ)
    → m ≤ int_max
    → Sound devs w
    → Room m (suc n) devs w
    → Admitted m n devs (create_client_socket io w fd)
unfolding create_client_socket
create_client_socket-Admitted io m n devs w fd small h (below, unowed, room) =
    let next = next_cli_id_lem w.cli_id_seq n (omega arith) in
    let more = next-Room m n devs w (below, unowed, room) in
    elim (io.accept fd)
      as (λ a. Admitted m n devs (elim a [
        | fatal ↦ none
        | rejected ↦ some (record w { cli_id_seq = (next_cli_id w.cli_id_seq).1 })
        | accepted fd' ↦ some (admit w (next_cli_id w.cli_id_seq) fd')
      ])) [
        | fatal ↦ tt
        | rejected ↦
            subst
              (λ p.
                Sound devs (record w { cli_id_seq = p.1 })
                × Room m n devs (record w { cli_id_seq = p.1 }))
              (sym next) (h, more)
        | accepted fd' ↦
            let c = new_client w.cli_id_seq fd' none in
            let fresh = find-Below w.clients w.cli_id_seq w.cli_id_seq below (omega arith) in
            subst (λ p. Sound devs (admit w p fd') × Room m n devs (admit w p fd')) (sym next)
              (
                append_client-Sound devs w c fresh refl (unowed w.cli_id_seq (omega arith)) h,
                (append_client-Below w.clients c w.cli_id_seq below (omega arith), more.1, more.2),
              )
      ]

abbrev SoundIf : ℕ → List Device → Option World → Type 0
SoundIf m devs none = Unit
SoundIf m devs (some w) = Sound devs w × Room m 0 devs w

accept_clients-Sound :
    (io : ClientIo) (m : ℕ) (devs : List Device) (w : World) (fds : List (Option ℕ))
    → m ≤ int_max
    → Sound devs w
    → Room m (length fds) devs w
    → SoundIf m devs (accept_clients io w fds)
unfolding accept_clients
accept_clients-Sound io m devs w [] small h k = (h, k)
accept_clients-Sound io m devs w (none ∷ fds) small h k =
    accept_clients-Sound io m devs w fds small h (k.0, k.1, omega (arith, k.2))
accept_clients-Sound io m devs w (some fd ∷ fds) small h k =
    let o = if (io.revents fd).readable then create_client_socket io w fd else some w in
    let one : Admitted m (length fds) devs o =
      if_both (Admitted m (length fds) devs) (io.revents fd).readable (create_client_socket io w fd)
        (some w) (create_client_socket-Admitted io m (length fds) devs w fd small h k)
        (h, (k.0, k.1, omega (arith, k.2))) in
    let rest = λ (x : Option World). elim x as (λ _. Option World) [
      | none ↦ none
      | some w' ↦ accept_clients io w' fds
    ] in
    elim (Option-cases o) [
      | inl e ↦ subst (λ x. SoundIf m devs (rest x)) (sym e) tt
      | inr (w', e) ↦
          let (h', k') = subst (Admitted m (length fds) devs) e one in
          subst (λ x. SoundIf m devs (rest x)) (sym e)
            (accept_clients-Sound io m devs w' fds small h' k')
    ]

-- cli_post_poll, unless the daemon exits while it accepts clients, returns: the loop over the input of
-- each client ends. Afterwards the clients still have different ids, and each waits for as many
-- actions as the queues of the devices have callbacks for it: those whose input was parsed, those
-- that connected, and those left when others died. Before, the same is to hold, the ids of clients
-- and callbacks are to lie below the counter of ids, and the counter is not to wrap around in this
-- round: with one more for each listening socket it is at most INT_MAX. Afterwards the ids lie below
-- the counter again, which has grown by at most the number of listening sockets.
pub cli_post_poll-Sound :
    (io : ClientIo) (hostlist : Hostlist) (fds : List (Option ℕ)) (devs : List Device)
    (w w' : World)
    → accept_clients io w fds ≡ some w'
    → Sound devs w
    → Numbered (length fds) devs w
    → (r : List Device × World) × (cli_post_poll io hostlist fds devs w ≡ some r)
      × AllBalanced r.0 r.1
      × Distinct r.1.clients
      × Numbered 0 r.0 r.1
      × (r.1.cli_id_seq ≤ w.cli_id_seq + length fds)
unfolding cli_post_poll Returned
cli_post_poll-Sound io hostlist fds devs w w' e h k =
    let ids = map (λ (c : Client). c.client_id) w'.clients in
    let n = w'.cli_id_seq in
    let m = w.cli_id_seq + length fds in
    let (sound, (below, unowed, room)) =
      subst (SoundIf m devs) e
        (accept_clients-Sound io m devs w fds k.2 h (k.0, k.1, omega arith)) in
    let ready : Served n devs w' = (sound, below, unowed, refl) in
    let all = serve_clients-Returned n io hostlist ids devs w' ready in
    elim (Option-cases (serve_clients io hostlist ids devs w')) [
      | inl o ↦ absurd (subst (Returned n) o all)
      | inr (r, o) ↦
          let (s, below', unowed', seq) = subst (Returned n) o all in
          let lower : (i : ℕ) → r.1.cli_id_seq ≤ i → owed_by i r.0 ≡ 0 =
            λ i a. unowed' i (omega (arith, seq, a)) in
          (
            r,
            rw (e, cli_post_poll) o,
            s.0,
            s.1,
            (
              subst (λ j. Below j r.1.clients) (sym seq) below',
              lower,
              omega (arith, seq, room, k.2),
            ),
            omega (arith, seq, room),
          )
    ]
