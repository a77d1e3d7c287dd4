-- ===== src/Client/Poll/Serve.antt =====
-- What the clients wait for, when the main loop serves them: reading, lines of input, writing, dying.
use mathlib.Core.Path.{subst}
use powerman.Base.{
  ℕ, zero, suc, ◌<◌, ◌≤◌, ◌≡◌, refl, ap, ◌∙◌, sym, inl, inr, ◌==◌, List, [], ◌∷◌, Option, none,
  some, arith, length, Bool-cases, Option-cases, if_both, ◌⊎◌,
}
use powerman.CStr.{CStr}
use powerman.Hostlist.{Hostlist}
use powerman.Device.{Device}
use powerman.Device.Enqueue.Counting.{owed_by}
use powerman.Client.{Client, World, find_client, set_client}
use powerman.Client.Finish.Pending.{
  ClientPending, find_client-id, find-set_client_self, set_client-Pending,
}
use powerman.Client.Input.{parse_input}
use powerman.Client.Input.Balance.{AllBalanced, parse_input_balanced}
use powerman.Client.Poll.{
  ClientIo, delete_client, destroy_client, handle_input, reap_client, handle_read, handle_write,
  poll_client, post_poll_client, serve_clients,
}
use powerman.Client.Poll.Input.{parse_input-Rewritten}
use powerman.Client.Poll.Clients.{
  Distinct, Below, set_client-Below, delete_client-Below, found-Below, set_client-Distinct,
  find-delete_client_other, find-delete_client_self, delete_client-Distinct,
}

-- The clients have different ids, and wait for what the queues owe them.
abbrev pub Sound : List Device → World → Type 0
Sound devs w = AllBalanced devs w × Distinct w.clients

-- Besides, the ids of the clients and of the callbacks lie below the counter of ids, which is `n`.
abbrev pub Served : ℕ → List Device → World → Type 0
Served n devs w =
    Sound devs w × Below n w.clients × ((i : ℕ) → n ≤ i → owed_by i devs ≡ 0) × (w.cli_id_seq ≡ n)

-- A write to a client that keeps its id and its command.
set_client-Sound :
    (devs : List Device) (w : World) (c c' : Client)
    → find_client w.clients c.client_id ≡ some c
    → c'.client_id ≡ c.client_id
    → c'.cmd ≡ c.cmd
    → Sound devs w
    → Sound devs (record w { clients = set_client w.clients c.client_id c' })
set_client-Sound devs w c c' h id cmd (b, d) = (
  (λ i. set_client-Pending w c.client_id i (owed_by i devs) c c' h id cmd (b i)),
  set_client-Distinct w.clients c.client_id c' id d,
)

-- A client that is destroyed waits for nothing any more, whatever the queues owe it.
destroy_client-Sound :
    (devs : List Device) (w : World) (c : Client) → Sound devs w → Sound devs (destroy_client w c)
unfolding destroy_client
destroy_client-Sound devs w c (b, d) = (
  (λ i. elim (Bool-cases (c.client_id == i)) [
    | inl e ↦
        let same : c.client_id ≡ i = ground arith in
        subst (λ o. ClientPending o (owed_by i devs))
          (sym (
            ap (find_client (delete_client w.clients c.client_id)) (sym same)
            ∙ find-delete_client_self w.clients c.client_id d))
          tt
    | inr e ↦
        subst (λ o. ClientPending o (owed_by i devs))
          (sym (find-delete_client_other w.clients c.client_id i (ground arith))) (b i)
  ]),
  delete_client-Distinct w.clients c.client_id d,
)

destroy_client-Served :
    (n : ℕ) (devs : List Device) (w : World) (c : Client)
    → Served n devs w
    → Served n devs (destroy_client w c)
unfolding destroy_client
destroy_client-Served n devs w c (s, below, unowed, seq) = (
  destroy_client-Sound devs w c s,
  delete_client-Below w.clients n c.client_id below,
  unowed,
  seq,
)

set_client-Served :
    (n : ℕ) (devs : List Device) (w : World) (c c' : Client)
    → find_client w.clients c.client_id ≡ some c
    → c'.client_id ≡ c.client_id
    → c'.cmd ≡ c.cmd
    → Served n devs w
    → Served n devs (record w { clients = set_client w.clients c.client_id c' })
set_client-Served n devs w c c' h id cmd (s, below, unowed, seq) = (
  set_client-Sound devs w c c' h id cmd s,
  set_client-Below w.clients n c.client_id c' id below,
  unowed,
  seq,
)

reap_client-Served :
    (n : ℕ) (devs : List Device) (w : World) (id : ℕ)
    → Served n devs w
    → Served n devs (reap_client w id)
unfolding reap_client
reap_client-Served n devs w id h = elim (Option-cases (find_client w.clients id)) [
  | inl e ↦ rw (e, reap_client) h
  | inr (c, e) ↦
      rw (e, reap_client)
        (if_both (Served n devs) c.client_quit _ _ (destroy_client-Served n devs w c h) h)
]

-- A run that returned.
unfoldable pub Returned : ℕ → Option (List Device × World) → Type 0
Returned n none = ⊥
Returned n (some (devs, w)) = Served n devs w

Returned-reap :
    (n id : ℕ) (o : Option (List Device × World))
    → Returned n o
    → Returned n (elim o [ none ↦ none | some (devs, w) ↦ some (devs, reap_client w id) ])
unfolding Returned
Returned-reap n id none h = h
Returned-reap n id (some (devs, w)) h = reap_client-Served n devs w id h

module _ (n : ℕ) (io : ClientIo) (hostlist : Hostlist) where
  abbrev after_line : List Device → World → Client → CStr → List ℕ → List Device × World
  after_line devs w c line rest =
      let c' = record c { from = rest } in
      parse_input hostlist io.flush devs
        (record w { clients = set_client w.clients c.client_id c' }) c' line

  handle_input-stop :
      (fuel : ℕ) (devs : List Device) (w : World) (c : Client)
      → find_client w.clients c.client_id ≡ some c
      → io.read_line c.from ≡ none
      → handle_input (suc fuel) io hostlist devs w c.client_id ≡ some (devs, w)
  unfolding handle_input
  handle_input-stop fuel devs w c found none' = rw (found, handle_input) (rw none' refl)

  handle_input-line :
      (fuel : ℕ) (devs : List Device) (w : World) (c : Client) (line : CStr) (rest : List ℕ)
      → find_client w.clients c.client_id ≡ some c
      → io.read_line c.from ≡ some (line, rest)
      → let r = after_line devs w c line rest in
        handle_input (suc fuel) io hostlist devs w c.client_id
        ≡ handle_input fuel io hostlist r.0 r.1 c.client_id
  unfolding handle_input
  handle_input-line fuel devs w c line rest found e = rw (found, handle_input) (rw e refl)

  after_line-Served :
      (devs : List Device) (w : World) (c : Client) (line : CStr) (rest : List ℕ)
      → find_client w.clients c.client_id ≡ some c
      → Served n devs w
      → let r = after_line devs w c line rest in
        Served n r.0 r.1
        × ((c' : Client) × (find_client r.1.clients c.client_id ≡ some c') × (c'.from ≡ rest))
  after_line-Served devs w c line rest found h =
      let c1 = record c { from = rest } in
      let w1 = record w { clients = set_client w.clients c.client_id c1 } in
      let (s1, below1, unowed1, seq1) = set_client-Served n devs w c c1 found refl refl h in
      let found1 = find-set_client_self w.clients c.client_id c c1 refl found in
      let b = parse_input_balanced hostlist io.flush devs w1 c1 line found1 s1.0 in
      let (c2, clients, id, from, seq, others) =
        parse_input-Rewritten hostlist io.flush devs w1 c1 line in
      let own = found-Below w.clients n c.client_id c found h.1 in
      (
        (
          (b, subst Distinct (sym clients) (set_client-Distinct w1.clients c.client_id c2 id s1.1)),
          subst (Below n) (sym clients) (set_client-Below w1.clients n c.client_id c2 id below1),
          (λ i above. others i (omega (arith, own, above)) ∙ unowed1 i above),
          seq ∙ seq1,
        ),
        (
          c2,
          ap (λ cs. find_client cs c.client_id) clients
              ∙ find-set_client_self w1.clients c.client_id c1 c2 id found1,
          from,
        ),
      )

  -- The loop ends, as each line that is read leaves less input.
  handle_input-Returned :
      (fuel : ℕ) (devs : List Device) (w : World) (c : Client)
      → find_client w.clients c.client_id ≡ some c
      → length c.from < fuel
      → Served n devs w
      → Returned n (handle_input fuel io hostlist devs w c.client_id)
  unfolding Returned
  handle_input-Returned zero devs w c found enough h = absurd (omega arith)
  handle_input-Returned (suc fuel) devs w c found enough h =
      elim (Option-cases (io.read_line c.from)) [
        | inl e ↦ subst (Returned n) (sym (handle_input-stop fuel devs w c found e)) h
        | inr ((line, rest), e) ↦
            let (h', (c', found', from)) = after_line-Served devs w c line rest found h in
            let r = after_line devs w c line rest in
            let id = find_client-id r.1.clients c.client_id c' found' in
            let less : length c'.from < fuel = omega (
              arith,
              io.read_line_consumes c.from line rest e,
              ap (λ (x : List ℕ). length x) from,
            ) in
            subst (Returned n) (sym (handle_input-line fuel devs w c line rest found e)) (
              subst (λ i. Returned n (handle_input fuel io hostlist r.0 r.1 i)) id
                (handle_input-Returned fuel r.0 r.1 c'
                  (subst (λ i. find_client r.1.clients i ≡ some c') (sym id) found') less h'))
      ]

  poll_client-keeps :
      (c : Client)
      → (poll_client io c ≡ none)
        ⊎ ((c' : Client) × (poll_client io c ≡ some c')
            × (c'.client_id ≡ c.client_id)
            × (c'.cmd ≡ c.cmd))
  unfolding poll_client handle_read handle_write
  poll_client-keeps c = elim (Option-cases (poll_client io c)) [
    | inl e ↦ inl e
    | inr (c', e) ↦ inr (c', e, ground arith, ground arith)
  ]

  post_poll_client-Returned :
      (devs : List Device) (w : World) (c : Client)
      → find_client w.clients c.client_id ≡ some c
      → Served n devs w
      → Returned n (post_poll_client io hostlist devs w c)
  unfolding post_poll_client Returned
  post_poll_client-Returned devs w c found h = elim (poll_client-keeps c) [
    | inl e ↦ rw (e, post_poll_client) (destroy_client-Served n devs w c h)
    | inr (c', e, id, cmd) ↦
        let w' = record w { clients = set_client w.clients c.client_id c' } in
        let run = λ (i : ℕ). handle_input (suc (length c'.from)) io hostlist devs w' i in
        let found' = find-set_client_self w.clients c.client_id c c' id found in
        let all : Returned n (run c'.client_id) =
          handle_input-Returned (suc (length c'.from)) devs w' c'
            (subst (λ i. find_client w'.clients i ≡ some c') (sym id) found') (omega arith)
            (set_client-Served n devs w c c' found id cmd h) in
        rw (e, post_poll_client)
          (Returned-reap n c.client_id (run c.client_id) (subst (λ i. Returned n (run i)) id all))
  ]

  -- The clients of the loop that are gone when it reaches them are passed over.
  pub serve_clients-Returned :
      (ids : List ℕ) (devs : List Device) (w : World)
      → Served n devs w
      → Returned n (serve_clients io hostlist ids devs w)
  unfolding serve_clients Returned
  serve_clients-Returned [] devs w h = h
  serve_clients-Returned (id ∷ ids) devs w h = elim (Option-cases (find_client w.clients id)) [
    | inl e ↦ rw (e, serve_clients) (serve_clients-Returned ids devs w h)
    | inr (c, e) ↦
        let own = find_client-id w.clients id c e in
        let found = subst (λ i. find_client w.clients i ≡ some c) (sym own) e in
        let one = post_poll_client-Returned devs w c found h in
        elim (Option-cases (post_poll_client io hostlist devs w c)) [
          | inl o ↦ absurd (subst (Returned n) o one)
          | inr ((devs', w'), o) ↦
              rw (e, serve_clients)
                (rw o (serve_clients-Returned ids devs' w' (subst (Returned n) o one)))
        ]
  ]
