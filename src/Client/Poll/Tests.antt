-- ===== src/Client/Poll/Tests.antt =====
-- A run of cli_post_poll at concrete inputs.
use powerman.Base.{
  ◌≤◌, ℕ, ◌≡◌, ◌<◌, refl, ◌==◌, true, false, List, [], ◌∷◌, ◌++◌, Option, none, some, arith,
  if◌then◌else◌, length, inl, inr, Bool-cases, Option-cases,
}
use powerman.CStr.{CStr, codes}
use powerman.Samples.{hosts, dev, idle_client, idle_world}
use powerman.Device.{Device}
use powerman.Client.{World, find_client}
use powerman.Client.Input.Balance.{AllBalanced}
use powerman.Client.Poll.{
  new_client, ClientIo, accepted, accept_clients, cli_post_poll, cli_pre_poll,
}
use powerman.Client.Poll.Clients.{Distinct}
use powerman.Client.Poll.Serve.{Sound}
use powerman.Client.Poll.Balance.{Numbered, cli_post_poll-Sound}

abbrev put_byte : ℕ → Option (CStr × List ℕ) → Option (CStr × List ℕ)
put_byte c none = none
put_byte c (some (line, rest)) = some (c ∷ line, rest)

-- A line up to its newline.
abbrev newline_line : List ℕ → Option (CStr × List ℕ)
newline_line [] = none
newline_line (c ∷ cs) = elim (c == 10) [
  | true ↦ some (c ∷ [], cs)
  | false ↦ put_byte c (newline_line cs)
]

newline_line_consumes :
    (buf : List ℕ) (line : CStr) (rest : List ℕ)
    → newline_line buf ≡ some (line, rest)
    → length rest < length buf
newline_line_consumes [] line rest h = cc
newline_line_consumes (c ∷ cs) line rest h = elim (Option-cases (newline_line cs)) [
  | inl e ↦ ground (arith, e)
  | inr ((l, r), e) ↦ ground (arith, e, newline_line_consumes cs l r e)
]

-- The client asks to power on t1, and another one connects.
abbrev io : ClientIo
io = record {
  revents = λ fd. record { bad = false; readable = true; writable = false };
  accept = λ fd. accepted 9;
  read = λ c. if c.client_id == 7 then some (codes "on t1" ++ 10 ∷ []) else none;
  write = λ c. some (record { responses = []; written = 0 });
  flush = λ to. to;
  read_line = newline_line;
  read_line_consumes = newline_line_consumes;
}

abbrev listening : List (Option ℕ)
listening = some 4 ∷ none ∷ []

abbrev admitted : World
admitted = record idle_world { clients = idle_client ∷ new_client 8 9 none ∷ []; cli_id_seq = 9 }

accepts_one : accept_clients io idle_world listening ≡ some admitted
unfolding accept_clients
accepts_one = refl

idle_Sound : Sound (dev ∷ []) idle_world
unfolding find_client
idle_Sound = (
  (λ i. elim (Bool-cases (7 == i)) [ inl e ↦ ground (arith, e) | inr e ↦ ground (arith, e) ]),
  (refl, tt),
)

idle_Numbered : Numbered 2 (dev ∷ []) idle_world
idle_Numbered = ((omega arith, tt), (λ i h. refl), omega arith)

cli_post_poll-Sound_example :
    (r : List Device × World) × (cli_post_poll io hosts listening (dev ∷ []) idle_world ≡ some r)
    × AllBalanced r.0 r.1
    × Distinct r.1.clients
    × Numbered 0 r.0 r.1
    × (r.1.cli_id_seq ≤ 10)
cli_post_poll-Sound_example =
    cli_post_poll-Sound io hosts listening (dev ∷ []) idle_world admitted accepts_one idle_Sound
      idle_Numbered

-- A listening socket that could not be made is polled for all the same.
polls_no_fd :
    cli_pre_poll listening (idle_client ∷ [])
    ≡ (some 4, false) ∷ (none, false) ∷ (some 3, false) ∷ []
unfolding cli_pre_poll
polls_no_fd = refl
