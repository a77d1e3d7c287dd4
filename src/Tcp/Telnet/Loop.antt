-- ===== src/Tcp/Telnet/Loop.antt =====
-- The loop of the telnet state machine meets the tokens of its input.
use mathlib.Core.List.{append_assoc, append-nil}
use powerman.Base.{
  ℕ, ◌≡◌, refl, ap, ◌∙◌, sym, inl, inr, ◌==◌, true, false, List, [], ◌∷◌, ◌++◌, arith, Bool-cases,
}
use powerman.Tcp.{telnet_none, telnet_cmd, telnet_opt}
use powerman.Tcp.Telnet.{
  CbufWrite, Telnet, iac, is_option_command, telnet_recvopt, none_byte, cmd_byte, opt_byte,
  telnet_byte, telnet_loop,
}
use powerman.Tcp.Telnet.Tokens.{
  Token, plain, after_iac, push, tokens, text, answers, state_after, tokens-plain, tokens-command,
  tokens-option,
}

abbrev pub Reads : CbufWrite → List ℕ → List ℕ → Telnet → List Token × List ℕ → Type 0
Reads write kept to t (ks, rest) =
    (t.kept ≡ kept ++ text ks) × (t.to ≡ answers write to ks) × (t.tstate ≡ state_after rest)

abbrev pub idle_at : ℕ → List ℕ → List ℕ → Telnet
idle_at cmd kept to = record { tstate = telnet_none; tcmd = cmd; kept = kept; to = to }

Reads-plain :
    (write : CbufWrite) (kept to : List ℕ) (t : Telnet) (c : ℕ) (p : List Token × List ℕ)
    → Reads write (kept ++ c ∷ []) to t p
    → Reads write kept to t (push (plain c) p)
unfolding text answers
Reads-plain write kept to t c (ks, rest) (hk, ht, hs) =
    (hk ∙ append_assoc kept (c ∷ []) (text ks), ht, hs)

text-after_iac :
    (d : ℕ) (ks : List Token) → text (after_iac d ∷ []) ++ text ks ≡ text (after_iac d ∷ ks)
unfolding text
text-after_iac d ks = ground arith

answers-after_iac :
    (write : CbufWrite) (to : List ℕ) (d : ℕ) (ks : List Token)
    → answers write to ks ≡ answers write to (after_iac d ∷ ks)
unfolding answers
answers-after_iac write to d ks = ground arith

Reads-command :
    (write : CbufWrite) (kept to : List ℕ) (t : Telnet) (d : ℕ) (p : List Token × List ℕ)
    → Reads write (kept ++ text (after_iac d ∷ [])) to t p
    → Reads write kept to t (push (after_iac d) p)
unfolding text answers
Reads-command write kept to t d (ks, rest) (hk, ht, hs) = (
  hk
      ∙ append_assoc kept (text (after_iac d ∷ [])) (text ks)
      ∙ ap (λ x. kept ++ x) (text-after_iac d ks),
  ht ∙ answers-after_iac write to d ks,
  hs,
)

-- One byte, in each state.
telnet_byte-plain :
    (write : CbufWrite) (cmd : ℕ) (kept to : List ℕ) (c : ℕ)
    → (c == iac) ≡ false
    → telnet_byte write (idle_at cmd kept to) c ≡ idle_at cmd (kept ++ c ∷ []) to
unfolding telnet_byte none_byte
telnet_byte-plain write cmd kept to c h = rw h

abbrev in_command : ℕ → List ℕ → List ℕ → Telnet
in_command cmd kept to = record { tstate = telnet_cmd; tcmd = cmd; kept = kept; to = to }

abbrev in_option : ℕ → List ℕ → List ℕ → Telnet
in_option cmd kept to = record { tstate = telnet_opt; tcmd = cmd; kept = kept; to = to }

telnet_byte-iac :
    (write : CbufWrite) (cmd : ℕ) (kept to : List ℕ) (c : ℕ)
    → (c == iac) ≡ true
    → telnet_byte write (idle_at cmd kept to) c ≡ in_command cmd kept to
unfolding telnet_byte none_byte
telnet_byte-iac write cmd kept to c h = rw h

telnet_byte-option_command :
    (write : CbufWrite) (cmd : ℕ) (kept to : List ℕ) (d : ℕ)
    → is_option_command d ≡ true
    → telnet_byte write (in_command cmd kept to) d ≡ in_option d kept to
unfolding telnet_byte cmd_byte
telnet_byte-option_command write cmd kept to d h = elim (Bool-cases (d == iac)) [
  | inl e ↦ absurd (unfold is_option_command in ground arith)
  | inr e ↦ rw (e, h)
]

telnet_byte-option :
    (write : CbufWrite) (cmd : ℕ) (kept to : List ℕ) (o : ℕ)
    → telnet_byte write (in_option cmd kept to) o ≡ idle_at cmd kept (telnet_recvopt write to cmd o)
unfolding telnet_byte opt_byte
telnet_byte-option write cmd kept to o = refl

-- A byte after IAC that is no option command leaves the text of its token.
telnet_byte-command :
    (write : CbufWrite) (cmd : ℕ) (kept to : List ℕ) (d : ℕ)
    → is_option_command d ≡ false
    → telnet_byte write (in_command cmd kept to) d
      ≡ idle_at cmd (kept ++ text (after_iac d ∷ [])) to
unfolding telnet_byte cmd_byte text
telnet_byte-command write cmd kept to d h =
    let all = idle_at cmd (kept ++ text (after_iac d ∷ [])) to in
    elim (Bool-cases (d == iac)) [
      | inl e ↦ let same : d ≡ iac = ground arith in ground (arith, append-nil kept)
      | inr e ↦ ground (arith, append-nil kept)
    ]

-- Bytes that lead from a state to another are read first.
pub telnet_loop-step :
    (write : CbufWrite) (t u : Telnet) (c : ℕ) (cs : List ℕ)
    → telnet_byte write t c ≡ u
    → telnet_loop write t (c ∷ cs) ≡ telnet_loop write u cs
unfolding telnet_loop
telnet_loop-step write t u c cs e = ap (λ x. telnet_loop write x cs) e

Reads-eq :
    (write : CbufWrite) (kept to : List ℕ) {t u : Telnet} {p q : List Token × List ℕ}
    → t ≡ u
    → p ≡ q
    → Reads write kept to u q
    → Reads write kept to t p
Reads-eq write kept to e k (hk, ht, hs) = (
  ap (λ x. x.kept) e ∙ hk ∙ ap (λ x. kept ++ text x.0) (sym k),
  ap (λ x. x.to) e ∙ ht ∙ ap (λ x. answers write to x.0) (sym k),
  ap (λ x. x.tstate) e ∙ hs ∙ ap (λ x. state_after x.1) (sym k),
)

module _ (write : CbufWrite) (cmd : ℕ) (kept to : List ℕ) (c : ℕ) where
  abbrev Met : List ℕ → Type 0
  Met cs = Reads write kept to (telnet_loop write (idle_at cmd kept to) cs) (tokens cs)

  into_command :
      (cs : List ℕ)
      → (c == iac) ≡ true
      → telnet_loop write (idle_at cmd kept to) (c ∷ cs)
        ≡ telnet_loop write (in_command cmd kept to) cs
  into_command cs e = telnet_loop-step write _ _ c cs (telnet_byte-iac write cmd kept to c e)

  into_option :
      (d : ℕ) (cs : List ℕ)
      → (c == iac) ≡ true
      → is_option_command d ≡ true
      → telnet_loop write (idle_at cmd kept to) (c ∷ d ∷ cs)
        ≡ telnet_loop write (in_option d kept to) cs
  into_option d cs e k =
      into_command (d ∷ cs) e
      ∙ telnet_loop-step write _ _ d cs (telnet_byte-option_command write cmd kept to d k)

  read_plain :
      (cs : List ℕ)
      → (c == iac) ≡ false
      → Reads write
          (kept ++ c ∷ [])
          to
          (telnet_loop write (idle_at cmd (kept ++ c ∷ []) to) cs)
          (tokens cs)
      → Met (c ∷ cs)
  read_plain cs e h =
      Reads-eq write kept to
        (telnet_loop-step write _ _ c cs (telnet_byte-plain write cmd kept to c e))
        (tokens-plain c cs e)
        (Reads-plain write kept to (telnet_loop write (idle_at cmd (kept ++ c ∷ []) to) cs) c
          (tokens cs) h)

  read_command :
      (d : ℕ) (cs : List ℕ)
      → (c == iac) ≡ true
      → is_option_command d ≡ false
      → Reads write
          (kept ++ text (after_iac d ∷ []))
          to
          (telnet_loop write (idle_at cmd (kept ++ text (after_iac d ∷ [])) to) cs)
          (tokens cs)
      → Met (c ∷ d ∷ cs)
  read_command d cs e k h =
      Reads-eq write kept to
        (into_command (d ∷ cs) e
          ∙ telnet_loop-step write _ _ d cs (telnet_byte-command write cmd kept to d k))
        (tokens-command c d cs e k)
        (Reads-command write kept to
          (telnet_loop write (idle_at cmd (kept ++ text (after_iac d ∷ [])) to) cs) d (tokens cs) h)

  read_option :
      (d o : ℕ) (cs : List ℕ)
      → (c == iac) ≡ true
      → is_option_command d ≡ true
      → Reads write kept
          (telnet_recvopt write to d o)
          (telnet_loop write (idle_at d kept (telnet_recvopt write to d o)) cs)
          (tokens cs)
      → Met (c ∷ d ∷ o ∷ cs)
  unfolding text answers
  read_option d o cs e k h =
      Reads-eq write kept to
        (into_option d (o ∷ cs) e k
          ∙ telnet_loop-step write _ _ o cs (telnet_byte-option write d kept to o))
        (tokens-option c d o cs e k) h

  read_iac : (c == iac) ≡ true → Met (c ∷ [])
  unfolding telnet_loop tokens text answers state_after
  read_iac e =
      Reads-eq write kept to {p = tokens (c ∷ [])} {q = ([], c ∷ [])} (into_command [] e) (rw e)
        (sym (append-nil kept), refl, refl)

  read_pending : (d : ℕ) → (c == iac) ≡ true → is_option_command d ≡ true → Met (c ∷ d ∷ [])
  unfolding telnet_loop tokens text answers state_after
  read_pending d e k =
      Reads-eq write kept to {p = tokens (c ∷ d ∷ [])} {q = ([], c ∷ d ∷ [])} (into_option d [] e k)
        (ground arith) (sym (append-nil kept), refl, refl)

-- The loop meets the tokens, from the state where no command is pending.
pub telnet_loop-Reads :
    (write : CbufWrite) (cs : List ℕ) (cmd : ℕ) (kept to : List ℕ)
    → Reads write kept to (telnet_loop write (idle_at cmd kept to) cs) (tokens cs)
telnet_loop-Reads write [] cmd kept to =
    unfold telnet_loop tokens text answers state_after in (sym (append-nil kept), refl, refl)
telnet_loop-Reads write (c ∷ []) cmd kept to = elim (Bool-cases (c == iac)) [
  | inl e ↦ read_iac write cmd kept to c e
  | inr e ↦ read_plain write cmd kept to c [] e (telnet_loop-Reads write [] cmd (kept ++ c ∷ []) to)
]
telnet_loop-Reads write (c ∷ d ∷ []) cmd kept to = elim (Bool-cases (c == iac)) [
  | inl e ↦ elim (Bool-cases (is_option_command d)) [
    | inl k ↦ read_pending write cmd kept to c d e k
    | inr k ↦
        read_command write cmd kept to c d [] e k
          (telnet_loop-Reads write [] cmd (kept ++ text (after_iac d ∷ [])) to)
  ]
  | inr e ↦
      read_plain write cmd kept to c (d ∷ []) e
        (telnet_loop-Reads write (d ∷ []) cmd (kept ++ c ∷ []) to)
]
telnet_loop-Reads write (c ∷ d ∷ o ∷ r) cmd kept to = elim (Bool-cases (c == iac)) [
  | inl e ↦ elim (Bool-cases (is_option_command d)) [
    | inl k ↦
        read_option write cmd kept to c d o r e k
          (telnet_loop-Reads write r d kept (telnet_recvopt write to d o))
    | inr k ↦
        read_command write cmd kept to c d (o ∷ r) e k
          (telnet_loop-Reads write (o ∷ r) cmd (kept ++ text (after_iac d ∷ [])) to)
  ]
  | inr e ↦
      read_plain write cmd kept to c (d ∷ o ∷ r) e
        (telnet_loop-Reads write (d ∷ o ∷ r) cmd (kept ++ c ∷ []) to)
]
