-- ===== src/Tcp/Telnet/Tokens.antt =====
-- A reference tokenizer for the input of a device that speaks telnet.
use powerman.Base.{ℕ, ◌≡◌, ◌==◌, true, false, List, [], ◌∷◌, arith, if◌then◌else◌}
use powerman.Tcp.{TelnetState, telnet_none, telnet_cmd, telnet_opt}
use powerman.Tcp.Telnet.{CbufWrite, iac, is_option_command, telnet_recvopt}

-- The input as tokens: a byte of data, an escaped IAC, a command, and a command with an option.
pub data Token : Type 0 where
  plain : ℕ → Token
  escaped : Token
  command : ℕ → Token
  option : ℕ → ℕ → Token

-- What follows a byte IAC and a byte d, when enough of the input is there.
abbrev pub after_iac : ℕ → Token
after_iac d = if d == iac then escaped else command d

abbrev pub push : Token → List Token × List ℕ → List Token × List ℕ
push k (ks, rest) = (k ∷ ks, rest)

-- The tokens, and the bytes of a last token that is not complete.
unfoldable pub tokens : List ℕ → List Token × List ℕ
tokens [] = ([], [])
tokens (c ∷ []) = if c == iac then ([], c ∷ []) else (plain c ∷ [], [])
tokens (c ∷ d ∷ []) = elim (c == iac) [
  | false ↦ push (plain c) (tokens (d ∷ []))
  | true ↦ if is_option_command d then ([], c ∷ d ∷ []) else (after_iac d ∷ [], [])
]
tokens (c ∷ d ∷ o ∷ r) = elim (c == iac) [
  | false ↦ push (plain c) (tokens (d ∷ o ∷ r))
  | true ↦ elim (is_option_command d) [
    | true ↦ push (option d o) (tokens r)
    | false ↦ push (after_iac d) (tokens (o ∷ r))
  ]
]

-- The data that the tokens stand for.
unfoldable pub text : List Token → List ℕ
text [] = []
text (plain c ∷ ks) = c ∷ text ks
text (escaped ∷ ks) = iac ∷ text ks
text (command c ∷ ks) = text ks
text (option c o ∷ ks) = text ks

-- The output buffer after the answers to the options, in order.
unfoldable pub answers : CbufWrite → List ℕ → List Token → List ℕ
answers write to [] = to
answers write to (plain c ∷ ks) = answers write to ks
answers write to (escaped ∷ ks) = answers write to ks
answers write to (command c ∷ ks) = answers write to ks
answers write to (option c o ∷ ks) = answers write (telnet_recvopt write to c o) ks

-- The state after the bytes of a token that is not complete.
unfoldable pub state_after : List ℕ → TelnetState
state_after [] = telnet_none
state_after (c ∷ []) = telnet_cmd
state_after (c ∷ d ∷ r) = telnet_opt

module _ (c : ℕ) where
  pub tokens-plain :
      (cs : List ℕ) → (c == iac) ≡ false → tokens (c ∷ cs) ≡ push (plain c) (tokens cs)
  unfolding tokens
  tokens-plain [] h = rw h
  tokens-plain (d ∷ []) h = ground arith
  tokens-plain (d ∷ o ∷ r) h = ground arith

  pub tokens-command :
      (d : ℕ) (cs : List ℕ)
      → (c == iac) ≡ true
      → is_option_command d ≡ false
      → tokens (c ∷ d ∷ cs) ≡ push (after_iac d) (tokens cs)
  unfolding tokens
  tokens-command d [] h k = ground arith
  tokens-command d (o ∷ r) h k = ground arith

  pub tokens-option :
      (d o : ℕ) (cs : List ℕ)
      → (c == iac) ≡ true
      → is_option_command d ≡ true
      → tokens (c ∷ d ∷ o ∷ cs) ≡ push (option d o) (tokens cs)
  unfolding tokens
  tokens-option d o cs h k = ground arith
