-- ===== src/Tcp/Telnet/Preprocess.antt =====
-- What _telnet_preprocess leaves in the buffers of a device.
use mathlib.Core.Path.{subst}
use powerman.Base.{
  Bool-cases, ℕ, suc, ◌≤◌, ◌<◌, ◌≡◌, refl, ap, ◌∙◌, sym, ◌⊎◌, inl, inr, ◌==◌, true, false, List, [],
  ◌∷◌, ◌++◌, some, arith, if◌then◌else◌, length, drop, take-length, drop-length, ltb, Bool-cases,
}
use powerman.Tcp.{telnet_cmd, TcpDev, telnet_none, telnet_cmd, max_dev_buf}
use powerman.Tcp.Telnet.{
  none_byte, cmd_byte, CbufWrite, Telnet, iac, is_option_command, none_byte, cmd_byte, telnet_loop,
  cbuf_put, telnet_preprocess,
}
use powerman.Tcp.Telnet.Tokens.{
  tokens-plain, Token, after_iac, tokens, text, answers, state_after, tokens-plain, tokens-command,
  tokens-option,
}
use powerman.Tcp.Telnet.Loop.{idle_at, telnet_loop-Reads}

-- The text is the input, or is shorter.
abbrev Shrinks : List ℕ → List ℕ → Type 0
Shrinks cs text' = (text' ≡ cs) ⊎ (length text' < length cs)

Shrinks-plain : (c : ℕ) (cs text' : List ℕ) → Shrinks cs text' → Shrinks (c ∷ cs) (c ∷ text')
Shrinks-plain c cs text' (inl e) = inl (ap (λ x. c ∷ x) e)
Shrinks-plain c cs text' (inr h) = inr (omega arith)

Shrinks-drop : (c : ℕ) (cs text' : List ℕ) → Shrinks cs text' → length text' < length (c ∷ cs)
Shrinks-drop c cs text' (inl e) = omega (arith, ap (λ (x : List ℕ). length x) e)
Shrinks-drop c cs text' (inr h) = omega arith

length-text-after_iac :
    (d : ℕ) (ks : List Token) → length (text (after_iac d ∷ ks)) ≤ suc (length (text ks))
unfolding text
length-text-after_iac d ks = ground arith

abbrev TextShrinks : List ℕ → Type 0
TextShrinks cs = Shrinks cs (text (tokens cs).0)

shrinks_plain : (c : ℕ) (cs : List ℕ) → (c == iac) ≡ false → TextShrinks cs → TextShrinks (c ∷ cs)
unfolding text
shrinks_plain c cs e h =
    subst (λ p. Shrinks (c ∷ cs) (text p.0)) (sym (tokens-plain c cs e))
      (Shrinks-plain c cs (text (tokens cs).0) h)

shrinks_command :
    (c d : ℕ) (cs : List ℕ)
    → (c == iac) ≡ true
    → is_option_command d ≡ false
    → TextShrinks cs
    → TextShrinks (c ∷ d ∷ cs)
shrinks_command c d cs e k h =
    subst (λ p. Shrinks (c ∷ d ∷ cs) (text p.0)) (sym (tokens-command c d cs e k))
      (inr (
        omega
          (arith, Shrinks-drop d cs (text (tokens cs).0) h, length-text-after_iac d (tokens cs).0)))

shrinks_option :
    (c d o : ℕ) (cs : List ℕ)
    → (c == iac) ≡ true
    → is_option_command d ≡ true
    → TextShrinks cs
    → TextShrinks (c ∷ d ∷ o ∷ cs)
unfolding text
shrinks_option c d o cs e k h =
    subst (λ p. Shrinks (c ∷ d ∷ o ∷ cs) (text p.0)) (sym (tokens-option c d o cs e k))
      (inr (omega (arith, Shrinks-drop o cs (text (tokens cs).0) h)))

text-Shrinks : (cs : List ℕ) → TextShrinks cs
text-Shrinks [] = inl (unfold tokens text in refl)
text-Shrinks (c ∷ []) = unfold tokens text in ground arith
text-Shrinks (c ∷ d ∷ []) = elim (Bool-cases (c == iac)) [
  | inl e ↦ elim (Bool-cases (is_option_command d)) [
    | inl k ↦ inr (unfold tokens text in ground arith)
    | inr k ↦ shrinks_command c d [] e k (text-Shrinks [])
  ]
  | inr e ↦ shrinks_plain c (d ∷ []) e (text-Shrinks (d ∷ []))
]
text-Shrinks (c ∷ d ∷ o ∷ r) = elim (Bool-cases (c == iac)) [
  | inl e ↦ elim (Bool-cases (is_option_command d)) [
    | inl k ↦ shrinks_option c d o r e k (text-Shrinks r)
    | inr k ↦ shrinks_command c d (o ∷ r) e k (text-Shrinks (o ∷ r))
  ]
  | inr e ↦ shrinks_plain c (d ∷ o ∷ r) e (text-Shrinks (d ∷ o ∷ r))
]

length-text :
    (from : List ℕ) → length from ≤ max_dev_buf → length (text (tokens from).0) ≤ max_dev_buf
length-text from short = elim (text-Shrinks from) [
  | inl e ↦ omega (arith, ap (λ (x : List ℕ). length x) e)
  | inr h ↦ omega arith
]

-- The bytes that _telnet_preprocess writes back when its buffers hold all the input.
rewritten :
    (write : CbufWrite) (from kept : List ℕ)
    → write [] kept ≡ some (kept, 0)
    → Shrinks from kept
    → (if ltb (length kept) (length from)
        then cbuf_put write (drop (length from) from) kept
        else from)
      ≡ kept
unfolding cbuf_put
rewritten write from kept fits (inl e) = ground (arith, ap (λ (x : List ℕ). length x) e)
rewritten write from kept fits (inr h) =
    let all : drop (length from) from ≡ [] = drop-length from in ground (arith, all, fits)

abbrev Buffers : Type 0
Buffers = TcpDev × List ℕ × List ℕ

-- The same, with all the input peeked at.
abbrev after_loop : CbufWrite → TcpDev → List ℕ → Telnet → Buffers
after_loop write tcp from t = (
  record tcp { tstate = t.tstate; tcmd = t.tcmd },
  if ltb (length t.kept) (length from)
      then cbuf_put write (drop (length from) from) t.kept
      else from,
  t.to,
)

peeked :
    (write : CbufWrite) (tcp : TcpDev) (from to : List ℕ)
    → tcp.tstate ≡ telnet_none
    → length from ≤ max_dev_buf
    → telnet_preprocess write tcp from to
      ≡ after_loop write tcp from (telnet_loop write (idle_at tcp.tcmd [] to) from)
unfolding telnet_preprocess
peeked write tcp from to idle short = rw (take-length max_dev_buf from short, idle)

pub telnet_preprocess-tokens :
    (write : CbufWrite) (tcp : TcpDev) (from to : List ℕ)
    → tcp.tstate ≡ telnet_none
    → length from ≤ max_dev_buf
    → ((s : List ℕ) → length s ≤ max_dev_buf → write [] s ≡ some (s, 0))
    → ((telnet_preprocess write tcp from to).1 ≡ text (tokens from).0)
      × ((telnet_preprocess write tcp from to).2 ≡ answers write to (tokens from).0)
      × ((telnet_preprocess write tcp from to).0.tstate ≡ state_after (tokens from).1)
telnet_preprocess-tokens write tcp from to idle short fits =
    let t = telnet_loop write (idle_at tcp.tcmd [] to) from in
    let (kept, sent, state) = telnet_loop-Reads write from tcp.tcmd [] to in
    let back = λ (k : List ℕ).
      if ltb (length k) (length from) then cbuf_put write (drop (length from) from) k else from in
    let whole = peeked write tcp from to idle short in
    (
      ap (λ x. x.1) whole
          ∙ ap back kept
          ∙ rewritten write from (text (tokens from).0)
              (fits (text (tokens from).0) (length-text from short)) (text-Shrinks from),
      ap (λ x. x.2) whole ∙ sent,
      ap (λ x. x.0.tstate) whole ∙ state,
    )

first_read :
    (write : CbufWrite) (tcp : TcpDev) (x : ℕ) (to : List ℕ)
    → tcp.tstate ≡ telnet_none
    → (x == iac) ≡ false
    → write [] (x ∷ []) ≡ some (x ∷ [], 0)
    → telnet_preprocess write tcp (x ∷ iac ∷ []) to
      ≡ (record tcp { tstate = telnet_cmd }, x ∷ [], to)
unfolding telnet_preprocess none_byte cmd_byte
first_read write tcp x to idle hx fit = rw idle (ground arith)

second_read :
    (write : CbufWrite) (tcp : TcpDev) (x d o : ℕ) (to : List ℕ)
    → (x == iac) ≡ false
    → is_option_command x ≡ false
    → is_option_command d ≡ true
    → (o == iac) ≡ false
    → write [] (d ∷ o ∷ []) ≡ some (d ∷ o ∷ [], 0)
    → telnet_preprocess write (record tcp { tstate = telnet_cmd }) (x ∷ d ∷ o ∷ []) to
      ≡ (record tcp { tstate = telnet_none }, d ∷ o ∷ [], to)
unfolding telnet_preprocess none_byte cmd_byte
second_read write tcp x d o to hx kx kd ho fit = elim (Bool-cases (d == iac)) [
  | inl e ↦ absurd (unfold is_option_command in ground arith)
  | inr e ↦ ground arith
]

one_option :
    (x d o : ℕ)
    → (x == iac) ≡ false
    → is_option_command d ≡ true
    → text (tokens (x ∷ iac ∷ d ∷ o ∷ [])).0 ≡ x ∷ []
unfolding text tokens
one_option x d o hx kd =
    ap (λ p. text p.0) (tokens-plain x (iac ∷ d ∷ o ∷ []) hx)
    ∙ ap (λ p. x ∷ text p.0) (tokens-option iac d o [] refl kd)

-- An option whose bytes come in two reads is lost when data stands in front of it: the byte of data
-- is dropped as a command, the option is left as data, and it is not answered. In one read the data
-- is kept, and the option is taken out.
pub telnet_leftover_misread :
    (write : CbufWrite) (tcp : TcpDev) (x d o : ℕ) (to : List ℕ)
    → tcp.tstate ≡ telnet_none
    → (x == iac) ≡ false
    → is_option_command x ≡ false
    → is_option_command d ≡ true
    → (o == iac) ≡ false
    → ((s : List ℕ) → length s ≤ max_dev_buf → write [] s ≡ some (s, 0))
    → let one = telnet_preprocess write tcp (x ∷ iac ∷ []) to in
      let two = telnet_preprocess write one.0 (one.1 ++ d ∷ o ∷ []) one.2 in
      (two.1 ≡ d ∷ o ∷ [])
      × (two.2 ≡ to)
      × ((telnet_preprocess write tcp (x ∷ iac ∷ d ∷ o ∷ []) to).1 ≡ x ∷ [])
telnet_leftover_misread write tcp x d o to idle hx kx kd ho fits =
    let first = first_read write tcp x to idle hx (fits (x ∷ []) (omega arith)) in
    let second = second_read write tcp x d o to hx kx kd ho (fits (d ∷ o ∷ []) (omega arith)) in
    (
      ap (λ p. (telnet_preprocess write p.0 (p.1 ++ d ∷ o ∷ []) p.2).1) first
          ∙ ap (λ p. p.1) second,
      ap (λ p. (telnet_preprocess write p.0 (p.1 ++ d ∷ o ∷ []) p.2).2) first
          ∙ ap (λ p. p.2) second,
      (telnet_preprocess-tokens write tcp (x ∷ iac ∷ d ∷ o ∷ []) to idle (omega arith) fits).0
          ∙ one_option x d o hx kd,
    )
