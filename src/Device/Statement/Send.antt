-- ===== src/Device/Statement/Send.antt =====
-- What the statements that talk to the device do: send, expect and delay.
use powerman.Base.{
  ℕ, ◌+◌, ◌≤◌, ◌<◌, ◌≡◌, refl, sym, ◌∙◌, inl, inr, ◌⊎◌, true, false, not, List, Option, none, some,
  arith, if◌then◌else◌, leb, ◌==◌, take, drop, is_some, Option-cases, is_empty, Bool-cases,
  if_cases,
}
use powerman.CStr.{CStr}
use powerman.Xregex.{Offsets, match_end, xregex_exec, xregex_match_recycle, xregex_match_strlen}
use powerman.Device.{Env}
use powerman.Device.Timer.{gettimeofday, timeout_passed, update_timeout}
use powerman.Device.Statement.{
  Exec, memtrans, getregex_buf, process_expect, send_arg, note_sent, write_send, start_send,
  process_send, start_delay, process_delay,
}

-- What a send writes: the buffer after cbuf_write of the formatted string, or the buffer itself
-- when cbuf_write fails.
abbrev pub written : Env → Exec → CStr → List ℕ
written env x fmt =
    elim (env.cbuf_write x.dev.to (env.hsprintf fmt (send_arg env.hostlist x.e.plugs))) [
      | none ↦ x.dev.to
      | some (to', dropped) ↦ to'
    ]

note_sent-to :
    (env : Env) (x : Exec) (str : CStr) (r : Option (List ℕ × ℕ))
    → (note_sent env x str r).dev.to ≡ elim r [ none ↦ x.dev.to | some (to', dropped) ↦ to' ]
unfolding note_sent
note_sent-to env x str none = refl
note_sent-to env x str (some (to', dropped)) = refl

start_send-to :
    (env : Env) (x : Exec) (fmt : CStr)
    → (start_send env x fmt).dev.to ≡ (if x.e.processing then x.dev.to else written env x fmt)
unfolding start_send write_send
start_send-to env x fmt =
    let all = if x.e.processing then x.dev.to else written env x fmt in
    let str = env.hsprintf fmt (send_arg env.hostlist x.e.plugs) in
    if_cases (λ (y : Exec). y.dev.to ≡ all) x.e.processing x _ (λ h. ground arith)
      (λ h.
        let first : written env x fmt ≡ all = ground arith in
        note_sent-to env x str (env.cbuf_write x.dev.to str) ∙ first)

abbrev Ended : List ℕ → Exec → Type 0
Ended to y = (y.dev.to ≡ to) × (y.finished ≡ is_empty y.dev.to) × (y.e.processing ≡ not y.finished)

start_send-processing :
    (env : Env) (x : Exec) (fmt : CStr) → (start_send env x fmt).e.processing ≡ true
unfolding start_send
start_send-processing env x fmt = ground arith

-- A send writes its string the first time that it runs and only then, and it finishes exactly when
-- the output buffer is empty; it goes on as "processing" until then, and no longer.
pub process_send_once :
    (env : Env) (x : Exec) (fmt : CStr)
    → ((process_send env x fmt).dev.to ≡ (if x.e.processing then x.dev.to else written env x fmt))
      × ((process_send env x fmt).finished ≡ is_empty (process_send env x fmt).dev.to)
      × ((process_send env x fmt).e.processing ≡ not (process_send env x fmt).finished)
unfolding process_send
process_send_once env x fmt =
    let y = start_send env x fmt in
    let t = start_send-to env x fmt in
    let p = start_send-processing env x fmt in
    if_cases (Ended (if x.e.processing then x.dev.to else written env x fmt)) (is_empty y.dev.to) _
      _ (λ h. (t, sym h, refl)) (λ h. (t, sym h, p))

-- The match of an expression in the input, if there is input and it matches.
abbrev pub input_match : Env → Exec → CStr → Option Offsets
input_match env x re = if is_empty x.dev.from then none else env.regexec re (memtrans x.dev.from)

-- An expect finishes exactly if the input is not empty and, with each byte 0 read as 255, matches the
-- expression; then it consumes the input up to the end of the match, and otherwise it consumes
-- nothing.
pub process_expect_consumes :
    (env : Env) (x : Exec) (re : CStr)
    → let y = process_expect env x re in
      let m = input_match env x re in
      (y.finished ≡ is_some m)
      × (y.dev.from ≡ elim m [
        | none ↦ x.dev.from
        | some pm ↦ drop (match_end (take x.dev.xmatch.nmatch pm)) x.dev.from
      ])
unfolding process_expect getregex_buf xregex_exec xregex_match_strlen xregex_match_recycle
process_expect_consumes env x re = elim (Bool-cases (is_empty x.dev.from)) [
  | inl e ↦ (ground arith, ground arith)
  | inr e ↦ elim (Option-cases (env.regexec re (memtrans x.dev.from))) [
    | inl m ↦ (ground arith, ground arith)
    | inr (pm, m) ↦ (ground arith, ground arith)
  ]
]

-- A delay that has started, with delays not short-circuited, finishes exactly if its time has passed
-- at the reading of the clock that it makes; until then it leaves a timeout, for the caller to sleep,
-- that is set, ends no later than the delay, and is no longer than a timeout that was set before.
pub process_delay_waits :
    (env : Env) (x : Exec) (tv : ℕ)
    → x.e.processing ≡ true
    → env.short_circuit_delay ≡ false
    → let y = process_delay env x tv in
      let due = x.act.delay_start + tv in
      let now = env.clock x.w.reads in
      ((y.finished ≡ true) × (due ≤ now))
      ⊎ ((y.finished ≡ false)
          × (now < due)
          × (0 < y.timeout)
          × (now + y.timeout ≤ due)
          × ((x.timeout ≡ 0) ⊎ (y.timeout ≤ x.timeout)))
unfolding process_delay start_delay timeout_passed gettimeofday update_timeout
process_delay_waits env x tv h k =
    elim (Bool-cases (leb (x.act.delay_start + tv) (env.clock x.w.reads))) [
      | inl e ↦ inl (ground arith, ground arith)
      | inr e ↦ inr (
        ground arith,
        ground arith,
        ground arith,
        ground arith,
        elim (Bool-cases (x.timeout == 0)) [
          | inl z ↦ inl (ground arith)
          | inr z ↦ inr (ground arith)
        ],
      )
    ]
