-- ===== src/Powerman/Session.antt =====
-- powerman/powerman.c: powerman's side of a session with the daemon, with the reading of a line in
-- libcommon/xread.c. A write takes the whole text.
use mathlib.Core.List.{reverse}
use powerman.Base.{
  ℕ, zero, suc, ◌-◌, ◌%◌, ◌^◌, min, Bool, true, false, ◌&&◌, ◌||◌, not, List, [], ◌∷◌, ◌++◌, Option,
  none, some, if◌then◌else◌, ltb, leb, ◌==◌, length, take, drop, is_empty,
}
use powerman.CStr.{CStr, codes, str_eq}
use powerman.Client.Input.{scan_arg}
use powerman.Client.Wire.{cp_eol, cp_prompt}
use powerman.Libpowerman.{scan_code}

pub record Session : Type 0 where
  -- What the server still sends, and whether the connection is then reset, else closed.
  pub from : List ℕ
  pub reset : Bool
  -- What has been sent to the server.
  pub to : CStr
  -- The lines on the standard output.
  pub out : List CStr

-- A result; err_exit, with the lines printed by then; or a loop that has not ended.
pub data Run {ℓ} (A : Type ℓ) : Type ℓ where
  done : A → Session → Run A
  exits : List CStr → Run A
  runs_on : Run A

unfoldable pub and_then {ℓ κ} : {A : Type ℓ} {B : Type κ} → Run A → (A → Session → Run B) → Run B
and_then (done a s) f = f a s
and_then (exits out') f = exits out'
and_then runs_on f = runs_on

-- len >= 2 && strcmp(&str[len - 2], "\r\n") == 0, for a string that is given with its last byte first.
unfoldable pub ends_line : CStr → Bool
ends_line [] = false
ends_line (d ∷ []) = false
ends_line (d ∷ c ∷ str) = c == 13 && d == 10

-- The loop of xreadstr: the line, and what the server sends after it; none where the program exits.
unfoldable pub readstr_loop : CStr → List ℕ → Option (CStr × List ℕ)
unfolding ends_line
readstr_loop str [] = none
readstr_loop str (c ∷ r) = elim (ends_line (c ∷ str)) [
  | true ↦ some (reverse (drop 2 (c ∷ str)), r)
  | false ↦ readstr_loop (c ∷ str) r
]

unfoldable pub xreadstr : List ℕ → Option (CStr × List ℕ)
unfolding readstr_loop
xreadstr from' = readstr_loop [] from'

-- The int with the low 32 bits of a number and its sign, as its value modulo 2 ^ 32.
unfoldable pub int_of : Bool → ℕ → ℕ
int_of neg n = if neg then (2 ^ 32 - n % 2 ^ 32) % 2 ^ 32 else n % 2 ^ 32

-- The number of a line: strtol, with LONG_MIN and LONG_MAX replaced by -1, as an int.
unfoldable pub line_number : CStr → ℕ
unfolding scan_code int_of
line_number buf = elim (scan_code buf) [
  | none ↦ 0
  | some (neg, n) ↦
      let limit = if neg then 2 ^ 63 else 2 ^ 63 - 1 in
      if leb limit n then int_of true 1 else int_of neg n
]

-- _supress
unfoldable pub supress : ℕ → Bool
supress num = num == 103 || (num == 104 || num == 105)

-- CP_IS_ALLDONE and CP_IS_FAILURE
unfoldable pub is_alldone : ℕ → Bool
is_alldone num = leb 100 num && ltb num 300

unfoldable pub is_failure : ℕ → Bool
is_failure num = leb 200 num && ltb num 300

unfoldable pub process_line : Session → Run ℕ
unfolding xreadstr line_number supress
process_line s = elim (xreadstr s.from) [
  | none ↦ exits s.out
  | some (buf, rest) ↦
      let num = line_number buf in
      let s' = record s { from = rest } in
      if ltb 4 (length buf)
      then done num (if supress num then s' else record s' { out = s.out ++ drop 4 buf ∷ [] })
      else exits s.out
]

unfoldable pub response_loop : ℕ → Session → Run ℕ
unfolding process_line is_alldone is_failure and_then
response_loop zero s = runs_on
response_loop (suc fuel) s = and_then (process_line s) (λ num s'. elim (is_alldone num) [
  | true ↦ done (if is_failure num then num else 0) s'
  | false ↦ response_loop fuel s'
])

-- A line takes bytes of what the server sends, so the fuel is enough.
unfoldable pub process_response : Session → Run ℕ
unfolding response_loop
process_response s = response_loop (suc (length s.from)) s

-- The loop of _expect, to the bytes that it has read; `sizes` says how many bytes more than one a
-- read can get, by how many have been read.
unfoldable pub expect_loop : (ℕ → ℕ) → ℕ → CStr → CStr → ℕ → Session → Run CStr
unfolding str_eq
expect_loop sizes zero str buf len s = runs_on
expect_loop sizes (suc fuel) str buf len s = elim (is_empty s.from && s.reset) [
  | true ↦ exits s.out
  | false ↦
      let res = take (min len (suc (sizes (length buf)))) s.from in
      let buf' = buf ++ res in
      let len' = len - length res in
      let s' = record s { from = drop (length res) s.from } in
      elim (not (str_eq str buf') && ltb 0 len') [
        | true ↦ expect_loop sizes fuel str buf' len' s'
        | false ↦ done buf' s'
      ]
]

-- Each read gets a byte, except at the end of what the server sends.
unfoldable pub expect : (ℕ → ℕ) → CStr → Session → Run (Unit {0})
unfolding expect_loop str_eq and_then
expect sizes str s =
    and_then (expect_loop sizes (suc (length str)) str [] (length str) s)
      (λ buf s'. if str_eq str buf then done tt s' else exits s'.out)

-- sscanf(buf, CP_VERSION, vers) == 1; a version that differs is only warned of.
unfoldable pub process_version : Session → Run (Unit {0})
unfolding xreadstr scan_arg
process_version s = elim (xreadstr s.from) [
  | none ↦ exits s.out
  | some (buf, rest) ↦ elim (scan_arg buf (codes "001")) [
    | none ↦ exits s.out
    | some vers ↦ done tt (record s { from = rest })
  ]
]

-- _cmd_execute for a command with this sendstr.
unfoldable pub cmd_execute : (ℕ → ℕ) → CStr → Session → Run ℕ
unfolding process_response expect and_then
cmd_execute sizes sendstr s =
    and_then (process_response (record s { to = s.to ++ (sendstr ++ cp_eol) }))
      (λ res s'. and_then (expect sizes cp_prompt s') (λ _ s''. done res s''))

-- "Execute the commands."
unfoldable pub execute_all : (ℕ → ℕ) → Bool → ℕ → List CStr → Session → Run ℕ
unfolding cmd_execute and_then
execute_all sizes ignore_errs res [] s = done res s
execute_all sizes ignore_errs res (cp ∷ cl) s = and_then (cmd_execute sizes cp s) (λ res' s'.
    elim (ignore_errs || res' == 0) [
      | true ↦ execute_all sizes ignore_errs 0 cl s'
      | false ↦ done res' s'
    ])

-- main from the connection on, to the status that its parent gets of exit(res), the low 8 bits of res.
unfoldable pub session : (ℕ → ℕ) → Bool → List CStr → Session → Run ℕ
unfolding process_version expect execute_all and_then
session sizes ignore_errs cl s = and_then (process_version s) (λ _ s1.
    and_then (expect sizes cp_prompt s1) (λ _ s2.
      and_then (execute_all sizes ignore_errs 0 cl s2) (λ res s3.
        and_then
          (expect sizes (codes "101 Goodbye" ++ cp_eol)
            (record s3 { to = s3.to ++ (codes "quit" ++ cp_eol) }))
          (λ _ s4. done (res % 256) s4))))
