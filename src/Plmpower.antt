-- ===== src/Plmpower.antt =====
-- plmpower/plmpower.c, with xread_all of libcommon/xread.c: the exchange of commands with an Insteon
-- modem (PLM) on a serial line. What the modem will send is a list of bytes, at whose end the program
-- exits; a byte is a number below 256.
pub mod Frames
mod Tests
use powerman.Base.{
  ℕ, zero, suc, ◌+◌, ◌-◌, ◌*◌, Bool, true, false, not, List, [], ◌∷◌, ◌++◌, Option, none, some,
  if◌then◌else◌, leb, ◌==◌, length, take, drop, get_elem?,
}

-- The control bytes.
abbrev pub im_stx : ℕ
im_stx = 2

abbrev pub im_nak : ℕ
im_nak = 21

-- A response, a NAK in place of one, err_exit, or a loop that has not ended.
pub data Reply : Type 0 where
  frame : List ℕ → Reply
  nak exits runs_on : Reply

-- xread_all: the bytes, and what follows them; none where it exits.
unfoldable pub xread_all : ℕ → List ℕ → Option (List ℕ × List ℕ)
xread_all count s = if leb count (length s) then some (take count s, drop count s) else none

-- How many bytes follow the header of a command of the modem; none for one that is not expected.
unfoldable pub body_length : ℕ → Option ℕ
body_length cmd =
    if cmd == 80
    then some 9
    else if cmd == 81
    then some 23
    else if cmd == 82
    then some 2
    else if cmd == 83
    then some 8
    else if cmd == 84
    then some 1
    else if cmd == 85
    then some 0
    else if cmd == 86
    then some 5
    else if cmd == 87
    then some 8
    else if cmd == 88
    then some 1
    else none

-- What a pass from the label "retry" of plm_recv leads to: a result, with what is left to read, or
-- another pass.
pub data Pass : Type 0 where
  stop : Reply × List ℕ → Pass
  again : List ℕ → Pass

-- "memcpy(recv, b, recvlen)"
abbrev pub kept : ℕ → Option (List ℕ × List ℕ) → Pass
kept cmd none = stop (exits, [])
kept cmd (some (body, s)) = stop (frame (im_stx ∷ cmd ∷ body), s)

-- The switch on a command that is not the one that is waited for.
unfoldable pub discard : Option ℕ → List ℕ → Pass
unfolding xread_all
discard none s = stop (exits, s)
discard (some n) s = elim (xread_all n s) [ none ↦ stop (exits, []) | some (body, s') ↦ again s' ]

unfoldable pub recv_command : ℕ → ℕ → List ℕ → Pass
unfolding xread_all body_length discard
recv_command cmd recvlen [] = stop (exits, [])
recv_command cmd recvlen (b1 ∷ s) =
    if b1 == cmd then kept cmd (xread_all (recvlen - 2) s) else discard (body_length b1) s

unfoldable pub recv_pass : ℕ → ℕ → List ℕ → Pass
unfolding recv_command
recv_pass cmd recvlen [] = stop (exits, [])
recv_pass cmd recvlen (b0 ∷ s) =
    if b0 == im_nak
    then stop (nak, s)
    else if b0 == im_stx
    then recv_command cmd recvlen s
    else stop (exits, s)

unfoldable pub recv_retry : ℕ → ℕ → ℕ → List ℕ → Reply × List ℕ
unfolding recv_pass
recv_retry zero cmd recvlen s = (runs_on, s)
recv_retry (suc fuel) cmd recvlen s = elim (recv_pass cmd recvlen s) [
  | stop r ↦ r
  | again s' ↦ recv_retry fuel cmd recvlen s'
]

-- A pass takes bytes of what the modem sends, so the fuel is enough.
unfoldable pub plm_recv : ℕ → ℕ → List ℕ → Reply × List ℕ
unfolding recv_retry
plm_recv cmd recvlen s = recv_retry (suc (length s)) cmd recvlen s

-- "nak" after plm_recv: a NAK, or one in the last byte of the response.
unfoldable pub is_nak : ℕ → Reply → Bool
is_nak recvlen nak = true
is_nak recvlen (frame b) = elim (get_elem? b (recvlen - 1)) [ none ↦ false | some c ↦ c == im_nak ]
is_nak recvlen _ = false

-- The loop of plm_docmd, with what has been sent; `cmd` is send[1].
unfoldable pub docmd_loop : ℕ → List ℕ → ℕ → ℕ → List ℕ → List ℕ → Reply × List ℕ × List ℕ
unfolding plm_recv is_nak
docmd_loop zero send' cmd recvlen sent s = (runs_on, sent, s)
docmd_loop (suc fuel) send' cmd recvlen sent s =
    let (r, s') = plm_recv cmd recvlen s in
    elim (is_nak recvlen r) [
      | true ↦ docmd_loop fuel send' cmd recvlen (sent ++ send') s'
      | false ↦ (r, sent ++ send', s')
    ]

-- The response, all that was sent, and what is left to read. A NAK takes a byte, so the fuel is enough.
-- The callers' commands have at least the two bytes of their header.
unfoldable pub plm_docmd : List ℕ → ℕ → List ℕ → Reply × List ℕ × List ℕ
unfolding docmd_loop
plm_docmd [] recvlen s = (exits, [], s)
plm_docmd (b0 ∷ []) recvlen s = (exits, [], s)
plm_docmd (b0 ∷ cmd ∷ args) recvlen s =
    docmd_loop (suc (length s)) (b0 ∷ cmd ∷ args) cmd recvlen [] s

-- plm_send_insteon and plm_reset
unfoldable pub plm_send_insteon : ℕ × ℕ × ℕ → ℕ → ℕ → List ℕ → Reply × List ℕ × List ℕ
unfolding plm_docmd
plm_send_insteon (h, m, l) cmd1 cmd2 s =
    plm_docmd (im_stx ∷ 98 ∷ h ∷ m ∷ l ∷ 3 ∷ cmd1 ∷ cmd2 ∷ []) 9 s

unfoldable pub plm_reset : List ℕ → Reply × List ℕ × List ℕ
unfolding plm_docmd
plm_reset s = plm_docmd (im_stx ∷ 103 ∷ []) 3 s
