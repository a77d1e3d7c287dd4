-- ===== src/Libpowerman.antt =====
-- libpowerman/libpowerman.c: the client library's side of the protocol, without the connection. The
-- children hold its public functions and what they make of the daemon's responses.
pub mod Handle
pub mod Connect
pub mod Lines
pub mod Codes
pub mod Transfer
mod StatusLine
pub mod Status
pub mod Nodes
mod Tests
use powerman.Base.{
  ℕ, zero, suc, ◌+◌, ◌*◌, ◌-◌, ◌&&◌, ◌||◌, ◌==◌, Bool, true, false, List, [], ◌∷◌, ◌++◌, Option,
  none, some, if◌then◌else◌, ltb, leb, length, take, drop, is_empty,
}
use powerman.CStr.{CStr, codes, str_eq, isspace}
use powerman.Client.Input.{cp_linemax, strip_left}
use powerman.Client.Wire.{cp_eol, cp_prompt}

pub data PmErr : Type 0 where
  pm_esuccess pm_errnovalid pm_enoaddr pm_econnect pm_enomem pm_ebadhand pm_ebadarg : PmErr
  pm_eservereof pm_eserverparse : PmErr
  pm_eunknown pm_eparse pm_etoolong pm_einternal pm_ehostlist pm_einprogress : PmErr
  pm_enosuchnodes pm_ecommand pm_equery pm_eunimpl : PmErr

pub data PmNodeState : Type 0 where
  pm_unknown pm_off pm_on : PmNodeState

-- _list_search
unfoldable pub list_search : List CStr → CStr → Bool
unfolding str_eq
list_search [] s = false
list_search (d ∷ ds) s = str_eq d s || list_search ds s

-- _strncmpend(s1, s2, len) == 0, where s1 holds at least as many bytes as s2.
unfoldable pub strncmpend : List ℕ → CStr → Bool
unfolding str_eq
strncmpend s1 s2 = str_eq (drop (length s1 - length s2) s1) s2

-- The loop of _parse_response: the lines so far, the last one first; the bytes from p to the i-th;
-- and the bytes from there on. An end of line counts if a byte follows it (i < len - l).
unfoldable pub parse_loop : List CStr → List ℕ → List ℕ → List CStr
parse_loop resp cur [] = resp
parse_loop resp cur (c ∷ []) = resp
parse_loop resp cur (c ∷ d ∷ []) = resp
parse_loop resp cur (c ∷ d ∷ e ∷ r) = elim (c == 13 && d == 10) [
  | true ↦ parse_loop ((cur ++ cp_eol) ∷ resp) [] (e ∷ r)
  | false ↦ parse_loop resp (cur ++ c ∷ []) (d ∷ e ∷ r)
]

-- _list_add puts a line in front.
unfoldable pub parse_response : List ℕ → List CStr
unfolding parse_loop
parse_response buf = parse_loop [] [] buf

abbrev pub is_digit : ℕ → Bool
is_digit c = leb b'0' c && leb c b'9'

unfoldable pub scan_digits : ℕ → CStr → ℕ
scan_digits n [] = n
scan_digits n (c ∷ cs) =
    let rest = scan_digits (n * 10 + (c - b'0')) cs in if is_digit c then rest else n

abbrev starts_with_digit : CStr → Bool
starts_with_digit [] = false
starts_with_digit (c ∷ cs) = is_digit c

-- A number that follows a sign; `neg` is whether that is a minus.
abbrev scan_unsigned : Bool → CStr → Option (Bool × ℕ)
scan_unsigned neg s = if starts_with_digit s then some (neg, scan_digits 0 s) else none

abbrev scan_signed : CStr → Option (Bool × ℕ)
scan_signed [] = none
scan_signed (c ∷ cs) =
    if c == b'-'
    then scan_unsigned true cs
    else if c == b'+'
    then scan_unsigned false cs
    else scan_unsigned false (c ∷ cs)

-- sscanf(s, "%d ", &code) == 1, with the sign and the size of the number.
unfoldable pub scan_code : CStr → Option (Bool × ℕ)
unfolding strip_left scan_digits
scan_code s = scan_signed (strip_left s)

-- The error that the switch of _server_retcode assigns for a code; none for a code that it ignores.
unfoldable pub code_error : ℕ → Option PmErr
code_error n =
    if n == 1 || leb 101 n && leb n 105
    then some pm_esuccess
    else if n == 201
    then some pm_eunknown
    else if n == 202
    then some pm_eparse
    else if n == 203
    then some pm_etoolong
    else if n == 204
    then some pm_einternal
    else if n == 205
    then some pm_ehostlist
    else if n == 208
    then some pm_einprogress
    else if n == 209
    then some pm_enosuchnodes
    else if n == 210
    then some pm_ecommand
    else if n == 211
    then some pm_equery
    else if n == 213
    then some pm_eunimpl
    else none

-- The error after a line; a negative code is ignored.
unfoldable pub line_error : PmErr → CStr → PmErr
unfolding scan_code code_error
line_error err line = elim (scan_code line) [
  | none ↦ err
  | some (neg, n) ↦ if neg then err else elim (code_error n) [ none ↦ err | some e ↦ e ]
]

unfoldable pub retcode_loop : PmErr → List CStr → PmErr
unfolding line_error
retcode_loop err [] = err
retcode_loop err (line ∷ resp) = retcode_loop (line_error err line) resp

unfoldable pub server_retcode : List CStr → PmErr
unfolding retcode_loop
server_retcode resp = retcode_loop pm_eserverparse resp

-- snprintf of a format with at most one %s.
unfoldable pub format : CStr → CStr → CStr
format [] arg = []
format (c ∷ []) arg = c ∷ []
format (c ∷ d ∷ r) arg = elim (c == b'%' && d == b's') [
  | true ↦ arg ++ format r arg
  | false ↦ c ∷ format (d ∷ r) arg
]

-- What snprintf leaves of a text in a buffer of CP_LINEMAX bytes.
unfoldable pub snprintf : CStr → CStr
snprintf s = take (cp_linemax - 1) s
