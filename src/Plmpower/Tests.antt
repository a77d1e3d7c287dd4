-- ===== src/Plmpower/Tests.antt =====
-- A modem that is busy twice before it accepts an "on".
use powerman.Base.{ℕ, ◌≡◌, refl, false, List, [], ◌∷◌, ◌++◌, none, some, All}
use powerman.Plmpower.{frame, exits, is_nak, body_length, plm_recv, plm_docmd, plm_send_insteon}
use powerman.Plmpower.Frames.{
  Unsolicited, bytes, all_refused, times, Refusals, IsUnsolicited, IsRefusal, plm_docmd-answered,
}

-- A message of another device.
abbrev from_other : Unsolicited
from_other = record { cmd = 80; body = 1 ∷ 2 ∷ 3 ∷ 4 ∷ 5 ∷ 6 ∷ 7 ∷ 17 ∷ 255 ∷ [] }

abbrev body_with : ℕ → List ℕ
body_with ack = 26 ∷ 43 ∷ 60 ∷ 3 ∷ 18 ∷ 255 ∷ ack ∷ []

abbrev busy_twice : Refusals
busy_twice = (from_other ∷ [], none) ∷ ([], some (body_with 21)) ∷ []

abbrev on_request : List ℕ
on_request = 2 ∷ 98 ∷ 26 ∷ 43 ∷ 60 ∷ 3 ∷ 18 ∷ 255 ∷ []

abbrev modem : List ℕ
modem =
    all_refused 98 9 busy_twice
    ++ (bytes (from_other ∷ []) ++ (2 ∷ 98 ∷ (body_with 6 ++ bytes (from_other ∷ []))))

sent_three_times : plm_send_insteon (26, 43, 60) 18 255 modem ≡ (
  frame (2 ∷ 98 ∷ body_with 6),
  on_request ++ (on_request ++ on_request),
  bytes (from_other ∷ []),
)
unfolding plm_send_insteon
sent_three_times = refl

-- A button of the modem is reset: an event of no further bytes.
reset_event : (plm_recv 98 9 (2 ∷ 85 ∷ 2 ∷ 98 ∷ body_with 6)).0 ≡ frame (2 ∷ 98 ∷ body_with 6)
unfolding plm_recv
reset_event = refl

short_frame : (plm_recv 98 9 (2 ∷ 98 ∷ 26 ∷ [])).0 ≡ exits
unfolding plm_recv
short_frame = refl

refusals : All (IsRefusal 98 9) busy_twice
unfolding body_length is_nak
refusals = search

events : All (IsUnsolicited 98) (from_other ∷ [])
unfolding body_length
events = search

accepted : is_nak 9 (frame (2 ∷ 98 ∷ body_with 6)) ≡ false
unfolding is_nak
accepted = refl

plm_docmd-answered_example :
    plm_docmd on_request 9 modem
    ≡ (frame (2 ∷ 98 ∷ body_with 6), times on_request busy_twice, bytes (from_other ∷ []))
plm_docmd-answered_example =
    plm_docmd-answered 98 9 2 (26 ∷ 43 ∷ 60 ∷ 3 ∷ 18 ∷ 255 ∷ []) busy_twice (from_other ∷ [])
      (body_with 6) (bytes (from_other ∷ [])) refusals events refl accepted
