-- ===== src/Plmpower/Frames.antt =====
-- What plm_recv and plm_docmd make of the commands that the modem sends.
use mathlib.Core.List.{append_assoc}
use powerman.Base.{
  ℕ, zero, suc, ◌-◌, ◌≤◌, ◌<◌, ◌≡◌, refl, ap, ◌∙◌, sym, true, false, List, [], ◌∷◌, ◌++◌, Option,
  none, some, arith, All, leb, ◌==◌, length, length-append, take, drop, drop-append,
}
use powerman.Plmpower.{
  im_stx, im_nak, Reply, frame, nak, xread_all, body_length, stop, again, recv_command, discard,
  recv_pass, recv_retry, plm_recv, is_nak, docmd_loop, plm_docmd,
}

take-append : (xs ys : List ℕ) → take (length xs) (xs ++ ys) ≡ xs
take-append [] ys = refl
take-append (x ∷ xs) ys = ap (λ l. x ∷ l) (take-append xs ys)

xread_all-append : (n : ℕ) (xs ys : List ℕ) → length xs ≡ n → xread_all n (xs ++ ys) ≡ some (xs, ys)
unfolding xread_all
xread_all-append n xs ys h =
    let fits : leb n (length (xs ++ ys)) ≡ true = ground (arith, h, length-append xs ys) in
    rw (fits, xread_all)
      (ap (λ k. some (take k (xs ++ ys), drop k (xs ++ ys))) (sym h)
        ∙ ap (λ l. some (l, drop (length xs) (xs ++ ys))) (take-append xs ys)
        ∙ ap (λ l. some (xs, l)) (drop-append xs ys))

-- A command of the modem that nothing waits for.
pub record Unsolicited : Type 0 where
  pub cmd : ℕ
  pub body : List ℕ

abbrev pub IsUnsolicited : ℕ → Unsolicited → Type 0
IsUnsolicited cmd u = ((u.cmd == cmd) ≡ false) × (body_length u.cmd ≡ some (length u.body))

abbrev pub bytes : List Unsolicited → List ℕ
bytes [] = []
bytes (u ∷ us) = im_stx ∷ u.cmd ∷ (u.body ++ bytes us)

-- Replies of a modem that is busy: what comes before, and the response, or none for a NAK.
abbrev pub Refusals : Type 0
Refusals = List (List Unsolicited × Option (List ℕ))

-- A text, once and once more for each of them.
abbrev pub times : List ℕ → Refusals → List ℕ
times send' [] = send'
times send' (r ∷ rs) = send' ++ times send' rs

module _ (cmd recvlen : ℕ) where
  recv_pass-unsolicited :
      (u : Unsolicited) (s : List ℕ)
      → IsUnsolicited cmd u
      → recv_pass cmd recvlen (im_stx ∷ u.cmd ∷ (u.body ++ s)) ≡ again s
  unfolding recv_pass recv_command discard
  recv_pass-unsolicited u s h =
      rw (h.0) (rw (h.1, discard) (rw (xread_all-append (length u.body) u.body s refl) refl))

  recv_pass-frame :
      (body s : List ℕ)
      → length body ≡ recvlen - 2
      → recv_pass cmd recvlen (im_stx ∷ cmd ∷ (body ++ s)) ≡ stop (frame (im_stx ∷ cmd ∷ body), s)
  unfolding recv_pass recv_command
  recv_pass-frame body s h =
      let self : (cmd == cmd) ≡ true = ground arith in
      rw (self) (rw (xread_all-append (recvlen - 2) body s h) refl)

  recv_retry-skips :
      (us : List Unsolicited) (fuel : ℕ) (s : List ℕ) (r : Reply × List ℕ)
      → All (IsUnsolicited cmd) us
      → length us < fuel
      → recv_pass cmd recvlen s ≡ stop r
      → recv_retry fuel cmd recvlen (bytes us ++ s) ≡ r
  unfolding recv_retry
  recv_retry-skips us zero s r h f e = absurd (omega (arith, f))
  recv_retry-skips [] (suc fuel) s r h f e = rw (e, recv_retry) refl
  recv_retry-skips (u ∷ us) (suc fuel) s r h f e =
      let pass = recv_pass-unsolicited u (bytes us ++ s) h.0 in
      ap (λ t. recv_retry (suc fuel) cmd recvlen (im_stx ∷ u.cmd ∷ t))
        (append_assoc u.body (bytes us) s)
      ∙ rw (pass, recv_retry) (recv_retry-skips us fuel s r h.1 (omega (arith, f)) e)

  length-bytes : (us : List Unsolicited) → length us ≤ length (bytes us)
  length-bytes [] = omega arith
  length-bytes (u ∷ us) = omega (arith, length-bytes us, length-append u.body (bytes us))

  plm_recv-skips :
      (us : List Unsolicited) (s : List ℕ) (r : Reply × List ℕ)
      → All (IsUnsolicited cmd) us
      → recv_pass cmd recvlen s ≡ stop r
      → plm_recv cmd recvlen (bytes us ++ s) ≡ r
  unfolding plm_recv
  plm_recv-skips us s r h e =
      recv_retry-skips us (suc (length (bytes us ++ s))) s r h
        (omega (arith, length-bytes us, length-append (bytes us) s)) e

  -- The bytes of such a reply; a response has a NAK in its last byte.
  abbrev pub refused : Option (List ℕ) → List ℕ
  refused none = im_nak ∷ []
  refused (some body) = im_stx ∷ cmd ∷ body

  abbrev pub IsRefused : Option (List ℕ) → Type 0
  IsRefused none = Unit
  IsRefused (some body) =
      (length body ≡ recvlen - 2) × (is_nak recvlen (frame (im_stx ∷ cmd ∷ body)) ≡ true)

  abbrev pub IsRefusal : List Unsolicited × Option (List ℕ) → Type 0
  IsRefusal r = All (IsUnsolicited cmd) r.0 × IsRefused r.1

  abbrev pub all_refused : Refusals → List ℕ
  all_refused [] = []
  all_refused (r ∷ rs) = bytes r.0 ++ (refused r.1 ++ all_refused rs)

  plm_recv-refused :
      (r : List Unsolicited × Option (List ℕ)) (s : List ℕ)
      → IsRefusal r
      → (reply : Reply) × (plm_recv cmd recvlen (bytes r.0 ++ (refused r.1 ++ s)) ≡ (reply, s))
        × (is_nak recvlen reply ≡ true)
  unfolding recv_pass is_nak
  plm_recv-refused (us, none) s h = (nak, plm_recv-skips us (im_nak ∷ s) (nak, s) h.0 refl, refl)
  plm_recv-refused (us, some body) s h = (
    frame (im_stx ∷ cmd ∷ body),
    plm_recv-skips us (im_stx ∷ cmd ∷ (body ++ s)) (frame (im_stx ∷ cmd ∷ body), s) h.0
        (recv_pass-frame body s h.1.0),
    h.1.1,
  )

  docmd_loop-round :
      (send' sent s s' : List ℕ) (fuel : ℕ) (reply : Reply)
      → plm_recv cmd recvlen s ≡ (reply, s')
      → docmd_loop (suc fuel) send' cmd recvlen sent s ≡ elim (is_nak recvlen reply) [
        | true ↦ docmd_loop fuel send' cmd recvlen (sent ++ send') s'
        | false ↦ (reply, sent ++ send', s')
      ]
  unfolding docmd_loop
  docmd_loop-round send' sent s s' fuel reply e =
      ap
        (λ (p : Reply × List ℕ). elim (is_nak recvlen p.0) as (λ _. Reply × List ℕ × List ℕ) [
          | true ↦ docmd_loop fuel send' cmd recvlen (sent ++ send') p.1
          | false ↦ (p.0, sent ++ send', p.1)
        ])
        e

  docmd_loop-answered :
      (send' : List ℕ) (rs : Refusals) (us : List Unsolicited) (body s sent : List ℕ) (fuel : ℕ)
      → All IsRefusal rs
      → All (IsUnsolicited cmd) us
      → length body ≡ recvlen - 2
      → is_nak recvlen (frame (im_stx ∷ cmd ∷ body)) ≡ false
      → length rs < fuel
      → docmd_loop fuel send' cmd recvlen sent
          (all_refused rs ++ (bytes us ++ (im_stx ∷ cmd ∷ (body ++ s))))
        ≡ (frame (im_stx ∷ cmd ∷ body), sent ++ times send' rs, s)
  unfolding docmd_loop
  docmd_loop-answered send' rs us body s sent zero hr hu hb ok f = absurd (omega (arith, f))
  docmd_loop-answered send' [] us body s sent (suc fuel) hr hu hb ok f =
      let got =
        plm_recv-skips us (im_stx ∷ cmd ∷ (body ++ s)) (frame (im_stx ∷ cmd ∷ body), s) hu
          (recv_pass-frame body s hb) in
      docmd_loop-round send' sent (bytes us ++ (im_stx ∷ cmd ∷ (body ++ s))) s fuel
        (frame (im_stx ∷ cmd ∷ body)) got
      ∙ rw (ok) refl
  docmd_loop-answered send' (r ∷ rs) us body s sent (suc fuel) hr hu hb ok f =
      let more = bytes us ++ (im_stx ∷ cmd ∷ (body ++ s)) in
      let (reply, got, busy) = plm_recv-refused r (all_refused rs ++ more) hr.0 in
      ap (docmd_loop (suc fuel) send' cmd recvlen sent) (
        append_assoc (bytes r.0) (refused r.1 ++ all_refused rs) more
        ∙ ap (λ t. bytes r.0 ++ t) (append_assoc (refused r.1) (all_refused rs) more))
      ∙ docmd_loop-round send' sent (bytes r.0 ++ (refused r.1 ++ (all_refused rs ++ more)))
          (all_refused rs ++ more) fuel reply got
      ∙ (rw (busy) (
          docmd_loop-answered send' rs us body s (sent ++ send') fuel hr.1 hu hb ok
            (omega (arith, f))
          ∙ ap (λ t. (frame (im_stx ∷ cmd ∷ body), t, s))
              (append_assoc sent send' (times send' rs))))

  length-refused : (o : Option (List ℕ)) → 1 ≤ length (refused o)
  length-refused none = omega arith
  length-refused (some body) = omega arith

  length-all_refused : (rs : Refusals) → length rs ≤ length (all_refused rs)
  length-all_refused [] = omega arith
  length-all_refused (r ∷ rs) = omega (
    arith,
    length-all_refused rs,
    length-refused r.1,
    length-append (bytes r.0) (refused r.1 ++ all_refused rs),
    length-append (refused r.1) (all_refused rs),
  )

  -- plm_docmd sends a command once, and once more after each reply of a busy modem, and returns the
  -- first response that does not end in a NAK; it discards the commands that nothing waits for, and
  -- reads no byte behind the response.
  pub plm_docmd-answered :
      (b0 : ℕ) (args : List ℕ) (rs : Refusals) (us : List Unsolicited) (body s : List ℕ)
      → All IsRefusal rs
      → All (IsUnsolicited cmd) us
      → length body ≡ recvlen - 2
      → is_nak recvlen (frame (im_stx ∷ cmd ∷ body)) ≡ false
      → plm_docmd
          (b0 ∷ cmd ∷ args)
          recvlen
          (all_refused rs ++ (bytes us ++ (im_stx ∷ cmd ∷ (body ++ s))))
        ≡ (frame (im_stx ∷ cmd ∷ body), times (b0 ∷ cmd ∷ args) rs, s)
  unfolding plm_docmd
  plm_docmd-answered b0 args rs us body s hr hu hb ok =
      let more = bytes us ++ (im_stx ∷ cmd ∷ (body ++ s)) in
      docmd_loop-answered (b0 ∷ cmd ∷ args) rs us body s [] (suc (length (all_refused rs ++ more)))
        hr hu hb ok (omega (arith, length-all_refused rs, length-append (all_refused rs) more))
