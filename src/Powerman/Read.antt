-- ===== src/Powerman/Read.antt =====
-- What xreadstr and _expect read of what the daemon sends.
use mathlib.Core.List.{reverse, reverse_aux, reverse-reverse, append_assoc, append-nil}
use powerman.Base.{
  ℕ, zero, suc, ◌+◌, ◌-◌, ◌≤◌, ◌<◌, ◌≡◌, refl, ap, ◌∙◌, sym, true, false, min, not, ◌&&◌, inl, inr,
  List, [], ◌∷◌, ◌++◌, some, arith, length, take, drop, is_empty, ltb, Bool-cases, List-cases,
  take-append-drop, length-append,
}
use powerman.CStr.{CStr, str_eq, str_eq_of, str_eq_self}
use powerman.Client.Wire.{cp_eol}
use powerman.Libpowerman.Lines.{IsLine}
use powerman.Powerman.Session.{
  Session, Run, done, runs_on, ends_line, readstr_loop, xreadstr, expect_loop, expect, and_then,
}

ends_line-IsLine : (d : ℕ) (str : CStr) → IsLine str → ends_line (d ∷ str) ≡ false
unfolding ends_line
ends_line-IsLine d [] h = refl
ends_line-IsLine d (c ∷ str) h = rw (h.0) refl

readstr_loop-more :
    (str : CStr) (c : ℕ) (r : List ℕ)
    → IsLine str
    → readstr_loop str (c ∷ r) ≡ readstr_loop (c ∷ str) r
unfolding readstr_loop
readstr_loop-more str c r h = rw (ends_line-IsLine c str h, readstr_loop) refl

readstr_loop-line :
    (str l : CStr) (r : List ℕ)
    → IsLine str
    → IsLine l
    → readstr_loop str (l ++ (cp_eol ++ r)) ≡ some (reverse (reverse_aux l str), r)
readstr_loop-line str [] r hs hl =
    readstr_loop-more str 13 (10 ∷ r) hs ∙ (unfold readstr_loop ends_line in refl)
readstr_loop-line str (c ∷ l) r hs hl =
    readstr_loop-more str c (l ++ (cp_eol ++ r)) hs
    ∙ readstr_loop-line (c ∷ str) l r (hl.0, hs) hl.1

pub xreadstr-line : (l : CStr) (r : List ℕ) → IsLine l → xreadstr (l ++ (cp_eol ++ r)) ≡ some (l, r)
unfolding xreadstr
xreadstr-line l r h = readstr_loop-line [] l r tt h ∙ ap (λ x. some (x, r)) (reverse-reverse l)

take-prefix : (n : ℕ) (xs ys : List ℕ) → n ≤ length xs → take n (xs ++ ys) ≡ take n xs
take-prefix zero xs ys h = refl
take-prefix (suc n) [] ys h = absurd (omega arith)
take-prefix (suc n) (x ∷ xs) ys h = ap (λ l. x ∷ l) (take-prefix n xs ys (omega (arith, h)))

drop-prefix : (n : ℕ) (xs ys : List ℕ) → n ≤ length xs → drop n (xs ++ ys) ≡ drop n xs ++ ys
drop-prefix zero xs ys h = refl
drop-prefix (suc n) [] ys h = absurd (omega arith)
drop-prefix (suc n) (x ∷ xs) ys h = drop-prefix n xs ys (omega (arith, h))

length-take : (n : ℕ) (xs : List ℕ) → length (take n xs) ≡ min n (length xs)
length-take zero xs = omega arith
length-take (suc n) [] = omega arith
length-take (suc n) (x ∷ xs) = omega (arith, length-take n xs)

take-taken : (n : ℕ) (xs : List ℕ) → take (length (take n xs)) xs ≡ take n xs
take-taken zero xs = refl
take-taken (suc n) [] = refl
take-taken (suc n) (x ∷ xs) = ap (λ l. x ∷ l) (take-taken n xs)

append-is_cons : (xs ys : List ℕ) (y : ℕ) → (z : ℕ) × (zs : List ℕ) × (xs ++ y ∷ ys ≡ z ∷ zs)
append-is_cons [] ys y = (y, ys, refl)
append-is_cons (x ∷ xs) ys y = (x, xs ++ y ∷ ys, refl)

module _ (sizes : ℕ → ℕ) (str : CStr) where
  -- A round of _expect, by the bytes that its read gets.
  after_read : ℕ → CStr → ℕ → Session → CStr → Run CStr
  unfolding str_eq expect_loop
  after_read fuel buf len s res =
      let s' = record s { from = drop (length res) s.from } in
      elim (not (str_eq str (buf ++ res)) && ltb 0 (len - length res)) [
        | true ↦ expect_loop sizes fuel str (buf ++ res) (len - length res) s'
        | false ↦ done (buf ++ res) s'
      ]

  expect_loop-round :
      (fuel : ℕ) (buf : CStr) (len : ℕ) (s : Session)
      → is_empty s.from && s.reset ≡ false
      → expect_loop sizes (suc fuel) str buf len s
        ≡ after_read fuel buf len s (take (min len (suc (sizes (length buf)))) s.from)
  unfolding after_read expect_loop
  expect_loop-round fuel buf len s h = rw (h, expect_loop) refl

  -- A round that leaves some of the text to be read.
  after_read-more :
      (fuel : ℕ) (buf : CStr) (len : ℕ) (s : Session) (res d : CStr) (c : ℕ)
      → str ≡ (buf ++ res) ++ c ∷ d
      → length res < len
      → after_read fuel buf len s res
        ≡ expect_loop sizes fuel str
            (buf ++ res)
            (len - length res)
            (record s { from = drop (length res) s.from })
  unfolding after_read
  after_read-more fuel buf len s res d c e h =
      let differs : str_eq str (buf ++ res) ≡ false = elim (Bool-cases (str_eq str (buf ++ res))) [
        | inr f ↦ f
        | inl t ↦ absurd (
            omega (
              arith,
              ap (λ (x : CStr). length x) (sym (str_eq_of str (buf ++ res) t) ∙ e),
              length-append (buf ++ res) (c ∷ d),
            ))
      ] in
      let left : ltb 0 (len - length res) ≡ true = ground (arith, h) in
      rw (differs, after_read) (rw (left) refl)

  after_read-last :
      (fuel : ℕ) (buf : CStr) (len : ℕ) (s : Session) (res : CStr)
      → str ≡ buf ++ res
      → after_read fuel buf len s res ≡ done str (record s { from = drop (length res) s.from })
  unfolding after_read
  after_read-last fuel buf len s res e =
      let same : str_eq str (buf ++ res) ≡ true =
        ap (λ x. str_eq str x) (sym e) ∙ str_eq_self str in
      rw (same, after_read)
        (ap (λ x. done x (record s { from = drop (length res) s.from })) (sym e))

  -- The text comes, whatever the sizes of the reads.
  expect_loop-text :
      (fuel : ℕ) (buf : CStr) (c : ℕ) (y r : CStr) (s : Session)
      → length y < fuel
      → str ≡ buf ++ c ∷ y
      → expect_loop sizes fuel str buf (suc (length y)) (record s { from = c ∷ y ++ r })
        ≡ done str (record s { from = r })
  expect_loop-text zero buf c y r s h e = absurd (omega (arith, h))
  expect_loop-text (suc fuel) buf c y r s h e =
      let len = suc (length y) in
      let s' = record s { from = c ∷ y ++ r } in
      let n = min len (suc (sizes (length buf))) in
      let res = take n (c ∷ y) in
      let n_le : n ≤ length (c ∷ y) = omega arith in
      let n_is : length res ≡ n = omega (arith, length-take n (c ∷ y)) in
      let whole : res ++ drop n (c ∷ y) ≡ c ∷ y = take-append-drop n (c ∷ y) in
      let rest : drop (length res) (c ∷ y ++ r) ≡ drop n (c ∷ y) ++ r =
        ap (λ k. drop k (c ∷ y ++ r)) n_is ∙ drop-prefix n (c ∷ y) r n_le in
      expect_loop-round fuel buf len s' refl
      ∙ ap (λ t. after_read fuel buf len s' t) (take-prefix n (c ∷ y) r n_le)
      ∙ elim (List-cases (drop n (c ∷ y))) [
        | inl none' ↦
            after_read-last fuel buf len s' res
              (e ∙ ap (λ t. buf ++ t) (sym whole ∙ ap (λ t. res ++ t) none' ∙ append-nil res))
            ∙ ap (λ t. done str (record s { from = t })) (rest ∙ ap (λ t. t ++ r) none')
        | inr (d, ds, some') ↦
            let split : str ≡ (buf ++ res) ++ d ∷ ds =
              e
              ∙ ap (λ t. buf ++ t) (sym whole ∙ ap (λ t. res ++ t) some')
              ∙ sym (append_assoc buf res (d ∷ ds)) in
            let left : length y ≡ n + length ds = omega (
              arith,
              n_is,
              ap (λ (t : CStr). length t) whole,
              length-append res (drop n (c ∷ y)),
              ap (λ (t : CStr). length t) some',
            ) in
            let less : len - length res ≡ suc (length ds) = omega (arith, left, n_is) in
            after_read-more fuel buf len s' res ds d split (omega (arith, left, n_is))
            ∙ ap
                (λ k.
                  expect_loop sizes fuel str (buf ++ res) k
                    (record s { from = drop (length res) (c ∷ y ++ r) }))
                less
            ∙ ap
                (λ t.
                  expect_loop sizes fuel str (buf ++ res) (suc (length ds)) (record s { from = t }))
                (rest ∙ ap (λ t. t ++ r) some')
            ∙ expect_loop-text fuel (buf ++ res) d ds r s (omega (arith, left, h)) split
      ]

  -- The server closes the connection before the whole text has come.
  expect_loop-closed :
      (fuel : ℕ) (buf x : CStr) (c : ℕ) (q : CStr) (s : Session)
      → str ≡ buf ++ (x ++ c ∷ q)
      → s.reset ≡ false
      → expect_loop sizes fuel str buf (length (x ++ c ∷ q)) (record s { from = x }) ≡ runs_on
  unfolding expect_loop
  expect_loop-closed zero buf x c q s e open' = refl
  expect_loop-closed (suc fuel) buf x c q s e open' =
      let len = length (x ++ c ∷ q) in
      let s' = record s { from = x } in
      let res = take (min len (suc (sizes (length buf)))) x in
      let x' = drop (length res) x in
      let whole : res ++ x' ≡ x =
        ap (λ t. t ++ x') (sym (take-taken (min len (suc (sizes (length buf)))) x))
        ∙ take-append-drop (length res) x in
      let (d, ds, cons) = append-is_cons x' q c in
      let split : str ≡ (buf ++ res) ++ (x' ++ c ∷ q) =
        e
        ∙ ap (λ t. buf ++ t) (ap (λ t. t ++ c ∷ q) (sym whole) ∙ append_assoc res x' (c ∷ q))
        ∙ sym (append_assoc buf res (x' ++ c ∷ q)) in
      let left : len ≡ length res + length (x' ++ c ∷ q) =
        ap (λ (t : CStr). length (t ++ c ∷ q)) (sym whole)
        ∙ ap (λ (t : CStr). length t) (append_assoc res x' (c ∷ q))
        ∙ length-append res (x' ++ c ∷ q) in
      let some' : length (x' ++ c ∷ q) ≡ suc (length ds) = ap (λ (t : CStr). length t) cons in
      expect_loop-round fuel buf len s' (ground (arith, open'))
      ∙ after_read-more fuel buf len s' res ds d (split ∙ ap (λ t. (buf ++ res) ++ t) cons)
          (omega (arith, left, some'))
      ∙ ap (λ k. expect_loop sizes fuel str (buf ++ res) k (record s { from = x' }))
          (omega (arith, left))
      ∙ expect_loop-closed fuel (buf ++ res) x' c q s split open'

pub expect-text :
    (sizes : ℕ → ℕ) (c : ℕ) (y r : CStr) (s : Session)
    → expect sizes (c ∷ y) (record s { from = c ∷ y ++ r }) ≡ done tt (record s { from = r })
unfolding expect and_then
expect-text sizes c y r s =
    let reads =
      expect_loop-text sizes (c ∷ y) (suc (suc (length y))) [] c y r s (omega arith) refl in
    rw (reads, expect) (rw (str_eq_self (c ∷ y)) refl)

-- If the server closes the connection before all of a text that _expect waits for has come, its loop
-- never ends, however the bytes come.
pub expect_hangs :
    (sizes : ℕ → ℕ) (x : CStr) (c : ℕ) (q : CStr) (s : Session) (fuel : ℕ)
    → s.reset ≡ false
    → expect_loop sizes fuel (x ++ c ∷ q) [] (length (x ++ c ∷ q)) (record s { from = x }) ≡ runs_on
expect_hangs sizes x c q s fuel open' =
    expect_loop-closed sizes (x ++ c ∷ q) fuel [] x c q s refl open'
