-- ===== src/Libpowerman/StatusLine.antt =====
-- The lines of the daemon that tell the state of a node: each tells one node and one state.
use mathlib.Core.List.{reverse, reverse-append, append_cancel_right, append_cancel_left}
use powerman.Base.{
  inl, inr, ℕ, ◌≡◌, refl, ap, ◌∙◌, sym, ◌&&◌, Bool, true, false, ◌++◌, arith, Bool-cases, get_elem?,
}
use powerman.CStr.{CStr, codes, str_eq, str_eq_of, str_eq_self}
use powerman.Arglist.{InterpState, st_unknown, st_off, st_on}
use powerman.Client.Reply.{state_text, same_state}
use powerman.Client.Wire.{cp_eol}

-- The line of a node and a state.
abbrev pub status_line : CStr → InterpState → CStr
status_line node st = codes "303 " ++ (node ++ (codes ": " ++ (state_text st ++ cp_eol)))

abbrev pub tail_of : InterpState → CStr
tail_of st = codes ": " ++ (state_text st ++ cp_eol)

tails_differ :
    (k : ℕ) (n m s t : CStr)
    → n ++ s ≡ m ++ t
    → get_elem? (reverse s ++ reverse n) k ≡ get_elem? (reverse t ++ reverse m) k
tails_differ k n m s t e =
    ap (λ x. get_elem? x k) (sym (reverse-append n s) ∙ ap reverse e ∙ reverse-append m t)

-- The tails of different states differ in their third or fourth byte from the end.
tail_of-inj :
    (n m : CStr) (st st' : InterpState)
    → n ++ tail_of st ≡ m ++ tail_of st'
    → same_state st st' ≡ true
unfolding state_text
tail_of-inj n m st_on st_on e = refl
tail_of-inj n m st_off st_off e = refl
tail_of-inj n m st_unknown st_unknown e = refl
tail_of-inj n m st_on st_off e =
    let h = tails_differ 2 n m (tail_of st_on) (tail_of st_off) e in ground (arith, h)
tail_of-inj n m st_off st_on e =
    let h = tails_differ 2 n m (tail_of st_off) (tail_of st_on) e in ground (arith, h)
tail_of-inj n m st_off st_unknown e =
    let h = tails_differ 2 n m (tail_of st_off) (tail_of st_unknown) e in ground (arith, h)
tail_of-inj n m st_unknown st_off e =
    let h = tails_differ 2 n m (tail_of st_unknown) (tail_of st_off) e in ground (arith, h)
tail_of-inj n m st_on st_unknown e =
    let h = tails_differ 3 n m (tail_of st_on) (tail_of st_unknown) e in ground (arith, h)
tail_of-inj n m st_unknown st_on e =
    let h = tails_differ 3 n m (tail_of st_unknown) (tail_of st_on) e in ground (arith, h)

same_state-eq : (st st' : InterpState) → same_state st st' ≡ true → st ≡ st'
same_state-eq st_on st_on h = refl
same_state-eq st_off st_off h = refl
same_state-eq st_unknown st_unknown h = refl
same_state-eq st_on st_off h = cc
same_state-eq st_on st_unknown h = cc
same_state-eq st_off st_on h = cc
same_state-eq st_off st_unknown h = cc
same_state-eq st_unknown st_on h = cc
same_state-eq st_unknown st_off h = cc

status_line-inj :
    (n m : CStr) (st st' : InterpState)
    → status_line n st ≡ status_line m st'
    → (n ≡ m) × (same_state st st' ≡ true)
status_line-inj n m st st' e =
    let tails = append_cancel_left (codes "303 ") (n ++ tail_of st) (m ++ tail_of st') e in
    let same = tail_of-inj n m st st' tails in
    let full = ap (λ x. n ++ tail_of x) (sym (same_state-eq st st' same)) ∙ tails in
    (append_cancel_right n m (tail_of st') full, same)

str_eq_by : (s t : CStr) (c : Bool) → (s ≡ t → c ≡ true) → (c ≡ true → s ≡ t) → str_eq s t ≡ c
str_eq_by s t true f g = ap (str_eq s) (sym (g refl)) ∙ str_eq_self s
str_eq_by s t false f g = elim (Bool-cases (str_eq s t)) [
  | inl h ↦ absurd (let bad = f (str_eq_of s t h) in cc)
  | inr h ↦ h
]

-- Lines are equal exactly if their nodes and their states are.
pub str_eq-status_line :
    (n m : CStr) (st st' : InterpState)
    → str_eq (status_line n st) (status_line m st') ≡ (str_eq n m && same_state st st')
str_eq-status_line n m st st' =
    str_eq_by (status_line n st) (status_line m st') (str_eq n m && same_state st st')
      (λ e.
        let (node, same) = status_line-inj n m st st' e in
        ground (arith, node, same, str_eq_self m))
      (λ h.
        let node : n ≡ m = str_eq_of n m (ground arith) in
        let same : st ≡ st' = same_state-eq st st' (ground arith) in
        ap (λ x. status_line x st) node ∙ ap (status_line m) same)
