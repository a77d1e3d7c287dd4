-- ===== src/Conf/Aliases.antt =====
-- What conf_exp_aliases does to a list of hosts.
use mathlib.Core.List.{append-nil, append_assoc}
use powerman.Base.{
  ℕ, zero, suc, ◌<◌, ◌≡◌, refl, sym, ap, ◌∙◌, inl, inr, true, List, [], ◌∷◌, ◌++◌, none, some,
  arith, length, Option-cases, Bool-cases,
}
use powerman.CStr.{CStr, str_eq, str_eq_self, str_eq_of}
use powerman.Hostlist.{Hostlist, erase}
use powerman.Conf.{Alias, find_alias, next_alias, exp_loop, conf_exp_aliases}

-- The hosts that are no aliases.
pub plain_hosts : List Alias → List CStr → List CStr
plain_hosts aliases [] = []
plain_hosts aliases (host ∷ hl) = elim (find_alias aliases host) [
  | none ↦ host ∷ plain_hosts aliases hl
  | some a ↦ plain_hosts aliases hl
]

-- What the aliases stand for, one after the other.
pub expansions : List Alias → List CStr → List CStr
expansions aliases [] = []
expansions aliases (host ∷ hl) = elim (find_alias aliases host) [
  | none ↦ expansions aliases hl
  | some a ↦ a.hl ++ expansions aliases hl
]

next_alias-none :
    (aliases : List Alias) (hl : List CStr)
    → next_alias aliases hl ≡ none
    → (plain_hosts aliases hl ≡ hl) × (expansions aliases hl ≡ [])
unfolding next_alias plain_hosts expansions
next_alias-none aliases [] h = (refl, refl)
next_alias-none aliases (host ∷ hl) h = elim (Option-cases (find_alias aliases host)) [
  | inl e ↦
      let rest = next_alias-none aliases hl (ground arith) in
      (ground (arith, e, rest.0), ground (arith, e, rest.1))
  | inr (a, e) ↦ (ground arith, ground arith)
]

-- The host is an alias, and the first one.
abbrev Removed : List Alias → List CStr → CStr → Alias → Type 0
Removed aliases hl host a =
    (plain_hosts aliases (erase host hl) ≡ plain_hosts aliases hl)
    × (expansions aliases hl ≡ a.hl ++ expansions aliases (erase host hl))
    × (length hl ≡ suc (length (erase host hl)))

Removed-skip :
    (aliases : List Alias) (x : CStr) (hl : List CStr) (host : CStr) (a : Alias)
    → find_alias aliases x ≡ none
    → find_alias aliases host ≡ some a
    → Removed aliases hl host a
    → Removed aliases (x ∷ hl) host a
unfolding plain_hosts expansions erase
Removed-skip aliases x hl host a e f r = elim (Bool-cases (str_eq x host)) [
  | inl s ↦ absurd (ground (arith, ap (find_alias aliases) (str_eq_of x host s), e, f))
  | inr s ↦ (ground (arith, r.0), ground (arith, r.1), ground (arith, r.2))
]

next_alias-some :
    (aliases : List Alias) (hl : List CStr) (host : CStr) (a : Alias)
    → next_alias aliases hl ≡ some (host, a)
    → (find_alias aliases host ≡ some a) × Removed aliases hl host a
unfolding next_alias plain_hosts expansions erase
next_alias-some aliases [] host a h = absurd (cc h)
next_alias-some aliases (x ∷ hl) host a h = elim (Option-cases (find_alias aliases x)) [
  | inl e ↦
      let (f, r) = next_alias-some aliases hl host a (ground arith) in
      (f, Removed-skip aliases x hl host a e f r)
  | inr (b, e) ↦
      let q : x ≡ host = ground (arith, h, e) in
      let r : b ≡ a = ground (arith, h, e) in
      let s : str_eq x host ≡ true = ap (str_eq x) (sym q) ∙ str_eq_self x in
      (
        ap (find_alias aliases) (sym q) ∙ e ∙ ap some r,
        (ground (arith, e, s), ground (arith, e, s, r), ground (arith, s)),
      )
]

exp_loop-some :
    (fuel : ℕ) (hostlist : Hostlist) (aliases : List Alias) (hl new : List CStr)
    → length hl < fuel
    → exp_loop fuel hostlist aliases hl new
      ≡ some (plain_hosts aliases hl, new ++ expansions aliases hl)
unfolding exp_loop
exp_loop-some zero hostlist aliases hl new h = elim h [ ]
exp_loop-some (suc fuel) hostlist aliases hl new h = elim (Option-cases (next_alias aliases hl)) [
  | inl e ↦ let (p, q) = next_alias-none aliases hl e in rw (e, exp_loop, p, q, append-nil new) refl
  | inr ((host, a), e) ↦
      let (f, (p, q, n)) = next_alias-some aliases hl host a e in
      let hl' = erase host hl in
      let rest = exp_loop-some fuel hostlist aliases hl' (new ++ a.hl) (omega (arith, h, n)) in
      rw
        (
          e,
          exp_loop,
          hostlist.delete_host_erases hl host,
          hostlist.push_list_appends new a.hl,
          rest,
          p,
          q,
          append_assoc new a.hl (expansions aliases hl'),
        )
        refl
]

-- With fuel above the number of hosts, conf_exp_aliases ends: it leaves the hosts that are no
-- aliases, in their order, and after them what the aliases stand for, in their order. Hosts that an
-- alias stands for are not expanded again.
pub conf_exp_aliases_expands :
    (hostlist : Hostlist) (aliases : List Alias) (hl : List CStr)
    → conf_exp_aliases (suc (length hl)) hostlist aliases hl
      ≡ some (plain_hosts aliases hl ++ expansions aliases hl)
unfolding conf_exp_aliases
conf_exp_aliases_expands hostlist aliases hl =
    rw
      (
        exp_loop-some (suc (length hl)) hostlist aliases hl [] (omega arith),
        conf_exp_aliases,
        hostlist.push_list_appends (plain_hosts aliases hl) (expansions aliases hl),
      )
      refl
