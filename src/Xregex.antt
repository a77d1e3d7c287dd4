-- ===== src/Xregex.antt =====
-- libcommon/xregex.c: matching a compiled regular expression, and the subexpressions of a match.
-- regexec() is a parameter: from an expression (its text) and a string it gives none, or the
-- offsets of the match and of each subexpression, none for a rm_so of -1.
use powerman.Base.{
  ℕ, ◌+◌, ◌-◌, Bool, true, false, ◌&&◌, ◌||◌, not, List, [], ◌∷◌, Option, none, some, if◌then◌else◌,
  ltb, get_elem?, take, drop,
}
use powerman.CStr.{CStr}

abbrev pub Offsets : Type 0
Offsets = List (Option (ℕ × ℕ))

abbrev pub Regexec : Type 0
Regexec = CStr → CStr → Option Offsets

-- `pmatch` and `str` are those of the last call that matched; `result` is true for 0.
pub record XregexMatch : Type 0 where
  pub nmatch : ℕ
  pub pmatch : Offsets
  pub str : Option CStr
  pub result : Bool
  pub used : Bool

unfoldable pub xregex_match_create : ℕ → XregexMatch
xregex_match_create nmatch = record {
  nmatch = nmatch + 1;
  pmatch = [];
  str = none;
  result = false;
  used = false;
}

unfoldable pub xregex_match_recycle : XregexMatch → XregexMatch
xregex_match_recycle xm = record xm { str = none; result = false; used = false }

-- xregex_exec with a match object, which is fresh or recycled.
unfoldable pub xregex_exec : Regexec → CStr → CStr → XregexMatch → XregexMatch × Bool
xregex_exec regexec re s xm = elim (regexec re s) [
  | none ↦ (record xm { result = false; used = true }, false)
  | some pm ↦
      (record xm { pmatch = take xm.nmatch pm; str = some s; result = true; used = true }, true)
]

-- rm_eo of the whole match.
unfoldable pub match_end : Offsets → ℕ
match_end (some (so, eo) ∷ pm) = eo
match_end _ = 0

unfoldable pub xregex_match_strlen : XregexMatch → ℕ
unfolding match_end
xregex_match_strlen xm = match_end xm.pmatch

abbrev pub text : Option CStr → CStr
text none = []
text (some s) = s

unfoldable pub xregex_match_strdup : XregexMatch → Option CStr
unfolding xregex_match_strlen
xregex_match_strdup xm =
    if xm.result then some (take (xregex_match_strlen xm) (text xm.str)) else none

-- The offsets of subexpression `i`, none if there are none or `i` is out of range.
abbrev pub sub_offsets : XregexMatch → ℕ → Option (ℕ × ℕ)
sub_offsets xm i = elim (get_elem? xm.pmatch i) [ none ↦ none | some o ↦ o ]

-- The copy of a subexpression, `i` none for a negative index; and whether an assertion fails, for a
-- match object that was not used, or for a subexpression that matched the empty string.
unfoldable pub xregex_match_sub_strdup : XregexMatch → Option ℕ → Option CStr × Bool
xregex_match_sub_strdup xm none = (none, not xm.used)
xregex_match_sub_strdup xm (some i) =
    if xm.result && ltb i xm.nmatch
    then elim (sub_offsets xm i) [
      | none ↦ (none, not xm.used)
      | some (so, eo) ↦
          (some (take (eo - so) (drop so (text xm.str))), not xm.used || not (ltb so eo))
    ]
    else (none, not xm.used)
