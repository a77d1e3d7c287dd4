-- ===== src/Argv.antt =====
-- libcommon/argv.c: splitting a command line into words. An argv array is the list of its strings
-- before the terminating NULL.
pub mod Words
mod Tests
use powerman.Base.{
  ℕ, zero, suc, ◌+◌, ◌≡◌, Bool, true, false, ◌||◌, not, List, [], ◌∷◌, ◌++◌, Option, none, some,
  if◌then◌else◌, length, is_empty,
}
use powerman.CStr.{CStr, isspace, strchr}

-- isspace(*str) || strchr(ignore, *str)
unfoldable pub is_sep : CStr → ℕ → Bool
is_sep ignore c = isspace c || strchr ignore c

-- while (*str && is_sep) str++
unfoldable pub skip_seps : CStr → CStr → CStr
skip_seps ignore [] = []
skip_seps ignore (c ∷ s) = if is_sep ignore c then skip_seps ignore s else c ∷ s

-- while (*str && !is_sep) str++
unfoldable pub skip_word : CStr → CStr → CStr
skip_word ignore [] = []
skip_word ignore (c ∷ s) = if is_sep ignore c then c ∷ s else skip_word ignore s

-- The bytes that skip_word goes past: memcpy(cpy, word, str - word).
unfoldable pub word : CStr → CStr → CStr
word ignore [] = []
word ignore (c ∷ s) = if is_sep ignore c then [] else c ∷ word ignore s

-- The word, none for NULL, and the place that *strp is left at.
unfoldable pub nextargv : CStr → CStr → Option CStr × CStr
unfolding skip_seps skip_word word
nextargv ignore str =
    let start = skip_seps ignore str in
    let w = word ignore start in (if is_empty w then none else some w, skip_word ignore start)

-- The do-while loop of _sizeargv; none when the fuel runs out.
unfoldable pub sizeargv_loop : ℕ → CStr → CStr → ℕ → Option ℕ
unfolding skip_seps skip_word
sizeargv_loop zero ignore str n = none
sizeargv_loop (suc fuel) ignore str n =
    let start = skip_seps ignore str in
    let n' = if is_empty start then n else n + 1 in
    let after = skip_word ignore start in
    let rest = sizeargv_loop fuel ignore after n' in if is_empty after then some n' else rest

-- Each round but the first starts on a shorter string.
unfoldable pub sizeargv : CStr → CStr → Option ℕ
unfolding sizeargv_loop
sizeargv ignore str = sizeargv_loop (suc (length str)) ignore str 0

unfoldable pub argv_length : List CStr → ℕ
argv_length [] = 0
argv_length (_ ∷ argv) = argv_length argv + 1

unfoldable pub argv_append : List CStr → CStr → List CStr
argv_append argv s = argv ++ s ∷ []

-- The for loop of argv_create; none when assert(argv[i] != NULL) fails.
unfoldable pub argv_fill : ℕ → CStr → CStr → Option (List CStr)
unfolding nextargv
argv_fill zero ignore cmdline = some []
argv_fill (suc argc) ignore cmdline =
    let r = nextargv ignore cmdline in
    let rest = argv_fill argc ignore r.1 in
    elim r.0 [ none ↦ none | some w ↦ elim rest [ none ↦ none | some argv ↦ some (w ∷ argv) ] ]

unfoldable pub argv_create : CStr → CStr → Option (List CStr)
unfolding sizeargv argv_fill
argv_create cmdline ignore = elim (sizeargv ignore cmdline) [
  | none ↦ none
  | some argc ↦ argv_fill argc ignore cmdline
]
