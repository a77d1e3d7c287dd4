-- ===== src/Hostlist.antt =====
-- What the program uses of liblsd/hostlist.h, a library of another project. A hostlist_t is read as
-- the sequence of host names that its iterator yields; the operations are parameters, with the
-- documented behaviour that the proofs rely on.
use powerman.Base.{ℕ, ◌≡◌, List, [], ◌∷◌, ◌++◌, Bool, Option, is_some, if◌then◌else◌}
use powerman.CStr.{CStr, contains, str_eq}

-- A list without the first host that has the name.
unfoldable pub erase : CStr → List CStr → List CStr
erase host [] = []
erase host (h ∷ hl) = if str_eq h host then hl else h ∷ erase host hl

pub record Hostlist : Type 0 where
  -- hostlist_create(str); none when it fails.
  pub create : CStr → Option (List CStr)
  -- Whether errno is ERANGE or EINVAL when hostlist_create(str) fails.
  pub invalid_range : CStr → Bool
  -- hostlist_find(hl, host); none stands for -1.
  pub find : List CStr → CStr → Option ℕ
  -- hostlist_push(hl, hosts)
  pub push : List CStr → CStr → List CStr
  -- hostlist_sort(hl)
  pub sort : List CStr → List CStr
  -- hostlist_ranged_string(hl, n, buf), into a buffer that is large enough.
  pub ranged_string : List CStr → CStr
  -- hostlist_push_host(hl, host), hostlist_push_list(hl1, hl2) and hostlist_delete_host(hl, host):
  -- the list that they leave.
  pub push_host : List CStr → CStr → List CStr
  pub push_list : List CStr → List CStr → List CStr
  pub delete_host : List CStr → CStr → List CStr
  -- "Push a single host onto the hostlist hl."
  pub push_host_appends : (hl : List CStr) (host : CStr) → push_host hl host ≡ hl ++ host ∷ []
  -- "Push a hostlist (hl2) onto another list (hl1)"
  pub push_list_appends : (hl hl' : List CStr) → push_list hl hl' ≡ hl ++ hl'
  -- "Deletes the first host that matches `hostname' from the hostlist hl."
  pub delete_host_erases : (hl : List CStr) (host : CStr) → delete_host hl host ≡ erase host hl
  -- "Searches hostlist hl for the first host matching hostname and returns position in list if
  -- found. Returns -1 if host is not found."
  pub find_contains : (hl : List CStr) (host : CStr) → is_some (find hl host) ≡ contains host hl
