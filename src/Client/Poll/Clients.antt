-- ===== src/Client/Poll/Clients.antt =====
-- The list of clients, when their ids are distinct.
use powerman.Base.{
  ℕ, ◌≤◌, ◌<◌, ◌≡◌, ◌≢◌, refl, ap, inl, inr, ◌==◌, List, [], ◌∷◌, ◌++◌, none, some, arith,
  if◌then◌else◌, All, Bool-cases,
}
use powerman.Client.{Client, find_client, set_client}
use powerman.Client.Poll.{delete_client}

-- No two clients have one id.
abbrev pub Distinct : List Client → Type 0
Distinct [] = Unit
Distinct (c ∷ cs) = (find_client cs c.client_id ≡ none) × Distinct cs

-- All ids lie below a number.
abbrev pub Below : ℕ → List Client → Type 0
Below n cs = All (λ c. c.client_id < n) cs

find-set_client-none :
    (cs : List Client) (id j : ℕ) (c' : Client)
    → c'.client_id ≡ id
    → find_client cs j ≡ none
    → find_client (set_client cs id c') j ≡ none
unfolding find_client set_client
find-set_client-none [] id j c' e h = refl
find-set_client-none (c ∷ cs) id j c' e h = ground (arith, find-set_client-none cs id j c' e)

pub set_client-Distinct :
    (cs : List Client) (id : ℕ) (c' : Client)
    → c'.client_id ≡ id
    → Distinct cs
    → Distinct (set_client cs id c')
unfolding set_client
set_client-Distinct [] id c' e h = tt
set_client-Distinct (c ∷ cs) id c' e h = ground (
  arith,
  set_client-Distinct cs id c' e,
  find-set_client-none cs id c.client_id c' e,
  ap (find_client cs) e,
)

pub find-delete_client_other :
    (cs : List Client) (id j : ℕ) → id ≢ j → find_client (delete_client cs id) j ≡ find_client cs j
unfolding find_client delete_client
find-delete_client_other [] id j e = refl
find-delete_client_other (c ∷ cs) id j e = ground (arith, find-delete_client_other cs id j)

pub find-delete_client_self :
    (cs : List Client) (id : ℕ) → Distinct cs → find_client (delete_client cs id) id ≡ none
unfolding find_client delete_client
find-delete_client_self [] id h = refl
find-delete_client_self (c ∷ cs) id h = elim (Bool-cases (c.client_id == id)) [
  | inl e ↦ let same : c.client_id ≡ id = ground arith in ground (arith, ap (find_client cs) same)
  | inr e ↦ ground (arith, find-delete_client_self cs id)
]

find-delete_client-none :
    (cs : List Client) (id j : ℕ)
    → find_client cs j ≡ none
    → find_client (delete_client cs id) j ≡ none
unfolding find_client delete_client
find-delete_client-none [] id j h = refl
find-delete_client-none (c ∷ cs) id j h = ground (arith, find-delete_client-none cs id j)

pub delete_client-Distinct :
    (cs : List Client) (id : ℕ) → Distinct cs → Distinct (delete_client cs id)
unfolding delete_client
delete_client-Distinct [] id h = tt
delete_client-Distinct (c ∷ cs) id h =
    ground (arith, delete_client-Distinct cs id, find-delete_client-none cs id c.client_id)

pub find-append_client :
    (cs : List Client) (c : Client) (j : ℕ)
    → find_client (cs ++ c ∷ []) j ≡ elim (find_client cs j) [
      | none ↦ if c.client_id == j then some c else none
      | some d ↦ some d
    ]
unfolding find_client
find-append_client [] c j = refl
find-append_client (d ∷ cs) c j = ground (arith, find-append_client cs c j)

pub find-Below : (cs : List Client) (n j : ℕ) → Below n cs → n ≤ j → find_client cs j ≡ none
unfolding find_client
find-Below [] n j h k = refl
find-Below (c ∷ cs) n j h k = ground (arith, find-Below cs n j)

pub append_client-Distinct :
    (cs : List Client) (c : Client)
    → find_client cs c.client_id ≡ none
    → Distinct cs
    → Distinct (cs ++ c ∷ [])
unfolding find_client
append_client-Distinct [] c h d = (refl, tt)
append_client-Distinct (x ∷ cs) c h d =
    ground (arith, find-append_client cs c x.client_id, append_client-Distinct cs c)

pub set_client-Below :
    (cs : List Client) (n id : ℕ) (c' : Client)
    → c'.client_id ≡ id
    → Below n cs
    → Below n (set_client cs id c')
unfolding set_client
set_client-Below [] n id c' e h = tt
set_client-Below (c ∷ cs) n id c' e h = ground (arith, set_client-Below cs n id c' e)

pub delete_client-Below : (cs : List Client) (n id : ℕ) → Below n cs → Below n (delete_client cs id)
unfolding delete_client
delete_client-Below [] n id h = tt
delete_client-Below (c ∷ cs) n id h = ground (arith, delete_client-Below cs n id)

pub found-Below :
    (cs : List Client) (n i : ℕ) (c : Client)
    → find_client cs i ≡ some c
    → Below n cs
    → c.client_id < n
unfolding find_client
found-Below [] n i c e h = cc
found-Below (d ∷ cs) n i c e h = elim (Bool-cases (d.client_id == i)) [
  | inl s ↦ ground (arith, s, e)
  | inr s ↦ found-Below cs n i c (ground (arith, s, e)) h.1
]
