-- ===== src/Room/Server/Adding.antt =====
-- A session that is new, in both views of membership.
use mathlib.Core.Path.{subst}
use corestack.Prelude.{
  ℕ, ◌+◌, ◌≤◌, ◌≡◌, refl, sym, ap, ◌∙◌, inl, inr, arith, Bool, true, false, List, [], ◌∷◌, Option,
  none, some, ℤ, pos, negsuc, if◌then◌else◌, Bool-cases,
}
use corestack.Room.Model.{Client, eq_ℤ, ltb_ℤ}
use corestack.Room.Compare.{eq_ℤ-eq}
use corestack.Room.Rank.{client_find}
use corestack.Room.Table.{occupy, client_alloc}
use corestack.Room.Server.{Server}
use corestack.Room.Server.Seats.{seat, fd_count}
use corestack.Room.Server.Stays.{send_msg-Stays}
use corestack.Room.Server.Handle.{add_client}
use corestack.Room.Server.Leaving.{stays-Agree}
use corestack.Room.Server.Agree.{Agree}

negative_other : (a y : ℤ) → ltb_ℤ a (pos 0) ≡ true → ltb_ℤ y (pos 0) ≡ false → eq_ℤ a y ≡ false
negative_other (pos a) y e h = absurd (ground (arith, e))
negative_other (negsuc a) (pos n) e h = refl
negative_other (negsuc a) (negsuc n) e h = absurd cc

none-rest :
    (c : Client) (cs : List Client) (fd : ℤ)
    → client_find (c ∷ cs) fd ≡ none
    → client_find cs fd ≡ none
unfolding client_find
none-rest c cs fd e = rest (eq_ℤ c.fd fd) e
  where
    rest : (b : Bool) → (if b then some c else client_find cs fd) ≡ none → client_find cs fd ≡ none
    rest true e = absurd cc
    rest false e = e

none-first :
    (c : Client) (cs : List Client) (fd : ℤ) → client_find (c ∷ cs) fd ≡ none → eq_ℤ c.fd fd ≡ false
unfolding client_find
none-first c cs fd e = first (eq_ℤ c.fd fd) e
  where
    first : (b : Bool) → (if b then some c else client_find cs fd) ≡ none → b ≡ false
    first true e = absurd cc
    first false e = refl

-- A new client has no room, and its descriptor was not in use.
abbrev Added : List Client → ℤ → ℤ → Option (List Client) → Type 0
Added cs fd y none = Unit
Added cs fd y (some ds) =
    (seat (client_find ds y) ≡ seat (client_find cs y))
    × (fd_count y ds ≤ fd_count y cs + (if eq_ℤ fd y then 1 else 0))

if-Added :
    (cs : List Client) (fd y : ℤ) (b : Bool) (o p : Option (List Client))
    → (b ≡ true → Added cs fd y o)
    → Added cs fd y p
    → Added cs fd y (if b then o else p)
if-Added cs fd y true o p f g = f refl
if-Added cs fd y false o p f g = g

behind-Added :
    (c : Client) (cs : List Client) (fd y : ℤ) (o : Option (List Client))
    → Added cs fd y o
    → Added (c ∷ cs) fd y (elim o [ none ↦ none | some ds ↦ some (c ∷ ds) ])
unfolding client_find fd_count
behind-Added c cs fd y none a = a
behind-Added c cs fd y (some ds) (s, n) = (first (eq_ℤ c.fd y), omega (arith, n))
  where
    first :
        (b : Bool)
        → seat (if b then some c else client_find ds y)
          ≡ seat (if b then some c else client_find cs y)
    first true = refl
    first false = s

occupied :
    (c : Client) (cs : List Client) (fd pid y : ℤ)
    → eq_ℤ c.fd y ≡ false
    → client_find cs fd ≡ none
    → Added (c ∷ cs) fd y (some (occupy fd pid c ∷ cs))
unfolding client_find fd_count occupy
occupied c cs fd pid y b n = elim (Bool-cases (eq_ℤ fd y)) [
  | inl e ↦
      let empty : client_find cs y ≡ none = ap (client_find cs) (sym (eq_ℤ-eq fd y e)) ∙ n in
      simp (b, e, empty) (refl, omega arith)
  | inr e ↦ simp (b, e) (refl, omega arith)
]

client_alloc-Added :
    (cs : List Client) (fd pid y : ℤ)
    → ltb_ℤ y (pos 0) ≡ false
    → client_find cs fd ≡ none
    → Added cs fd y (client_alloc cs fd pid)
unfolding client_alloc
client_alloc-Added [] fd pid y h n = tt
client_alloc-Added (c ∷ cs) fd pid y h n =
    let rest = none-rest c cs fd n in
    if-Added (c ∷ cs) fd y (ltb_ℤ c.fd (pos 0)) (some (occupy fd pid c ∷ cs)) _
      (λ b. occupied c cs fd pid y (negative_other c.fd y b h) rest)
      (behind-Added c cs fd y (client_alloc cs fd pid) (client_alloc-Added cs fd pid y h rest))

none-fd_count : (fd : ℤ) (cs : List Client) → client_find cs fd ≡ none → fd_count fd cs ≡ 0
unfolding fd_count
none-fd_count fd [] e = refl
none-fd_count fd (c ∷ cs) e =
    let rest = none-fd_count fd cs (none-rest c cs fd e) in
    let no = none-first c cs fd e in rw no (omega (arith, rest))

one_more :
    (fd y : ℤ) (cs : List Client) (n : ℕ)
    → client_find cs fd ≡ none
    → fd_count y cs ≤ 1
    → n ≤ fd_count y cs + (if eq_ℤ fd y then 1 else 0)
    → n ≤ 1
one_more fd y cs n e le m = elim (Bool-cases (eq_ℤ fd y)) [
  | inl b ↦
      let zero : fd_count y cs ≡ 0 =
        ap (λ i. fd_count i cs) (sym (eq_ℤ-eq fd y b)) ∙ none-fd_count fd cs e in
      ground (arith, b, zero, m)
  | inr b ↦ ground (arith, b, le, m)
]

pub add_client-Agree :
    (fd pid : ℤ) (o : Option (List Client)) (s : Server)
    → client_alloc s.clients fd pid ≡ o
    → client_find s.clients fd ≡ none
    → Agree s.clients s.rooms
    → Agree (add_client fd o s).clients (add_client fd o s).rooms
unfolding add_client
add_client-Agree fd pid none s e n a = stays-Agree s _ (send_msg-Stays fd _ s) a
add_client-Agree fd pid (some ds) s e n a =
    let added = λ (y : ℤ) (h : ltb_ℤ y (pos 0) ≡ false).
      subst (λ o. Added s.clients fd y o) e (client_alloc-Added s.clients fd pid y h n) in
    record {
      fds = λ y h. one_more fd y s.clients (fd_count y ds) n (a.fds y h) (added y h).1;
      ids = a.ids;
      agree =
          λ y id h k. a.agree y id h k ∙ ap (λ i. if eq_ℤ i id then 1 else 0) (sym (added y h).0);
    }
