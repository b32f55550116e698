-- ===== src/Util/Name.antt =====
-- The rule for player names. A name is the list of its bytes; none of the pointers is NULL.
use corestack.Prelude.{
  ℕ, ◌+◌, ◌-◌, Bool, false, not, ◌||◌, [], ◌∷◌, Option, none, some, ltb, ◌==◌, if◌then◌else◌,
  length, Bytes, within, every,
}

abbrev pub max_user_name : ℕ
max_user_name = 16

abbrev pub user_name_max : ℕ
user_name_max = max_user_name - 1

abbrev pub user_name_char_ok : ℕ → Bool
user_name_char_ok c =
    within b'a' b'z' c || (within b'A' b'Z' c || (within b'0' b'9' c || (c == b'_' || c == b'-')))

unfoldable pub user_name_ok : Bytes → Bool
user_name_ok s =
    if ltb (length s) 1 || ltb user_name_max (length s) then false else every user_name_char_ok s

abbrev pub fold_char : ℕ → ℕ
fold_char c = if within b'A' b'Z' c then c - b'A' + b'a' else c

unfoldable pub fold_all : Bytes → Bytes
fold_all [] = []
fold_all (c ∷ s) = fold_char c ∷ fold_all s

-- None for the result -1; `cap` is the room of `dst`.
unfoldable pub user_name_fold : ℕ → Bytes → Option Bytes
user_name_fold cap s =
    if ltb cap max_user_name || not (user_name_ok s) then none else some (fold_all s)
