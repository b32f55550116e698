-- ===== src/Util/Fold.antt =====
-- A folded name is a name, and folding it again changes nothing.
use corestack.Prelude.{
  ℕ, suc, ◌≤◌, ◌<◌, ◌≡◌, refl, sym, ap, ◌∙◌, arith, true, [], ◌∷◌, some, length, Bytes, every,
}
use corestack.Util.Name.{
  max_user_name, user_name_max, user_name_char_ok, user_name_ok, fold_char, fold_all,
  user_name_fold,
}

fold_char-ok : (c : ℕ) → user_name_char_ok c ≡ true → user_name_char_ok (fold_char c) ≡ true
fold_char-ok c h = ground arith

fold_char-twice : (c : ℕ) → fold_char (fold_char c) ≡ fold_char c
fold_char-twice c = ground arith

length-fold_all : (s : Bytes) → length (fold_all s) ≡ length s
unfolding fold_all
length-fold_all [] = refl
length-fold_all (c ∷ s) = ap suc (length-fold_all s)

fold_all-ok :
    (s : Bytes) → every user_name_char_ok s ≡ true → every user_name_char_ok (fold_all s) ≡ true
unfolding fold_all every
fold_all-ok [] h = refl
fold_all-ok (c ∷ s) h = ground (arith, fold_char-ok c, fold_all-ok s)

fold_all-twice : (s : Bytes) → fold_all (fold_all s) ≡ fold_all s
unfolding fold_all
fold_all-twice [] = refl
fold_all-twice (c ∷ s) = rw (fold_char-twice c, fold_all-twice s) refl

fold_all-name : (s : Bytes) → user_name_ok s ≡ true → user_name_ok (fold_all s) ≡ true
unfolding user_name_ok
fold_all-name s h = ground (arith, length-fold_all s, fold_all-ok s)

fold_inv :
    (cap : ℕ) (s t : Bytes)
    → user_name_fold cap s ≡ some t
    → (max_user_name ≤ cap) × (user_name_ok s ≡ true) × (t ≡ fold_all s)
unfolding user_name_fold
fold_inv cap s t h = ground arith

length-name : (s : Bytes) → user_name_ok s ≡ true → length s ≤ user_name_max
unfolding user_name_ok
length-name s h = ground arith

fold_of-name :
    (cap : ℕ) (s : Bytes)
    → max_user_name ≤ cap
    → user_name_ok s ≡ true
    → user_name_fold cap s ≡ some (fold_all s)
unfolding user_name_fold
fold_of-name cap s le h = ground arith

-- Where a name is folded, it fits the buffer with its terminator, the folded name passes the rule for
-- names, and folding it again gives it back.
pub user_name_fold-again :
    (cap : ℕ) (s t : Bytes)
    → user_name_fold cap s ≡ some t
    → (length t < cap) × (user_name_ok t ≡ true) × (user_name_fold cap t ≡ some t)
user_name_fold-again cap s t h =
    let (le, name, e) = fold_inv cap s t h in
    let folded : user_name_ok t ≡ true = ap user_name_ok e ∙ fold_all-name s name in
    (
      omega (arith, length-name t folded),
      folded,
      fold_of-name cap t le folded ∙ ap some (ap fold_all e ∙ fold_all-twice s ∙ sym e),
    )
