-- ===== src/Util/Tests.antt =====
-- The rule for names at a concrete name.
use corestack.Prelude.{◌<◌, ◌≡◌, refl, true, false, some, every, codes}
use corestack.Util.Name.{user_name_ok, fold_all, user_name_fold}
use corestack.Util.Fold.{user_name_fold-again}

folded : user_name_fold 16 (codes "Ann-B") ≡ some (codes "ann-b")
unfolding user_name_fold user_name_ok fold_all every
folded = refl

too_long : user_name_ok (codes "sixteen-letters_") ≡ false
unfolding user_name_ok
too_long = refl

user_name_fold-again_example :
    (5 < 16)
    × (user_name_ok (codes "ann-b") ≡ true)
    × (user_name_fold 16 (codes "ann-b") ≡ some (codes "ann-b"))
user_name_fold-again_example = user_name_fold-again 16 (codes "Ann-B") (codes "ann-b") folded
