-- ===== src/Brain/Scoring.antt =====
-- tetriSH/src/libtetrisbrain/scoring.c.
use corestack.Prelude.{ℕ, ◌+◌, [], ◌∷◌, List, ltb, leb, if◌then◌else◌, get_or}
use corestack.Brain.Model.{GameState}

abbrev pub pts : List ℕ
pts = 0 ∷ 100 ∷ 300 ∷ 500 ∷ 800 ∷ []

-- `cleared` is a count of rows, so it is never negative.
unfoldable pub scoring_add : GameState → ℕ → GameState
scoring_add g cleared =
    let n = if ltb 4 cleared then 4 else cleared in
    if leb cleared 0 then g else record g { lines = g.lines + n; score = g.score + get_or pts n 0 }
