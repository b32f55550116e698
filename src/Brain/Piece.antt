-- ===== src/Brain/Piece.antt =====
-- tetriSH/src/libtetrisbrain/piece.c: the shape tables.
use corestack.Prelude.{
  ℕ, ◌+◌, ◌*◌, Bool, false, ◌||◌, List, [], ◌∷◌, ◌==◌, leb, if◌then◌else◌, get_or, Option, none,
  some,
}
use corestack.Brain.Model.{
  PieceKind, piece_none, piece_i, piece_o, piece_t, piece_s, piece_z, piece_j, piece_l,
  piece_spawnable, piece_garbage, Piece,
}

-- Every piece has four rotation states.
abbrev pub piece_rots : ℕ
piece_rots = 4

-- Row-major occupancy of each rotation's box, 1 for filled.
abbrev o_shape : List ℕ
o_shape = 1 ∷ 1 ∷ 1 ∷ 1 ∷ []

abbrev i_n : List ℕ
i_n = 0 ∷ 0 ∷ 0 ∷ 0 ∷ 1 ∷ 1 ∷ 1 ∷ 1 ∷ 0 ∷ 0 ∷ 0 ∷ 0 ∷ 0 ∷ 0 ∷ 0 ∷ 0 ∷ []

abbrev i_e : List ℕ
i_e = 0 ∷ 0 ∷ 1 ∷ 0 ∷ 0 ∷ 0 ∷ 1 ∷ 0 ∷ 0 ∷ 0 ∷ 1 ∷ 0 ∷ 0 ∷ 0 ∷ 1 ∷ 0 ∷ []

abbrev i_s : List ℕ
i_s = 0 ∷ 0 ∷ 0 ∷ 0 ∷ 0 ∷ 0 ∷ 0 ∷ 0 ∷ 1 ∷ 1 ∷ 1 ∷ 1 ∷ 0 ∷ 0 ∷ 0 ∷ 0 ∷ []

abbrev i_w : List ℕ
i_w = 0 ∷ 1 ∷ 0 ∷ 0 ∷ 0 ∷ 1 ∷ 0 ∷ 0 ∷ 0 ∷ 1 ∷ 0 ∷ 0 ∷ 0 ∷ 1 ∷ 0 ∷ 0 ∷ []

abbrev t_n : List ℕ
t_n = 0 ∷ 1 ∷ 0 ∷ 1 ∷ 1 ∷ 1 ∷ 0 ∷ 0 ∷ 0 ∷ []

abbrev t_e : List ℕ
t_e = 0 ∷ 1 ∷ 0 ∷ 0 ∷ 1 ∷ 1 ∷ 0 ∷ 1 ∷ 0 ∷ []

abbrev t_s : List ℕ
t_s = 0 ∷ 0 ∷ 0 ∷ 1 ∷ 1 ∷ 1 ∷ 0 ∷ 1 ∷ 0 ∷ []

abbrev t_w : List ℕ
t_w = 0 ∷ 1 ∷ 0 ∷ 1 ∷ 1 ∷ 0 ∷ 0 ∷ 1 ∷ 0 ∷ []

abbrev s_n : List ℕ
s_n = 0 ∷ 1 ∷ 1 ∷ 1 ∷ 1 ∷ 0 ∷ 0 ∷ 0 ∷ 0 ∷ []

abbrev s_e : List ℕ
s_e = 0 ∷ 1 ∷ 0 ∷ 0 ∷ 1 ∷ 1 ∷ 0 ∷ 0 ∷ 1 ∷ []

abbrev s_s : List ℕ
s_s = 0 ∷ 0 ∷ 0 ∷ 0 ∷ 1 ∷ 1 ∷ 1 ∷ 1 ∷ 0 ∷ []

abbrev s_w : List ℕ
s_w = 1 ∷ 0 ∷ 0 ∷ 1 ∷ 1 ∷ 0 ∷ 0 ∷ 1 ∷ 0 ∷ []

abbrev z_n : List ℕ
z_n = 1 ∷ 1 ∷ 0 ∷ 0 ∷ 1 ∷ 1 ∷ 0 ∷ 0 ∷ 0 ∷ []

abbrev z_e : List ℕ
z_e = 0 ∷ 0 ∷ 1 ∷ 0 ∷ 1 ∷ 1 ∷ 0 ∷ 1 ∷ 0 ∷ []

abbrev z_s : List ℕ
z_s = 0 ∷ 0 ∷ 0 ∷ 1 ∷ 1 ∷ 0 ∷ 0 ∷ 1 ∷ 1 ∷ []

abbrev z_w : List ℕ
z_w = 0 ∷ 1 ∷ 0 ∷ 1 ∷ 1 ∷ 0 ∷ 1 ∷ 0 ∷ 0 ∷ []

abbrev j_n : List ℕ
j_n = 1 ∷ 0 ∷ 0 ∷ 1 ∷ 1 ∷ 1 ∷ 0 ∷ 0 ∷ 0 ∷ []

abbrev j_e : List ℕ
j_e = 0 ∷ 1 ∷ 1 ∷ 0 ∷ 1 ∷ 0 ∷ 0 ∷ 1 ∷ 0 ∷ []

abbrev j_s : List ℕ
j_s = 0 ∷ 0 ∷ 0 ∷ 1 ∷ 1 ∷ 1 ∷ 0 ∷ 0 ∷ 1 ∷ []

abbrev j_w : List ℕ
j_w = 0 ∷ 1 ∷ 0 ∷ 0 ∷ 1 ∷ 0 ∷ 1 ∷ 1 ∷ 0 ∷ []

abbrev l_n : List ℕ
l_n = 0 ∷ 0 ∷ 1 ∷ 1 ∷ 1 ∷ 1 ∷ 0 ∷ 0 ∷ 0 ∷ []

abbrev l_e : List ℕ
l_e = 0 ∷ 1 ∷ 0 ∷ 0 ∷ 1 ∷ 0 ∷ 0 ∷ 1 ∷ 1 ∷ []

abbrev l_s : List ℕ
l_s = 0 ∷ 0 ∷ 0 ∷ 1 ∷ 1 ∷ 1 ∷ 1 ∷ 0 ∷ 0 ∷ []

abbrev l_w : List ℕ
l_w = 1 ∷ 1 ∷ 0 ∷ 0 ∷ 1 ∷ 0 ∷ 0 ∷ 1 ∷ 0 ∷ []

-- `PieceDef`: the side of the box, and the grid of each rotation.
pub record PieceDef : Type 0 where
  pub size : ℕ
  pub grid : List (List ℕ)

abbrev same_grid : List ℕ → List (List ℕ)
same_grid g = g ∷ g ∷ g ∷ g ∷ []

-- `piece_def`. `PIECES` has no entry for `PIECE_SPAWNABLE` and `PIECE_GARBAGE`, so C leaves theirs
-- zeroed: size 0, and grids that are NULL. The kind is inside the enum by its type, so the assertion
-- holds.
pub piece_def : PieceKind → Option PieceDef
piece_def piece_none = none
piece_def piece_i = some (record { size = 4; grid = i_n ∷ i_e ∷ i_s ∷ i_w ∷ [] })
piece_def piece_o = some (record { size = 2; grid = same_grid o_shape })
piece_def piece_t = some (record { size = 3; grid = t_n ∷ t_e ∷ t_s ∷ t_w ∷ [] })
piece_def piece_s = some (record { size = 3; grid = s_n ∷ s_e ∷ s_s ∷ s_w ∷ [] })
piece_def piece_z = some (record { size = 3; grid = z_n ∷ z_e ∷ z_s ∷ z_w ∷ [] })
piece_def piece_j = some (record { size = 3; grid = j_n ∷ j_e ∷ j_s ∷ j_w ∷ [] })
piece_def piece_l = some (record { size = 3; grid = l_n ∷ l_e ∷ l_s ∷ l_w ∷ [] })
piece_def piece_spawnable = some (record { size = 0; grid = [] })
piece_def piece_garbage = some (record { size = 0; grid = [] })

unfoldable pub piece_size : Piece → ℕ
unfolding piece_def
piece_size p = elim (piece_def p.kind) [ none ↦ 0 | some d ↦ d.size ]

-- A missing grid (NULL) is `[]`, which holds no 1.
unfoldable pub piece_grid : Piece → List ℕ
unfolding piece_def
piece_grid p = elim (piece_def p.kind) [ none ↦ [] | some d ↦ get_or d.grid p.rot [] ]

-- The callers' rows and columns are loop counters, so they are never negative.
unfoldable pub piece_filled : Piece → ℕ → ℕ → Bool
unfolding piece_size piece_grid
piece_filled p r c =
    let n = piece_size p in
    if n == 0 || leb n r || leb n c then false else get_or (piece_grid p) (r * n + c) 0 == 1
