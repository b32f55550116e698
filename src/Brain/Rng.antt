-- ===== src/Brain/Rng.antt =====
-- tetriSH/src/libtetrisbrain/rng.c: the stateless piece generator. `unsigned` is 32 bits wide.
use Prim.Native.Nat.{bit_xor}
use corestack.Prelude.{
  ℕ, zero, suc, ◌+◌, ◌*◌, ◌/◌, ◌%◌, ◌^◌, ◌<◌, ◌≡◌, refl, arith, Bool, true, false,
}
use corestack.Brain.Model.{
  PieceKind, piece_none, piece_i, piece_o, piece_t, piece_s, piece_z, piece_j, piece_l,
  piece_spawnable, piece_garbage,
}

abbrev pub u32_mod : ℕ
u32_mod = 2 ^ 32

-- The kinds from `PIECE_I` up to, and not including, `PIECE_SPAWNABLE`.
abbrev pub is_spawnable : PieceKind → Bool
is_spawnable piece_none = false
is_spawnable piece_spawnable = false
is_spawnable piece_garbage = false
is_spawnable _ = true

-- The value of an enumerator, and the conversion back.
abbrev pub kind_value : PieceKind → ℕ
kind_value piece_none = 0
kind_value piece_i = 1
kind_value piece_o = 2
kind_value piece_t = 3
kind_value piece_s = 4
kind_value piece_z = 5
kind_value piece_j = 6
kind_value piece_l = 7
kind_value piece_spawnable = 8
kind_value piece_garbage = 9

-- What a value outside the enum gives does not matter: `rng_piece` makes none.
abbrev pub kind_of : ℕ → PieceKind
kind_of zero = piece_none
kind_of (suc zero) = piece_i
kind_of (suc (suc zero)) = piece_o
kind_of (suc (suc (suc zero))) = piece_t
kind_of (suc (suc (suc (suc zero)))) = piece_s
kind_of (suc (suc (suc (suc (suc zero))))) = piece_z
kind_of (suc (suc (suc (suc (suc (suc zero)))))) = piece_j
kind_of (suc (suc (suc (suc (suc (suc (suc zero))))))) = piece_l
kind_of (suc (suc (suc (suc (suc (suc (suc (suc zero)))))))) = piece_spawnable
kind_of _ = piece_garbage

unfoldable pub piece_from_hash : ℕ → PieceKind
piece_from_hash h = let r = h / 2 ^ 16 % 7 in kind_of (1 + r)

unfoldable pub rng_piece : ℕ → ℕ → PieceKind
unfolding piece_from_hash
rng_piece seed counter =
    piece_from_hash
      ((bit_xor seed (counter * 2654435761 % u32_mod) * 1664525 + 1013904223) % u32_mod)

kind_of-seven : (r : ℕ) → r < 7 → is_spawnable (kind_of (suc r)) ≡ true
kind_of-seven zero h = refl
kind_of-seven (suc zero) h = refl
kind_of-seven (suc (suc zero)) h = refl
kind_of-seven (suc (suc (suc zero))) h = refl
kind_of-seven (suc (suc (suc (suc zero)))) h = refl
kind_of-seven (suc (suc (suc (suc (suc zero))))) h = refl
kind_of-seven (suc (suc (suc (suc (suc (suc zero)))))) h = refl
kind_of-seven (suc (suc (suc (suc (suc (suc (suc r))))))) h = absurd (omega arith)

kind_of-one_add : (r : ℕ) → r < 7 → is_spawnable (kind_of (1 + r)) ≡ true
kind_of-one_add r h = let e : 1 + r ≡ suc r = omega arith in rw e (kind_of-seven r h)

-- The generator deals a real piece at every position of every stream, never the empty cell, the
-- marker or garbage.
pub rng_piece-is_spawnable : (seed counter : ℕ) → is_spawnable (rng_piece seed counter) ≡ true
unfolding rng_piece
rng_piece-is_spawnable seed counter = kind_of-one_add _ (omega arith)
