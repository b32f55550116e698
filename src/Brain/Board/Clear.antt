-- ===== src/Brain/Board/Clear.antt =====
-- What `board_clear_lines` does to the board: the in-place scan is a filter.
use corestack.Prelude.{
  ℕ, zero, suc, ◌+◌, ◌-◌, ◌≤◌, ◌<◌, ◌≡◌, refl, ap, ◌∙◌, arith, true, false, [], ◌∷◌, ◌++◌, inl, inr,
  ◌==◌, if◌then◌else◌, length, get_or, set, take, replicate, drop, length-set, Bool-cases,
  length-append,
}
use corestack.Brain.Model.{Row, Board, board_height}
use corestack.Brain.Board.{full, row_full, empty_row, copy_row, clear_scan, clear_top, clear_lines}

-- The rows that are not full, in order, and the number of those that are.
unfoldable pub survivors : Board → Board
survivors [] = []
survivors (row ∷ rows) = if full row then survivors rows else row ∷ survivors rows

unfoldable pub full_rows : Board → ℕ
full_rows [] = 0
full_rows (row ∷ rows) = (if full row then 1 else 0) + full_rows rows

-- A board as the rows above a place, nearest first, and the rows from there down.
abbrev join : Board → Board → Board
join [] below = below
join (row ∷ above) below = join above (row ∷ below)

abbrev count_above : Board → ℕ
count_above [] = 0
count_above (row ∷ above) = (if full row then 1 else 0) + count_above above

abbrev keep_above : Board → Board → Board
keep_above [] below = below
keep_above (row ∷ above) below = keep_above above (if full row then below else row ∷ below)

get_or-join :
    (above : Board) (row : Row) (below : Board) (d : Row)
    → (i : ℕ) → get_or (join above below) (length above + i) d ≡ get_or below i d
get_or-join [] row below d i = ap (λ k. get_or below k d) (omega arith)
get_or-join (r ∷ above) row below d i =
    ap (λ k. get_or (join above (r ∷ below)) k d) (omega arith)
    ∙ get_or-join above row (r ∷ below) d (suc i)

set-join :
    (above below : Board) (v : Row) (i : ℕ)
    → set (join above below) (length above + i) v ≡ join above (set below i v)
set-join [] below v i = ap (λ k. set below k v) (omega arith)
set-join (r ∷ above) below v i =
    ap (λ k. set (join above (r ∷ below)) k v) (omega arith) ∙ set-join above (r ∷ below) v (suc i)

-- The write of a surviving row over the last of the rows to drop.
abbrev shifted : Row → Board → Board
shifted row mid = take (length mid) (row ∷ mid)

set-shifted :
    (row v : Row) (mid below : Board)
    → set (row ∷ (mid ++ below)) (length mid) v ≡ shifted row mid ++ (v ∷ below)
set-shifted row v [] below = refl
set-shifted row v (r ∷ mid) below = ap (λ b. row ∷ b) (set-shifted r v mid below)

length-shifted : (row : Row) (mid : Board) → length (shifted row mid) ≡ length mid
length-shifted row [] = refl
length-shifted row (r ∷ mid) = ap suc (length-shifted r mid)

get_or-join_self :
    (row : Row) (above below : Board) → get_or (join above (row ∷ below)) (length above) [] ≡ row
get_or-join_self row above below =
    let e : length above ≡ length above + 0 = omega arith in
    ap (λ k. get_or (join above (row ∷ below)) k []) e ∙ get_or-join above row (row ∷ below) [] 0

copy_row-join :
    (row : Row) (above mid below : Board) (d : ℕ)
    → d ≡ length above + length mid
    → copy_row (join above (row ∷ (mid ++ below))) d (length above)
      ≡ join above (shifted row mid ++ (row ∷ below))
copy_row-join row above mid below d e =
    rw (get_or-join_self row above (mid ++ below), e)
      (set-join above (row ∷ (mid ++ below)) row (length mid)
        ∙ ap (join above) (set-shifted row row mid below))

clear_scan-full :
    (src d n : ℕ) (b : Board)
    → row_full b src ≡ true
    → clear_scan (suc src) d n b ≡ clear_scan src d (n + 1) b
unfolding clear_scan
clear_scan-full src d n b e = rw (e, clear_scan)

-- A copy of the row over itself is what the test `dst != src` saves.
clear_scan-keep :
    (src d n : ℕ) (b : Board)
    → row_full b src ≡ false
    → clear_scan (suc src) d n b
      ≡ clear_scan src (d - 1) n (if d == suc src then b else copy_row b (d - 1) src)
unfolding clear_scan
clear_scan-keep src d n b e = rw (e, clear_scan)

row_full-join :
    (row : Row) (above below : Board)
    → row_full (join above (row ∷ below)) (length above) ≡ full row
unfolding row_full
row_full-join row above below = ap full (get_or-join_self row above below)

-- The board after a row that stays, whether or not it is copied.
abbrev kept : Row → Board → Board → ℕ → ℕ → Board
kept row above below d src =
    if d == suc src
    then join above (row ∷ below)
    else copy_row (join above (row ∷ below)) (d - 1) src

kept-join :
    (row : Row) (above mid below : Board) (d : ℕ)
    → d ≡ suc (length above + length mid)
    → kept row above (mid ++ below) d (length above) ≡ join above (shifted row mid ++ (row ∷ below))
kept-join row above [] below d e = ground arith
kept-join row above (m ∷ mid) below d e =
    ground (arith, copy_row-join row above (m ∷ mid) below (d - 1))

-- What the scan has done when it stops, started with the rows `above` still to read.
record Scanned (above mid below : Board) (n d : ℕ) : Type 0 where
  vacated : Board
  runs :
      clear_scan (length above) d n (join above (mid ++ below))
      ≡ (length vacated, n + count_above above, vacated ++ keep_above above below)
  counts : length vacated ≡ length mid + count_above above

clear_scan-Scanned :
    (above mid below : Board) (n d : ℕ)
    → d ≡ length above + length mid
    → Scanned above mid below n d
clear_scan-Scanned [] mid below n d e = record {
  vacated = mid;
  runs = unfold clear_scan in ground arith;
  counts = omega arith;
}
clear_scan-Scanned (row ∷ above) mid below n d e = elim (Bool-cases (full row)) [
  | inl all ↦
      let record { vacated = v; runs = r; counts = c } =
        clear_scan-Scanned above (row ∷ mid) below (n + 1) d (omega arith) in
      record {
        vacated = v;
        runs = rw all (
            clear_scan-full (length above) d n (join above (row ∷ (mid ++ below)))
              (row_full-join row above (mid ++ below) ∙ all)
            ∙ r
            ∙ ground arith);
        counts = rw all (omega (arith, c));
      }
  | inr gap ↦
      let record { vacated = v; runs = r; counts = c } =
        clear_scan-Scanned above (shifted row mid) (row ∷ below) n (d - 1)
          (omega (arith, length-shifted row mid)) in
      record {
        vacated = v;
        runs = rw gap (
            clear_scan-keep (length above) d n (join above (row ∷ (mid ++ below)))
              (row_full-join row above (mid ++ below) ∙ gap)
            ∙ ap (clear_scan (length above) (d - 1) n)
                (kept-join row above mid below d (omega arith))
            ∙ r
            ∙ ground arith);
        counts = rw gap (omega (arith, c, length-shifted row mid));
      }
]

replicate-snoc :
    (n : ℕ) (row : Row) (below : Board)
    → replicate n row ++ (row ∷ below) ≡ row ∷ (replicate n row ++ below)
replicate-snoc zero row below = refl
replicate-snoc (suc n) row below = ap (λ b. row ∷ b) (replicate-snoc n row below)

drop-set :
    (b : Board) (n : ℕ) (row : Row) → n < length b → drop n (set b n row) ≡ row ∷ drop (suc n) b
drop-set [] n row h = absurd (omega arith)
drop-set (r ∷ b) zero row h = refl
drop-set (r ∷ b) (suc n) row h = drop-set b n row (omega arith)

clear_top-drop :
    (n : ℕ) (b : Board) → n ≤ length b → clear_top n b ≡ replicate n empty_row ++ drop n b
unfolding clear_top
clear_top-drop zero b h = refl
clear_top-drop (suc n) b h =
    clear_top-drop n (set b n empty_row) (omega (arith, length-set b n empty_row))
    ∙ rw (drop-set b n empty_row h) (replicate-snoc n empty_row (drop (suc n) b))

drop-append : (v below : Board) → drop (length v) (v ++ below) ≡ below
drop-append [] below = refl
drop-append (r ∷ v) below = drop-append v below

-- The rows of `b`, last first, on top of `above`.
abbrev turned : Board → Board → Board
turned [] above = above
turned (row ∷ b) above = turned b (row ∷ above)

record Turned (b above : Board) : Type 0 where
  rows : join (turned b above) [] ≡ join above b
  size : length (turned b above) ≡ length b + length above
  count : count_above (turned b above) ≡ full_rows b + count_above above
  keep : keep_above (turned b above) [] ≡ keep_above above (survivors b)

join-Turned : (b above : Board) → Turned b above
unfolding full_rows survivors
join-Turned [] above = record { rows = refl; size = omega arith; count = omega arith; keep = refl }
join-Turned (row ∷ b) above =
    let record { rows = r; size = s; count = c; keep = k } = join-Turned b (row ∷ above) in
    record { rows = r; size = omega (arith, s); count = omega (arith, c); keep = k }

clear_top-vacated :
    (v below : Board) → clear_top (length v) (v ++ below) ≡ replicate (length v) empty_row ++ below
clear_top-vacated v below =
    clear_top-drop (length v) (v ++ below) (omega (arith, length-append v below))
    ∙ rw (drop-append v below)

-- The scan of a whole board of full height.
scan_all :
    (b : Board)
    → length b ≡ board_height
    → (v : Board) × (clear_scan board_height board_height 0 b
        ≡ (length v, full_rows b, v ++ survivors b))
      × (length v ≡ full_rows b)
scan_all b h =
    let t = join-Turned b [] in
    let s = clear_scan-Scanned (turned b []) [] [] 0 board_height (omega (arith, t.size)) in
    (
      s.vacated,
      scanned s.vacated t.size t.count t.rows t.keep s.runs,
      omega (arith, s.counts, t.count),
    )
  where
    scanned :
        {n c : ℕ} {a k : Board} (v : Board)
        → n ≡ length b + 0
        → c ≡ full_rows b + 0
        → a ≡ b
        → k ≡ survivors b
        → clear_scan n board_height 0 a ≡ (length v, 0 + c, v ++ k)
        → clear_scan board_height board_height 0 b ≡ (length v, full_rows b, v ++ survivors b)
    scanned v en ec ea ek r = ground arith

-- On a board of full height the scan leaves the rows that are not full, in their order, at the
-- bottom, below as many empty rows as there were full ones, and counts the full ones.
pub clear_lines-filter :
    (b : Board)
    → length b ≡ board_height
    → clear_lines b ≡ (full_rows b, replicate (full_rows b) empty_row ++ survivors b)
unfolding clear_lines
clear_lines-filter b h =
    let (v, e, l) = scan_all b h in rw (e, clear_top-vacated v (survivors b), l)
