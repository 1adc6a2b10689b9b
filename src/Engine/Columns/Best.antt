-- ===== src/Engine/Columns/Best.antt =====
-- Every column that is found is a column of the engine, and the row that is chosen has the most.
use ses.Base.{
  ℕ, zero, suc, ◌≤◌, ◌≡◌, String, Bool, true, List, [], ◌∷◌, arith, All, length, get_elem?, some,
  ◌<◌,
}
use ses.Js.{Host, Value}
use ses.Engine.Columns.{ColumnInfo, better, scan_row, best_single, scan_pair, best_merged}

module _ (host : Host) (is_column : String → Bool) where
  abbrev pub AreColumns : List ColumnInfo → Type 0
  AreColumns cols = All (λ c. is_column c.label ≡ true) cols

  pub scan_row-AreColumns :
      (c : ℕ) (cells : List Value) → AreColumns (scan_row host is_column c cells)
  unfolding scan_row
  scan_row-AreColumns c [] = tt
  scan_row-AreColumns c (cell ∷ cells) = ground (arith, scan_row-AreColumns (suc c) cells)

  better-AreColumns :
      (best cols : List ColumnInfo)
      → AreColumns best
      → AreColumns cols
      → AreColumns (better best cols)
  better-AreColumns best cols h k = ground arith

  pub best_single-AreColumns :
      (limit : ℕ) (rows : List (List Value)) (best : List ColumnInfo)
      → AreColumns best
      → AreColumns (best_single host is_column limit rows best)
  unfolding best_single
  best_single-AreColumns zero rows best h = h
  best_single-AreColumns (suc limit) [] best h = h
  best_single-AreColumns (suc limit) (row ∷ rows) best h =
      best_single-AreColumns limit rows _ (better-AreColumns best _ h (scan_row-AreColumns 0 row))

  scan_pair-AreColumns :
      (width c : ℕ) (above below : List Value)
      → AreColumns (scan_pair host is_column width c above below)
  unfolding scan_pair
  scan_pair-AreColumns zero c above below = tt
  scan_pair-AreColumns (suc width) c above below =
      ground (arith, scan_pair-AreColumns width (suc c) above below)

  pub best_merged-AreColumns :
      (width : List Value → List Value → ℕ) (limit : ℕ) (rows : List (List Value))
      (best : List ColumnInfo)
      → AreColumns best
      → AreColumns (best_merged host is_column width limit rows best)
  unfolding best_merged
  best_merged-AreColumns width zero rows best h = h
  best_merged-AreColumns width (suc limit) [] best h = h
  best_merged-AreColumns width (suc limit) (above ∷ []) best h = h
  best_merged-AreColumns width (suc limit) (above ∷ below ∷ rows) best h =
      best_merged-AreColumns width limit (below ∷ rows) _
        (better-AreColumns best _ h (scan_pair-AreColumns (width above below) 0 above below))

  better-grows : (best cols : List ColumnInfo) → length best ≤ length (better best cols)
  better-grows best cols = ground arith

  better-takes : (best cols : List ColumnInfo) → length cols ≤ length (better best cols)
  better-takes best cols = ground arith

  best_single-grows :
      (limit : ℕ) (rows : List (List Value)) (best : List ColumnInfo)
      → length best ≤ length (best_single host is_column limit rows best)
  unfolding best_single
  best_single-grows zero rows best = omega arith
  best_single-grows (suc limit) [] best = omega arith
  best_single-grows (suc limit) (row ∷ rows) best =
      let next = better best (scan_row host is_column 0 row) in
      omega (
        arith,
        best_single-grows limit rows next,
        better-grows best (scan_row host is_column 0 row),
      )

  -- No row within the limit has more columns than the best one.
  pub best_single-most :
      (limit : ℕ) (rows : List (List Value)) (best : List ColumnInfo) (i : ℕ) (row : List Value)
      → i < limit
      → get_elem? rows i ≡ some row
      → length (scan_row host is_column 0 row) ≤ length (best_single host is_column limit rows best)
  unfolding best_single
  best_single-most zero rows best i row h e = absurd (omega arith)
  best_single-most (suc limit) [] best i row h e = absurd (cc)
  best_single-most (suc limit) (r ∷ rows) best zero row h e =
      let cols = scan_row host is_column 0 r in
      ground (arith, best_single-grows limit rows (better best cols), better-takes best cols)
  best_single-most (suc limit) (r ∷ rows) best (suc i) row h e =
      best_single-most limit rows _ i row (omega arith) e
