-- ===== src/Supertrend/Indicator/Totality.antt =====
-- client/supertrend_engine.py, `calculate_supertrend`: how many bars it computes, and that it reports.
use xts_multi_tennant.Prelude.{
  Bool, List, Option, [], ap, arith, drop, false, length, length-drop, ltb, none, refl, some, suc,
  sym, take, true, ℕ, ℤ, ◌+◌, ◌-◌, ◌∙◌, ◌∷◌, ◌≡◌, ◌≤◌,
}
use xts_multi_tennant.Supertrend.Indicator.{
  Floats, Raw, Candle, Point, Report, computed, points_after, points, report, report_last,
  report_of, bars_of, conclude, clean_candles, safe_period, safe_mult, calculate_supertrend,
  smoothed, moving, mean, atr_list, true_ranges, next_point, first_point,
}
use xts_multi_tennant.Supertrend.Indicator.Bands.{IsChain, IsTold, points-IsChain, report_of-IsTold}

module _ (F : Floats) where
  length-true_ranges :
      (prev : Option F.Float) (cs : List (Candle F)) → length (true_ranges F prev cs) ≡ length cs
  unfolding true_ranges
  length-true_ranges prev [] = refl
  length-true_ranges prev (c ∷ cs) = ap suc (length-true_ranges (some c.close) cs)

  length-smoothed :
      (period : ℕ) (prev : F.Float) (trs : List F.Float)
      → length (smoothed F period prev trs) ≡ length trs
  unfolding smoothed
  length-smoothed period prev [] = refl
  length-smoothed period prev (x ∷ trs) = ap suc (
      length-smoothed period
        (F.div (F.add (F.mul prev (F.of_nat (period - 1))) x) (F.of_nat period)) trs)

  length-moving :
      (period : ℕ) (trs : List F.Float)
      → 1 ≤ period
      → length (moving F period trs) ≡ length trs + 1 - period
  unfolding moving
  length-moving period [] h = omega (arith, h)
  length-moving period (x ∷ trs) h = ground (arith, length-moving period trs h)

  length-atr_list :
      (change_atr : Bool) (period : ℕ) (trs : List F.Float)
      → 1 ≤ period
      → period ≤ length trs
      → length (atr_list F change_atr period trs) ≡ length trs + 1 - period
  unfolding atr_list
  length-atr_list true period trs h k = omega (
    arith,
    length-smoothed period (mean F period (take period trs)) (drop period trs),
    length-drop period trs,
    k,
  )
  length-atr_list false period trs h k = length-moving period trs h

  length-points_after :
      (multiplier : F.Float) (p : Point F) (cs : List (Candle F)) (atrs : List F.Float)
      → length cs ≡ length atrs
      → length (points_after F multiplier p cs atrs) ≡ length cs
  unfolding points_after
  length-points_after multiplier p [] atrs h = refl
  length-points_after multiplier p (c ∷ cs) [] h = sym h
  length-points_after multiplier p (c ∷ cs) (a ∷ atrs) h =
      ap suc
        (length-points_after multiplier (next_point F multiplier p c a) cs atrs (omega (arith, h)))

  length-points :
      (multiplier : F.Float) (cs : List (Candle F)) (atrs : List F.Float)
      → length cs ≡ length atrs
      → length (points F multiplier cs atrs) ≡ length cs
  unfolding points
  length-points multiplier [] atrs h = refl
  length-points multiplier (c ∷ cs) [] h = sym h
  length-points multiplier (c ∷ cs) (a ∷ atrs) h =
      ap suc
        (length-points_after multiplier (first_point F multiplier c a) cs atrs (omega (arith, h)))

  length-bars_of :
      (change_atr : Bool) (period : ℕ) (multiplier : F.Float) (cs : List (Candle F))
      → 1 ≤ period
      → period ≤ length cs
      → length (bars_of F change_atr period multiplier cs) ≡ length cs + 1 - period
  unfolding bars_of
  length-bars_of change_atr period multiplier cs h k =
      let trs = true_ranges F none cs in
      let n = length-true_ranges none cs in
      let atrs = length-atr_list change_atr period trs h (omega (arith, k, n)) in
      let d = length-drop (period - 1) cs in
      length-points multiplier (drop (period - 1) cs) (atr_list F change_atr period trs)
        (omega (arith, d, atrs, n, h, k))
      ∙ omega (arith, d, h, k)

  report_last-some :
      (bars : List (Point F)) (p q : Point F) (rest : List (Point F))
      → (r : Report F) × ((report_last F bars p (q ∷ rest) ≡ some r) × (r.bars ≡ bars))
  unfolding report_last report
  report_last-some bars p q [] = (_, (refl, refl))
  report_last-some bars p q (q' ∷ rest) = report_last-some bars q q' rest

  report_of-some :
      (bars : List (Point F))
      → 2 ≤ length bars
      → (r : Report F) × ((report_of F bars ≡ some r) × (r.bars ≡ bars))
  unfolding report_of
  report_of-some [] h = absurd (omega (arith, h))
  report_of-some (p ∷ []) h = absurd (omega (arith, h))
  report_of-some (p ∷ (q ∷ rest)) h = report_last-some (p ∷ (q ∷ rest)) p q rest

  period_lem : (atr_period : ℤ) → 1 ≤ safe_period F atr_period
  unfolding safe_period
  period_lem atr_period = omega arith

  none_lem : (atr_period : ℤ) → safe_period F atr_period + 1 ≤ length (clean_candles F []) → ⊥
  unfolding clean_candles
  none_lem atr_period h = omega (arith, h)

  enough : (n k : ℕ) → k ≤ n → ltb n k ≡ false
  enough n k h = ground arith

  bars-IsChain :
      (asym : (a b : F.Float) → F.less a b ≡ true → F.less b a ≡ false) (change_atr : Bool)
      (period : ℕ) (multiplier : F.Float) (cs : List (Candle F))
      → IsChain F (bars_of F change_atr period multiplier cs)
  unfolding bars_of
  bars-IsChain asym change_atr period multiplier cs =
      points-IsChain F asym multiplier (drop (period - 1) cs)
        (atr_list F change_atr period (true_ranges F none cs))

  -- Where float comparison is asymmetric and the clean candles are more than the period, the indicator
  -- reports, on a bar for each candle from the period's last on; the trend turns only by a close beyond
  -- the previous bar's band, the lower band falls only after a close below it and the upper one rises
  -- only after a close above it, and is_flip says that the last bar's trend is not the one before.
  pub calculate_supertrend-IsTold :
      (asym : (a b : F.Float) → F.less a b ≡ true → F.less b a ≡ false)
      (raws : List (Option (Raw F))) (atr_period : ℤ) (multiplier : F.Float) (change_atr : Bool)
      → safe_period F atr_period + 1 ≤ length (clean_candles F raws)
      → (r : Report F) × ((calculate_supertrend F raws atr_period multiplier change_atr
            ≡ computed r)
          × (IsTold F asym r
              × (length r.bars ≡ length (clean_candles F raws) + 1 - safe_period F atr_period)))
  unfolding calculate_supertrend
  calculate_supertrend-IsTold asym [] atr_period multiplier change_atr h =
      absurd (none_lem atr_period h)
  calculate_supertrend-IsTold asym (raw ∷ raws) atr_period multiplier change_atr h =
      let cs = clean_candles F (raw ∷ raws) in
      let period = safe_period F atr_period in
      let m = safe_mult F multiplier in
      let bars = bars_of F change_atr period m cs in
      let n = length-bars_of change_atr period m cs (period_lem atr_period) (omega (arith, h)) in
      let (r, (e, b)) = report_of-some bars (omega (arith, n, h)) in
      (
        r,
        (
          rw (enough (length cs) (period + 1) h) (ap (conclude F) e),
          (
            report_of-IsTold F asym bars r (bars-IsChain asym change_atr period m cs) e,
            ap length b ∙ n,
          ),
        ),
      )
