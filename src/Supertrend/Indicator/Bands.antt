-- ===== src/Supertrend/Indicator/Bands.antt =====
-- client/supertrend_engine.py, `calculate_supertrend`: how each bar follows from the one before, and
-- what the report says of the last. Of float comparison it is used that no two numbers are each
-- below the other.
use xts_multi_tennant.Prelude.{
  Bool, Bool-cases, List, [], false, if◌then◌else◌, inl, inr, not, refl, some, some_inj, subst, sym,
  true, ◌&&◌, ◌||◌, ◌∙◌, ◌∷◌, ◌≡◌,
}
use xts_multi_tennant.Supertrend.Indicator.{
  Floats, Trend, initializing, bullish, bearish, is_trend, Candle, Point, Report, ratchet_ub,
  ratchet_lb, turn, first_point, next_point, points_after, points, report, report_last, report_of,
  basic_ub, basic_lb,
}

module _ (F : Floats) where
  -- A turn of the trend: upwards by a close above the bar's upper band, downwards by one below its
  -- lower band.
  abbrev pub Turns : Point F → Point F → Trend → Trend → Type 0
  Turns p q bearish bullish = F.less p.upper_band q.candle.close ≡ true
  Turns p q bullish bearish = F.less q.candle.close p.lower_band ≡ true
  Turns p q bullish bullish = Unit
  Turns p q bearish bearish = Unit
  Turns p q initializing t = ⊥
  Turns p q bullish initializing = ⊥
  Turns p q bearish initializing = ⊥

  -- How a bar follows one: the trend turns only by a close beyond the band, the lower band falls only
  -- after a close below it, and the upper band rises only after a close above it.
  pub record Follows (p q : Point F) : Type 0 where
    pub turns : Turns p q p.trend q.trend
    pub lower : F.less q.lower_band p.lower_band ≡ true → F.less p.candle.close p.lower_band ≡ true
    pub upper : F.less p.upper_band q.upper_band ≡ true → F.less p.upper_band p.candle.close ≡ true

  abbrev pub Chain : Point F → List (Point F) → Type 0
  Chain p [] = Unit
  Chain p (q ∷ rest) = Follows p q × Chain q rest

  abbrev pub IsChain : List (Point F) → Type 0
  IsChain [] = Unit
  IsChain (p ∷ rest) = Chain p rest

  -- The bar has a trend.
  abbrev pub IsTrending : Trend → Type 0
  IsTrending initializing = ⊥
  IsTrending bullish = Unit
  IsTrending bearish = Unit

  turn-IsTrending :
      (t : Trend) (ub lb close : F.Float) → IsTrending t → IsTrending (turn F t ub lb close)
  unfolding turn is_trend
  turn-IsTrending initializing ub lb close h = absurd h
  turn-IsTrending bullish ub lb close h = elim (Bool-cases (F.less close lb)) [
    | inl below ↦ rw (turn, below) tt
    | inr above ↦ rw (turn, above) tt
  ]
  turn-IsTrending bearish ub lb close h = elim (Bool-cases (F.less ub close)) [
    | inl above ↦ rw (turn, above) tt
    | inr below ↦ rw (turn, below) tt
  ]

  turn-Turns :
      (t : Trend) (p q : Point F)
      → IsTrending t
      → Turns p q t (turn F t p.upper_band p.lower_band q.candle.close)
  unfolding turn is_trend
  turn-Turns initializing p q h = absurd h
  turn-Turns bullish p q h = elim (Bool-cases (F.less q.candle.close p.lower_band)) [
    | inl below ↦ rw (turn, below) below
    | inr above ↦ rw (turn, above) tt
  ]
  turn-Turns bearish p q h = elim (Bool-cases (F.less p.upper_band q.candle.close)) [
    | inl above ↦ rw (turn, above) above
    | inr below ↦ rw (turn, below) tt
  ]

  either_trend : (b : Bool) → IsTrending (if b then bullish else bearish)
  either_trend true = tt
  either_trend false = tt

  trending_lem :
      (p q : Point F) (t t' : Trend)
      → Turns p q t t'
      → (not (is_trend t' t) && not (is_trend t initializing)) ≡ not (is_trend t' t)
  unfolding is_trend
  trending_lem p q initializing t' h = absurd h
  trending_lem p q bullish initializing h = absurd h
  trending_lem p q bearish initializing h = absurd h
  trending_lem p q bullish bullish h = refl
  trending_lem p q bullish bearish h = refl
  trending_lem p q bearish bullish h = refl
  trending_lem p q bearish bearish h = refl

  ratcheted :
      (P : F.Float → Type 0) (moves crossed : Bool) (basic prev : F.Float)
      → (moves ≡ true → P basic → ⊥)
      → (P prev → ⊥)
      → P (if moves || crossed then basic else prev)
      → crossed ≡ true
  ratcheted P moves true basic prev m k h = refl
  ratcheted P true false basic prev m k h = absurd (m refl h)
  ratcheted P false false basic prev m k h = absurd (k h)

  module _ (asym : (a b : F.Float) → F.less a b ≡ true → F.less b a ≡ false) where
    both : (a b : F.Float) → F.less a b ≡ true → F.less b a ≡ true → ⊥
    both a b h k = absurd (cc (sym k ∙ asym a b h))

    next_point-Follows :
        (multiplier : F.Float) (p : Point F) (c : Candle F) (atr : F.Float)
        → IsTrending p.trend
        → Follows p (next_point F multiplier p c atr)
    unfolding next_point ratchet_ub ratchet_lb
    next_point-Follows multiplier p c atr h = record {
      turns = turn-Turns p.trend p (next_point F multiplier p c atr) h;
      lower =
          ratcheted (λ v. F.less v p.lower_band ≡ true)
            (F.less p.lower_band (basic_lb F multiplier c atr)) (F.less p.candle.close p.lower_band)
            (basic_lb F multiplier c atr) p.lower_band
            (both p.lower_band (basic_lb F multiplier c atr))
            (λ k. both p.lower_band p.lower_band k k);
      upper =
          ratcheted (λ v. F.less p.upper_band v ≡ true)
            (F.less (basic_ub F multiplier c atr) p.upper_band) (F.less p.upper_band p.candle.close)
            (basic_ub F multiplier c atr) p.upper_band
            (both (basic_ub F multiplier c atr) p.upper_band)
            (λ k. both p.upper_band p.upper_band k k);
    }

    points_after-Chain :
        (multiplier : F.Float) (p : Point F) (cs : List (Candle F)) (atrs : List F.Float)
        → IsTrending p.trend
        → Chain p (points_after F multiplier p cs atrs)
    unfolding points_after next_point
    points_after-Chain multiplier p [] atrs h = tt
    points_after-Chain multiplier p (c ∷ cs) [] h = tt
    points_after-Chain multiplier p (c ∷ cs) (a ∷ atrs) h = (
      next_point-Follows multiplier p c a h,
      points_after-Chain multiplier (next_point F multiplier p c a) cs atrs
          (turn-IsTrending p.trend p.upper_band p.lower_band c.close h),
    )

    first-IsTrending :
        (multiplier : F.Float) (c : Candle F) (a : F.Float)
        → IsTrending (first_point F multiplier c a).trend
    unfolding first_point
    first-IsTrending multiplier c a = either_trend (F.at_least c.close (basic_lb F multiplier c a))

    pub points-IsChain :
        (multiplier : F.Float) (cs : List (Candle F)) (atrs : List F.Float)
        → IsChain (points F multiplier cs atrs)
    unfolding points
    points-IsChain multiplier [] atrs = tt
    points-IsChain multiplier (c ∷ cs) [] = tt
    points-IsChain multiplier (c ∷ cs) (a ∷ atrs) =
        points_after-Chain multiplier (first_point F multiplier c a) cs atrs
          (first-IsTrending multiplier c a)

    -- What a report says of its last bar is so of the bar before.
    pub record IsTold (r : Report F) : Type 0 where
      pub chain : IsChain r.bars
      pub previous : Point F
      pub follows : Follows previous r.last
      pub told : r.prev_trend ≡ previous.trend
      pub flip : r.is_flip ≡ not (is_trend r.last.trend r.prev_trend)

    flip_lem :
        (p q : Point F)
        → Turns p q p.trend q.trend
        → (not (is_trend q.trend p.trend) && not (is_trend p.trend initializing))
          ≡ not (is_trend q.trend p.trend)
    flip_lem p q h = trending_lem p q p.trend q.trend h

    report_last-IsTold :
        (bars : List (Point F)) (p : Point F) (rest : List (Point F)) (r : Report F)
        → IsChain bars
        → Chain p rest
        → report_last F bars p rest ≡ some r
        → IsTold r
    unfolding report_last report
    report_last-IsTold bars p [] r h k e = absurd (cc e)
    report_last-IsTold bars p (q ∷ []) r h k e = subst IsTold (some_inj.0 e) (record {
      chain = h;
      previous = p;
      follows = k.0;
      told = refl;
      flip = flip_lem p q k.0.turns;
    })
    report_last-IsTold bars p (q ∷ (q' ∷ rest)) r h k e =
        report_last-IsTold bars q (q' ∷ rest) r h k.1 e

    pub report_of-IsTold :
        (bars : List (Point F)) (r : Report F) → IsChain bars → report_of F bars ≡ some r → IsTold r
    unfolding report_of
    report_of-IsTold [] r h e = absurd (cc e)
    report_of-IsTold (p ∷ rest) r h e = report_last-IsTold (p ∷ rest) p rest r h h e
