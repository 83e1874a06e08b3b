-- ===== src/Orders/Ref/Laws.antt =====
-- What `format_order_ref_chunk` keeps: the broker's length, the suffixes, and the chunk's number.
use xts_multi_tennant.Prelude.{
  Bool-cases, Text, [], ap, arith, false, if◌then◌else◌, inl, inr, leb, leb→le, length,
  length-append, length-take, ltb, max, refl, suc, sym, take, true, zero, ℕ, ◌%◌, ◌*◌, ◌++◌, ◌+◌,
  ◌-◌, ◌/◌, ◌<◌, ◌==◌, ◌∙◌, ◌∷◌, ◌≡◌, ◌≢◌, ◌≤◌,
}
use xts_multi_tennant.Orders.Ref.{
  decimal_from, decimal, is_retry, retry_suffix, chunk_suffix, clamp, format_order_ref_chunk,
}
use mathlib.Core.List.{append_assoc}

-- The room that the suffixes of a reference take.
abbrev pub suffix_length : Text → ℕ → ℕ
suffix_length base idx = length (retry_suffix base) + length (chunk_suffix idx)

length-clamp :
    (base retry chunk : Text) (max_len : ℕ)
    → length retry + length chunk < max_len
    → length (clamp base retry chunk max_len) ≤ max_len
unfolding clamp
length-clamp base retry chunk max_len h =
    let body = take (length base - length retry) base in
    let avail = max 1 (max_len - length (retry ++ chunk)) in
    omega (
      arith,
      length-append (take avail body) (retry ++ chunk),
      length-append retry chunk,
      length-take avail body,
    )

-- A reference whose suffixes leave room for a character fits the broker's limit.
length-format_order_ref_chunk :
    (base : Text) (idx max_len : ℕ)
    → suffix_length base idx < max_len
    → length (format_order_ref_chunk base idx max_len) ≤ max_len
unfolding format_order_ref_chunk
length-format_order_ref_chunk [] idx max_len h = omega arith
length-format_order_ref_chunk (c ∷ base) idx max_len h =
    elim (Bool-cases (leb (length ((c ∷ base) ++ chunk_suffix idx)) max_len)) [
      | inl fits ↦ rw fits (leb→le _ _ fits)
      | inr long ↦
          rw long (length-clamp (c ∷ base) (retry_suffix (c ∷ base)) (chunk_suffix idx) max_len h)
    ]

take-length : (s : Text) → take (length s) s ≡ s
take-length [] = refl
take-length (c ∷ s) = ap (λ t. c ∷ t) (take-length s)

length-retry_suffix : (s : Text) → length (retry_suffix s) ≤ length s
unfolding retry_suffix
length-retry_suffix [] = omega arith
length-retry_suffix (c ∷ s) = ground (arith, length-retry_suffix s)

-- What stands before the retry marker, and the marker.
retry_suffix-split : (s : Text) → take (length s - length (retry_suffix s)) s ++ retry_suffix s ≡ s
unfolding retry_suffix
retry_suffix-split [] = refl
retry_suffix-split (c ∷ s) = elim (Bool-cases (is_retry (c ∷ s))) [
  | inl hit ↦ rw hit (let z : length (c ∷ s) - length (c ∷ s) ≡ 0 = omega arith in rw z)
  | inr miss ↦ rw miss (
      let e : suc (length s) - length (retry_suffix s) ≡ suc (length s - length (retry_suffix s)) =
        omega (arith, length-retry_suffix s) in
      rw e (ap (λ t. c ∷ t) (retry_suffix-split s)))
]

-- Neither the retry marker nor the chunk's number is ever cut: they end the reference, behind a
-- part of the base.
pub format_order_ref_chunk-suffixes :
    (base : Text) (idx max_len : ℕ)
    → base ≢ []
    → (n : ℕ) × (format_order_ref_chunk base idx max_len
        ≡ take n (take (length base - length (retry_suffix base)) base)
          ++ (retry_suffix base ++ chunk_suffix idx))
unfolding format_order_ref_chunk
format_order_ref_chunk-suffixes [] idx max_len h = absurd (h refl)
format_order_ref_chunk-suffixes (c ∷ base) idx max_len h =
    let s = c ∷ base in
    let body = take (length s - length (retry_suffix s)) s in
    elim (Bool-cases (leb (length (s ++ chunk_suffix idx)) max_len)) [
      | inl fits ↦ (length body, rw (fits, take-length, ← append_assoc, retry_suffix-split))
      | inr long ↦
          (max 1 (max_len - length (retry_suffix s ++ chunk_suffix idx)), unfold clamp in rw long)
    ]

-- The number behind the last underscore.
last_value : ℕ → Text → ℕ
last_value v [] = v
last_value v (c ∷ s) = last_value (if c == b'_' then 0 else v * 10 + (c - b'0')) s

last_value-append : (v : ℕ) (s t : Text) → last_value v (s ++ t) ≡ last_value (last_value v s) t
unfolding last_value
last_value-append v [] t = refl
last_value-append v (c ∷ s) t = last_value-append (if c == b'_' then 0 else v * 10 + (c - b'0')) s t

last_value-digit :
    (v d : ℕ) (s : Text) → d < 10 → last_value v ((b'0' + d) ∷ s) ≡ last_value (v * 10 + d) s
unfolding last_value
last_value-digit v d s h =
    let e : ((b'0' + d) == b'_') ≡ false = ground arith in
    let m : v * 10 + (b'0' + d - b'0') ≡ v * 10 + d = omega arith in rw (e, m)

last_value-decimal_from :
    (fuel n : ℕ) (acc : Text) → n < fuel → last_value 0 (decimal_from fuel n acc) ≡ last_value n acc
unfolding decimal_from
last_value-decimal_from zero n acc h = absurd (omega arith)
last_value-decimal_from (suc fuel) n acc h = elim (Bool-cases (ltb n 10)) [
  | inl small ↦ rw small (
      last_value-digit 0 (n % 10) acc (omega arith)
      ∙ (let e : 0 * 10 + n % 10 ≡ n = ground arith in rw e))
  | inr big ↦ rw big (
      last_value-decimal_from fuel (n / 10) _ (ground arith)
      ∙ last_value-digit (n / 10) (n % 10) acc (omega arith)
      ∙ (let e : n / 10 * 10 + n % 10 ≡ n = omega arith in rw e))
]

last_value-chunk : (s : Text) (idx : ℕ) → 1 < idx → last_value 0 (s ++ chunk_suffix idx) ≡ idx
unfolding chunk_suffix decimal
last_value-chunk s idx h =
    let e : ltb 1 idx ≡ true = ground arith in
    rw (e, last_value-append)
      (unfold last_value in last_value-decimal_from (suc idx) idx [] (omega arith))

last_value-format :
    (base : Text) (idx max_len : ℕ)
    → base ≢ []
    → 1 < idx
    → last_value 0 (format_order_ref_chunk base idx max_len) ≡ idx
last_value-format base idx max_len h two =
    let (n, e) = format_order_ref_chunk-suffixes base idx max_len h in
    rw (e, ← append_assoc) (last_value-chunk _ idx two)

-- Two chunks after the first of one order never share an identifier, however long its base, which is
-- not empty.
pub format_order_ref_chunk-injective :
    (base : Text) (i j max_len : ℕ)
    → base ≢ []
    → 1 < i
    → 1 < j
    → format_order_ref_chunk base i max_len ≡ format_order_ref_chunk base j max_len
    → i ≡ j
format_order_ref_chunk-injective base i j max_len h hi hj e =
    sym (last_value-format base i max_len h hi)
    ∙ ap (last_value 0) e
    ∙ last_value-format base j max_len h hj
