-- ===== src/Gateway/Reference.antt =====
-- client/main.py, `generate_order_ref`: the reference of a signal's order. The md5 digest, with the
-- formatting of the price inside it, is a parameter; times are in milliseconds.
use xts_multi_tennant.Prelude.{
  Bool, Text, [], arith, codes, keep, leb, length, length-take, take, ℕ, ◌&&◌, ◌*◌, ◌++◌, ◌/◌, ◌||◌,
  ◌∷◌, ◌≤◌,
}
use xts_multi_tennant.Orders.Tick.{Side}

-- `re.sub(r'[^a-zA-Z0-9]', '', explicit_id)[:14]`
is_alphanumeric : ℕ → Bool
is_alphanumeric c = leb b'0' c && leb c b'9' || leb b'A' c && leb c b'Z' || leb b'a' c && leb c b'z'

clean_id : Text → Text
unfolding is_alphanumeric
clean_id id = take 14 (keep is_alphanumeric id)

-- What the digest of the reference is taken of: a bar's time, or a bucket of five seconds.
pub data RefKey : Type 0 where
  at_bar : Side → Text → ℕ → ℕ → Text → RefKey
  in_bucket : Side → Text → ℕ → ℕ → ℕ → RefKey

ref_key : Side → Text → ℕ → ℕ → Text → ℕ → RefKey
ref_key action symbol quantity price [] now =
    in_bucket action symbol quantity price (now / 5000 * 5)
ref_key action symbol quantity price (c ∷ bar_time) now =
    at_bar action symbol quantity price (c ∷ bar_time)

tagged : Text → Text → Text
tagged [] hashed = hashed
tagged (c ∷ id) hashed = codes "TV_" ++ c ∷ id

-- `digest` is `hashlib.md5(...).hexdigest()` of the formatted fields.
module _ (digest : RefKey → Text) where
  pub generate_order_ref : Side → Text → ℕ → ℕ → Text → Text → ℕ → Text
  unfolding clean_id ref_key tagged
  generate_order_ref action symbol quantity price explicit_id bar_time now =
      tagged (clean_id explicit_id)
        (codes "TVBot_" ++ take 14 (digest (ref_key action symbol quantity price bar_time now)))

  length-tagged :
      (id hashed : Text) → length id ≤ 14 → length hashed ≤ 20 → length (tagged id hashed) ≤ 20
  unfolding tagged
  length-tagged [] hashed h k = k
  length-tagged (c ∷ id) hashed h k = omega arith

  -- A reference is short enough for the broker's 50 characters with any number of chunks behind.
  pub length-generate_order_ref :
      (action : Side) (symbol : Text) (quantity price : ℕ) (id bar_time : Text) (now : ℕ)
      → length (generate_order_ref action symbol quantity price id bar_time now) ≤ 20
  unfolding generate_order_ref clean_id
  length-generate_order_ref action symbol quantity price id bar_time now =
      let hashed = digest (ref_key action symbol quantity price bar_time now) in
      length-tagged (take 14 (keep is_alphanumeric id)) (codes "TVBot_" ++ take 14 hashed)
        (omega (arith, length-take 14 (keep is_alphanumeric id)))
        (omega (arith, length-take 14 hashed))
