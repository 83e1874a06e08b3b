-- ===== src/Contracts/Tests.antt =====
-- The choice of a multiplier at a concrete name.
use xts_multi_tennant.Prelude.{
  Text, [], codes, inl, inr, refl, starts_with, strip, text_eq, true, upper, ℕ, ◌≡◌,
}
use xts_multi_tennant.Contracts.Symbols.{resolve_symbol_smart, clean_symbol, alphanum_only}
use xts_multi_tennant.Contracts.Multiplier.{
  Longest, IsIn, norm_of, commodity_multipliers, get_contract_multiplier,
  get_contract_multiplier-Longest,
}

get_contract_multiplier-Longest_example :
    (found : Text × ℕ) × ((get_contract_multiplier [] (codes "GOLDPETAL25OCT") (codes "MCXFO")
        ≡ found.1)
      × (IsIn found commodity_multipliers
          × ((starts_with (norm_of [] (codes "GOLDPETAL25OCT")) found.0 ≡ true)
              × Longest
                  (λ r. starts_with (norm_of [] (codes "GOLDPETAL25OCT")) r)
                  found
                  commodity_multipliers)))
unfolding commodity_multipliers starts_with resolve_symbol_smart clean_symbol alphanum_only upper
    strip text_eq
get_contract_multiplier-Longest_example =
    get_contract_multiplier-Longest [] (codes "GOLDPETAL25OCT") (codes "MCXFO") (inr (inl refl))
      refl
