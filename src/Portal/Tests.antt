-- ===== src/Portal/Tests.antt =====
-- Runs of the portal's log-in, breaker and sessions.
use xts_multi_tennant.Prelude.{
  List, Text, [], arith, codes, false, if◌then◌else◌, negsuc, none, pos, refl, some, text_eq, true,
  upper, ℕ, ◌&&◌, ◌↔◌, ◌∷◌, ◌≡◌, ◌≤◌,
}
use xts_multi_tennant.Dicts.{lookup}
use xts_multi_tennant.Portal.Alignment.{Fleet, unusable, answered, missing, number}
use xts_multi_tennant.Portal.Login.{guesses, max_login_attempts, guesses-bounded}
use xts_multi_tennant.Portal.Breaker as Breaker
use xts_multi_tennant.Portal.Breaker.{
  check_drawdown_circuit_breakers, check_drawdown_circuit_breakers-paused, paused_where, is_one_of,
  is_breached, HasLost, active_ids,
}
use xts_multi_tennant.Portal.Sessions.{
  User, find_user, verify_and_consume_recovery_code, verify_and_consume_recovery_code-once, count,
  codes_of, cleaned,
}

abbrev address : Text
address = codes "10.0.0.1"

-- Seven guesses within seven seconds.
abbrev seven_times : List ℕ
seven_times = 1000 ∷ 2000 ∷ 3000 ∷ 4000 ∷ 5000 ∷ 6000 ∷ 7000 ∷ []

guesses-bounded_example : guesses address seven_times [] ≤ max_login_attempts
unfolding lookup
guesses-bounded_example =
    guesses-bounded address 1000 seven_times []
      (
        (omega arith, omega arith),
        (
          (omega arith, omega arith),
          (
            (omega arith, omega arith),
            (
              (omega arith, omega arith),
              (
                (omega arith, omega arith),
                ((omega arith, omega arith), ((omega arith, omega arith), tt)),
              ),
            ),
          ),
        ),
      )
      refl

-- A client that has lost its limit and one that has not.
abbrev table : Breaker.Portal
table = record {
  tenants =
      record { id = codes "a"; status = Breaker.active }
      ∷ record { id = codes "b"; status = Breaker.active }
      ∷ [];
  audits = [];
}

abbrev desk : Breaker.Desk
desk = record {
  is_market_open = true;
  limit_of = λ id. pos 1_000_000;
  net_mtm = λ id. if text_eq id (codes "a") then negsuc 1_999_999 else pos 0;
  panic = λ id. false;
}

check_drawdown_circuit_breakers-paused_example :
    (check_drawdown_circuit_breakers true desk table).tenants
      ≡ paused_where
          (λ id. is_one_of id (active_ids table.tenants) && is_breached desk id)
          table.tenants
    × ((id : Text) → is_breached desk id ≡ true ↔ HasLost (desk.net_mtm id) (desk.limit_of id))
check_drawdown_circuit_breakers-paused_example =
    check_drawdown_circuit_breakers-paused true desk table refl

-- A hash that is a text's beginning stands in for the real one.
abbrev marked : Text → Text
marked t = 35 ∷ t

abbrev admin : User
admin = record {
  id = codes "u";
  recovery_codes = some (marked (codes "AB12CD34") ∷ marked (codes "00FF00FF") ∷ []);
}

verify_and_consume_recovery_code-once_example :
    ((verify_and_consume_recovery_code marked (codes "u") (codes "ab12-cd34") (admin ∷ [])).1
      ≡ true)
    × ((verify_and_consume_recovery_code marked
          (codes "u")
          (codes "ab12-cd34")
          (verify_and_consume_recovery_code marked
            (codes "u")
            (codes "ab12-cd34")
            (admin ∷ [])).0).1
        ≡ false)
unfolding find_user text_eq count codes_of cleaned upper
verify_and_consume_recovery_code-once_example =
    verify_and_consume_recovery_code-once marked (codes "u") (codes "ab12-cd34") (admin ∷ []) admin
      refl refl

-- One strategy on its target, one that the second address brings there, one that no address does,
-- and a client without telemetry.
abbrev fleet : Fleet
fleet = record {
  telemetry = λ t.
      if text_eq t (codes "a")
      then some (
          record {
            id = codes "on";
            quantity = pos 2;
            current_trend = codes "BEARISH";
            virtual_position = number (negsuc 1);
            current_broker_quantity = number (negsuc 1);
          }
          ∷ record {
            id = codes "off";
            quantity = pos 2;
            current_trend = codes "BULLISH";
            virtual_position = number (pos 2);
            current_broker_quantity = missing;
          }
          ∷ record {
            id = codes "lost";
            quantity = pos 1;
            current_trend = codes "BULLISH";
            virtual_position = number (pos 0);
            current_broker_quantity = missing;
          }
          ∷ [])
      else none;
  replies = λ t id.
      if text_eq id (codes "off")
      then unusable ∷ answered (codes "SUCCESS") ∷ unusable ∷ []
      else unusable ∷ unusable ∷ unusable ∷ [];
}
