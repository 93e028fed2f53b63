-- ===== src/Billing/Tests.antt =====
-- The results at concrete charges.
use cloudmeter.Common.{◌≡◌, List, [], ◌∷◌, arith}
use cloudmeter.Common.Int.{pos, ◌+ℤ◌, ◌≤ℤ◌}
use cloudmeter.Billing.{
  CreditGrant, credit_used, wallet_charge, consume, total_paid, Pays, consume-wallet_charge,
}

abbrev grants : List CreditGrant
grants = record { id = 1; remaining = pos 30 } ∷ record { id = 2; remaining = pos 50 } ∷ []

consume-wallet_charge_example :
    (total_paid (consume (credit_used (pos 100) grants) grants) +ℤ wallet_charge (pos 100) grants
      ≡ pos 100)
    × (pos 0 ≤ℤ wallet_charge (pos 100) grants)
    × Pays (consume (credit_used (pos 100) grants) grants) grants
unfolding ◌+ℤ◌
consume-wallet_charge_example =
    consume-wallet_charge (pos 100) grants (ground arith) (ground arith) (ground arith)
      (ground arith)
