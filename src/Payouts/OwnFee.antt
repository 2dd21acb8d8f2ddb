-- ===== src/Payouts/OwnFee.antt =====
-- The integration fee of a payout whose transaction the member itself has initiated.
use multi_rail_payments_proc.Prelude.{◌≡◌, refl, true, some, nat_beq_iff}
use multi_rail_payments_proc.Prelude.Int.{ℤ, pos, ◌+ℤ◌, negated, int_laws}
use multi_rail_payments_proc.Ledger.Amounts.{add_amounts, compute_delta}
use multi_rail_payments_proc.Payments.Settlement.{sum_for}
use multi_rail_payments_proc.Payouts.Model.{
  PayoutIntent, PayoutTransaction, PayoutTransfer, AccountLink,
}
use multi_rail_payments_proc.Payouts.Operations.{
  is_member, charge_integration_fee, initiator_changes,
}

cancelled : (x y : ℤ) → x +ℤ (negated y +ℤ (y +ℤ pos 0)) ≡ x
cancelled x y = omega int_laws

left_over : (x : ℤ) → x +ℤ (pos 0 +ℤ (pos 0 +ℤ pos 0)) ≡ x
left_over x = omega int_laws

-- Where the initiator of the transaction is the member, the fee changes only release the hold on the
-- member's platform account: the debit of the integration fee and its credit cancel there.
pub charge_integration_fee-own :
    (fee_diff : (estimated fee rate : ℤ) → ℤ) (payout : PayoutIntent) (tx : PayoutTransaction)
    (t : PayoutTransfer) (link : AccountLink) (fee integration_fee : ℤ)
    → is_member payout (some link.platform_account_id) ≡ true
    → sum_for payout.member_account_id
        (charge_integration_fee fee_diff payout tx t link fee integration_fee)
      ≡ record {
        available = payout.estimated_fee;
        hold = negated payout.estimated_fee;
        hold_in = pos 0;
      }
unfolding sum_for charge_integration_fee initiator_changes compute_delta add_amounts
charge_integration_fee-own fee_diff payout tx t link fee integration_fee member =
    rw
      (
        member,
        initiator_changes,
        (nat_beq_iff payout.member_account_id payout.member_account_id).1 refl,
      )
      (λ i. record {
        available = cancelled payout.estimated_fee integration_fee i;
        hold = left_over (negated payout.estimated_fee) i;
        hold_in = left_over (pos 0) i;
      })
