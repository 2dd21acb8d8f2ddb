-- ===== src/Payments/Convert/Classify.antt =====
-- How a converter takes a transfer for a payment: the match functions of the exact, the underpay
-- and the overpay converter, in
-- apps/core/src/module/payment-intent/transaction-converter/converter/converter.
use multi_rail_payments_proc.Prelude.{◌&&◌, Option, none, some, List, [], ◌∷◌, if◌then◌else◌}
use multi_rail_payments_proc.Prelude.Int.{ℤ, pos, ◌+ℤ◌, ◌-ℤ◌, leb_ℤ, ltb_ℤ, beq_ℤ}
use multi_rail_payments_proc.Types.{BalanceChange}
use multi_rail_payments_proc.Payments.Model.{PaymentIntent, Transfer, PaymentTransactionContext}
use multi_rail_payments_proc.Payments.Fee.{FeeArith, FeePaymentResult, fee_payment}

-- What the match functions return; each converter reads the fields that it sets.
pub record Match : Type 0 where
  pub payment : PaymentIntent
  pub transfer : Transfer
  pub fee_changes : List BalanceChange
  pub amount : ℤ
  pub expected_amount : ℤ
  pub overpay : ℤ

module _ (dec : FeeArith) (ctx : PaymentTransactionContext) (payment : PaymentIntent)
    (transfer : Transfer) (net gross : ℤ) where
  -- The fee operation takes what was transferred before without its fees.
  abbrev pub fee_of : FeePaymentResult
  fee_of =
      fee_payment dec payment ctx.transaction (transfer.id ∷ []) transfer.amount net
        (ctx.minor_unit payment.currency)

  abbrev pub total_net : ℤ
  total_net = fee_of.amount +ℤ net

  abbrev pub total_gross : ℤ
  total_gross = transfer.amount +ℤ gross

  abbrev pub due_net : ℤ
  due_net = payment.amount -ℤ fee_of.client_fee_amount

  abbrev pub due_gross : ℤ
  due_gross = payment.amount +ℤ fee_of.payer_fee_amount

  unfoldable pub exact_match : Option Match
  exact_match =
      if beq_ℤ total_net due_net && beq_ℤ total_gross due_gross
      then some (record {
        payment = payment;
        transfer = transfer;
        fee_changes = fee_of.changes;
        amount = transfer.amount;
        expected_amount = transfer.amount;
        overpay = pos 0;
      })
      else none

  unfoldable pub underpay_match : Option Match
  underpay_match =
      if ltb_ℤ total_net due_net && ltb_ℤ total_gross due_gross
      then some (record {
        payment = payment;
        transfer = transfer;
        fee_changes = fee_of.changes;
        amount = transfer.amount;
        expected_amount = due_gross -ℤ gross;
        overpay = pos 0;
      })
      else none

  unfoldable pub overpay_match : Option Match
  overpay_match =
      if leb_ℤ due_gross gross
      then none
      else if leb_ℤ due_net total_net && leb_ℤ due_gross total_gross
      then some (record {
        payment = payment;
        transfer = transfer;
        fee_changes = [];
        amount = transfer.amount;
        expected_amount = payment.amount -ℤ gross +ℤ fee_of.payer_fee_amount;
        overpay = total_gross -ℤ due_gross;
      })
      else none
