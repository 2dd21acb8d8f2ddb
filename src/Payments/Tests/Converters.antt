-- ===== src/Payments/Tests/Converters.antt =====
-- The converters' theorems at concrete payments. Of the payment with a fee of 3, each part of 50 has
-- the fee 1, rounded down from 1.5.
use multi_rail_payments_proc.Prelude.{◌≡◌, refl, some, [], ◌∷◌, arith}
use multi_rail_payments_proc.Prelude.Int.{pos, ◌+ℤ◌, ◌-ℤ◌, ◌≤ℤ◌}
use multi_rail_payments_proc.Payments.Model.{PaymentTransactionContext}
use multi_rail_payments_proc.Payments.Fee.{fee_payment, charge_fee, payment_fee_calculate}
use multi_rail_payments_proc.Payments.Match.{
  match_pairs, try_payment, gross_amount, total_fee, transferred_without_fee,
}
use multi_rail_payments_proc.Payments.Convert.{exact_changes, overpay_changes}
use multi_rail_payments_proc.Payments.Convert.Classify.{
  Match, fee_of, exact_match, underpay_match, overpay_match,
}
use multi_rail_payments_proc.Payments.Classification.{map_overpay}
use multi_rail_payments_proc.Payments.FeeParts.{total_fee-whole}
use multi_rail_payments_proc.Payments.Pairing.Partition.{IsPartition, match_pairs-IsPartition}
use multi_rail_payments_proc.Payments.Settlement.{both, overpay_changes-settled}
use multi_rail_payments_proc.Payments.Settlement.Matched.{Apart, left, exact_match-settled}
use multi_rail_payments_proc.Payments.Tests.Data.{
  floor_arith, free_payment, client_payment, tx, transfer_of, part_of, context_of,
}

client-Apart : Apart client_payment
client-Apart account h e = ground arith

match_pairs-IsPartition_example :
    let ctx = context_of free_payment (transfer_of 50) in
    (let r = match_pairs floor_arith ctx (exact_match floor_arith ctx) in
      IsPartition ctx r.0 r.1 r.2)
    × (let r = match_pairs floor_arith ctx (underpay_match floor_arith ctx) in
        IsPartition ctx r.0 r.1 r.2)
    × (let r = match_pairs floor_arith ctx (overpay_match floor_arith ctx) in
        IsPartition ctx r.0 r.1 r.2)
match_pairs-IsPartition_example =
    match_pairs-IsPartition floor_arith (context_of free_payment (transfer_of 50))

full : (pos 50 +ℤ pos 1 ≤ℤ pos 100) × (pos 100 ≤ℤ pos 50 +ℤ pos 50)
unfolding ◌+ℤ◌
full = (omega arith, omega arith)

total_fee-whole_example :
    total_fee floor_arith client_payment 30 (part_of 50 ∷ part_of 50 ∷ []) (pos 0) (pos 0) ≡ pos 3
total_fee-whole_example =
    total_fee-whole floor_arith client_payment (pos 3) 30 (part_of 50) (some (part_of 50)) refl
      (omega arith) (omega arith) full

abbrev sample : Match
sample = record {
  payment = client_payment;
  transfer = transfer_of 60;
  fee_changes = [];
  amount = pos 60;
  expected_amount = pos 50;
  overpay = pos 10;
}

overpay_changes-settled_example :
    both overpay_changes tx sample ≡ record { available = pos 0; hold = pos 60; hold_in = pos 0 }
overpay_changes-settled_example = overpay_changes-settled tx sample

-- The parts are both converted: the overpay converter takes the second one.
parts-overpay :
    let ctx = context_of client_payment (transfer_of 50) in
    map_overpay
      (try_payment floor_arith ctx (overpay_match floor_arith ctx) (transfer_of 50) client_payment)
    ≡ some (pos 0)
unfolding try_payment transferred_without_fee gross_amount total_fee overpay_match fee_payment
    charge_fee payment_fee_calculate ◌+ℤ◌ ◌-ℤ◌
parts-overpay = refl

abbrev exact_context : PaymentTransactionContext
exact_context = context_of client_payment (transfer_of 100)

abbrev exact_sample : Match
exact_sample = record sample {
  transfer = transfer_of 100;
  fee_changes =
      (fee_of floor_arith exact_context client_payment (transfer_of 100) (pos 0) (pos 0)).changes;
  amount = pos 100;
  expected_amount = pos 100;
  overpay = pos 0;
}

exact_match-settled_example :
    both exact_changes tx exact_sample
    ≡ left floor_arith exact_context client_payment (transfer_of 100) (pos 0) (pos 0)
unfolding exact_match fee_payment charge_fee payment_fee_calculate ◌+ℤ◌ ◌-ℤ◌
exact_match-settled_example =
    exact_match-settled floor_arith exact_context client_payment (transfer_of 100) (pos 0) (pos 0)
      tx exact_sample client-Apart refl

abbrev underpay_context : PaymentTransactionContext
underpay_context = context_of client_payment (transfer_of 40)

abbrev underpay_sample : Match
underpay_sample = record sample {
  transfer = transfer_of 40;
  fee_changes =
      (fee_of floor_arith underpay_context client_payment (transfer_of 40) (pos 0) (pos 0)).changes;
  amount = pos 40;
  expected_amount = pos 100;
  overpay = pos 0;
}
