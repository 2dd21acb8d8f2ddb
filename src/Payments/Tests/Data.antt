-- ===== src/Payments/Tests/Data.antt =====
-- Concrete data: rounding down to whole minor units, a payment of 100 without a fee and one with a
-- fee of 3 that the client pays.
use Prim.Native.Nat.{◌/◌, ◌^◌}
use package.native.Mathlib.Nat.{div-le_of_le-mul, div-mul-le_self}
use multi_rail_payments_proc.Prelude.{ℕ, ◌-◌, ◌*◌, ◌≤◌, ◌≡◌, ap, Option, none, some, [], ◌∷◌, arith}
use multi_rail_payments_proc.Prelude.Int.{ℤ, pos, pos_part}
use multi_rail_payments_proc.Types.{ExecutionType, IntegrationType}
use multi_rail_payments_proc.Payments.Model.{
  PaymentIntent, PaymentIntentStatus, PaymentOperationType, PaymentAmountAccumulator,
  PaymentTransactionContext, SourceIntegrationAccount, Transaction, TransactionStatus, Transfer,
  client,
}
use multi_rail_payments_proc.Payments.Fee.{FeeArith}

-- Whole multiples of the minor unit, rounded down.
abbrev pub floor_share : ℤ → ℤ × ℤ → ℕ → ℤ
floor_share x (fee, amount) u =
    pos (pos_part x * pos_part fee / pos_part amount / 10 ^ (30 - u) * 10 ^ (30 - u))

floor_bound : (y a f s : ℕ) → y ≤ a * f → y / a / s * s ≤ f
floor_bound y a f s h = omega (arith, div-mul-le_self (y / a) s, div-le_of_le-mul a h)

pub floor_share_zero : (r : ℤ × ℤ) (u : ℕ) → floor_share (pos 0) r u ≡ pos 0
floor_share_zero (fee, amount) u =
    let none_left =
      floor_bound (0 * pos_part fee) (pos_part amount) 0 (10 ^ (30 - u)) (omega arith) in
    ap pos (omega (arith, none_left))

abbrev pub floor_arith : FeeArith
floor_arith = record {
  Ratio = ℤ × ℤ;
  div = λ a b. (a, b);
  share = floor_share;
  share_zero = floor_share_zero;
}

abbrev pub fee_account : SourceIntegrationAccount
fee_account = record { account = 70; platform_account_id = 7 }

abbrev pub payment : (fee : Option ℤ) → PaymentIntent
payment fee = record {
  id = 1;
  operation_type = PaymentOperationType.user_request;
  to = record { account = 80; platform_account_id = 8 };
  integration = IntegrationType.ethereum;
  currency = 3;
  amount = pos 100;
  platform_fee = fee;
  platform_fee_account = some fee_account;
  platform_fee_payer = some client;
  status = PaymentIntentStatus.processing;
  created_at = 10;
}

abbrev pub free_payment : PaymentIntent
free_payment = payment none

abbrev pub client_payment : PaymentIntent
client_payment = payment (some (pos 3))

abbrev pub tx : Transaction
tx = record {
  id = 21;
  execution_type = ExecutionType.native;
  integration = IntegrationType.ethereum;
  source_tx_id = 22;
  status = TransactionStatus.confirmed;
  executed_at = some 30;
}

abbrev pub transfer_of : (amount : ℕ) → Transfer
transfer_of amount = record {
  id = 31;
  index = 0;
  from = 90;
  to = 80;
  amount = pos amount;
  currency = 3;
  intent = none;
}

abbrev pub part_of : (amount : ℕ) → PaymentAmountAccumulator
part_of amount = record { payment_id = 1; amount = pos amount; from = 90 }

abbrev pub context_of : PaymentIntent → Transfer → PaymentTransactionContext
context_of p t = record {
  transaction = tx;
  transfers = t ∷ [];
  payment_intents = p ∷ [];
  integration_accounts = (80, 80) ∷ [];
  accounts_link = [];
  platform_accounts = [];
  amounts = (1, part_of 50 ∷ []) ∷ [];
  minor_unit = λ c. 30;
}
