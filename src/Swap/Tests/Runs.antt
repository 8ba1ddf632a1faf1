-- ===== src/Swap/Tests/Runs.antt =====
-- The happy path, the refund path, and each theorem of the state machine at a step of them.
use swapfloor.Common.{◌≡◌, refl, ok}
use swapfloor.Swap.Constants.{State}
use swapfloor.Swap.Machine.{apply_swap_envelope, apply_all}
use swapfloor.Swap.Machine.Core.{create_initial_trade}
use swapfloor.Swap.Tests.Sample.{
  machine, toy, text, fresh, at_terms, at_accepted, at_invoice, at_escrow, at_paid, at_claimed,
  at_refunded, propose, agree, bill, lock, pay, claim, refund, to_claimed, to_refunded,
}

pub created : create_initial_trade (text "t1") ≡ ok fresh
unfolding machine
created = refl

-- The happy path, step by step.
happy_path :
    (apply_swap_envelope toy fresh propose ≡ ok at_terms)
    × (apply_swap_envelope toy at_terms agree ≡ ok at_accepted)
    × (apply_swap_envelope toy at_accepted bill ≡ ok at_invoice)
    × (apply_swap_envelope toy at_invoice lock ≡ ok at_escrow)
unfolding machine
happy_path = (refl, refl, refl, refl)

pub step_paid : apply_swap_envelope toy at_escrow pay ≡ ok at_paid
unfolding machine
step_paid = refl

pub step_claimed : apply_swap_envelope toy at_paid claim ≡ ok at_claimed
unfolding machine
step_claimed = refl

pub step_refunded : apply_swap_envelope toy at_escrow refund ≡ ok at_refunded
unfolding machine
step_refunded = refl

run_claimed : (apply_all toy fresh to_claimed).state ≡ State.claimed
unfolding machine
run_claimed = refl

run_refunded : (apply_all toy fresh to_refunded).state ≡ State.refunded
unfolding machine
run_refunded = refl
