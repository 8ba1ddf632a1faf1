-- ===== src/Swap/Trades/Total.antt =====
-- `applySwapEnvelope` answers by a result: on a trade with valid terms no conversion in it throws.
use swapfloor.Common.{true, ok, ◌≡◌, Returns}
use swapfloor.Js.Text.{Text}
use swapfloor.Js.Value.{Value, truthy}
use swapfloor.Swap.Schema.Settlement.{validate_terms}
use swapfloor.Swap.Machine.Core.{Trade}

abbrev pub HasValidTerms : Trade → Type 0
HasValidTerms t = truthy t.terms ≡ true → validate_terms t.terms ≡ ok tt
