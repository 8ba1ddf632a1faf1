-- ===== src/Autopost/Tests.antt =====
-- src/prompt/autopost.js: tests.
use swapfloor.Common.{
  ℕ, String, ◌≡◌, refl, true, none, some, List, [], ◌∷◌, ok, err, thrown, length,
}
use swapfloor.Js.Text.{
  Text, codes, trim, text_eq, to_lower_case, has_part, starts_with, is_digit, decimal,
}
use swapfloor.Js.Value.{
  Value, nat, num, str, arr, obj, Items, nil, cons, Fields, end, field, lookup, get, to_text,
  strict_eq,
}
use swapfloor.Js.Convert.{to_number, normalize_hex}
use swapfloor.Swap.Envelope.{put, without}
use swapfloor.Swap.Listings.{trimmed}
use swapfloor.Js.Reply.{Reply, answer, failure}
use swapfloor.Autopost.{
  assign_indices, prune_offers, filled_keys, is_filled, items_of, amounts_key, has_index, index_of,
  next_free, run_args, should_stop_for_insufficient_funds_error, unfilled, with_index, clamp_int,
  checked_expiry,
}
use swapfloor.Autopost.Lines.Numbered.{IsNumbered, assign_indices-prune_offers}
use swapfloor.Autopost.Jobs.{
  Job, Answers, new_job, run_once, start, stop, on_timer, numbered, pruned, posting, remove_job,
  kept_job,
}
use swapfloor.Autopost.Jobs.Runs.{calls, Calls, IsHorizon, calls-new_job}

abbrev text : String → Value
text s = str (codes s)

abbrev line : ℕ → Fields → Value
line sats more = obj (field "btc_sats" (num (nat sats)) (field "usdt_amount" (text "1000000") more))

-- The second line states the index that the first has by its place.
abbrev lines : Items
lines =
    cons (line 1000 end)
      (cons (line 2000 (field "line_index" (num (nat 0)) end)) (cons (line 1000 end) nil))

abbrev key : Text
key = codes "1000:1000000"

-- One of the two lines of the filled amounts goes; the others keep their indices.
lines_left :
    prune_offers (key ∷ []) (assign_indices 0 [] lines)
    ≡ cons
        (line 2000 (field "line_index" (num (nat 1)) end))
        (cons (line 1000 (field "line_index" (num (nat 2)) end)) nil)
unfolding prune_offers assign_indices unfilled text_eq amounts_key to_text to_number get with_index
    strict_eq put trimmed trim index_of has_index next_free
lines_left = refl

assign_indices-prune_offers_example :
    IsNumbered [] (prune_offers (key ∷ []) (assign_indices 0 [] lines))
    × (assign_indices 0 [] (prune_offers (key ∷ []) (assign_indices 0 [] lines))
        ≡ prune_offers (key ∷ []) (assign_indices 0 [] lines))
assign_indices-prune_offers_example = assign_indices-prune_offers (key ∷ []) lines

abbrev call : Value
call = obj (
    field "name" (text "maker") (
      field "tool" (text "intercomswap_offer_post") (
        field "interval_sec" (num (nat 10)) (
          field "ttl_sec" (num (nat 60))
            (field "args" (obj (field "offers" (arr lines) end)) end)))))

abbrev job : Job
job = record {
  name = codes "maker";
  is_offer = true;
  interval_sec = 10;
  ttl_sec = 60;
  valid_until_unix = 1060;
  args = field "offers" (arr lines) end;
  trade_id = [];
  peer_signer_hex = [];
  started_at = 1000500;
  runs = 0;
  last_error = [];
}

made : new_job 1000 1000500 [] call [] ≡ ok job
unfolding new_job trimmed trim to_text get text_eq clamp_int checked_expiry
made = refl

abbrev signed : Value
signed = obj (field "envelope" (obj (field "signer" (text " AB ") end)) end)

abbrev claimed : ℕ → Value
claimed sats = obj (
    field "state" (text "claimed") (
      field "maker_peer" (text "ab") (
        field "btc_sats" (num (nat sats))
          (field "usdt_amount" (text "1000000") (field "updated_at" (num (nat 1000600)) end)))))

abbrev at : ℕ → Items → Reply → Answers
at n trs r = record { now_sec = n; trades = some (answer (arr trs)); trade = none; tool = λ _. r }

abbrev runs : List Answers
runs =
    at 1000 nil (answer signed)
    ∷ at 1010 (cons (claimed 2000) nil) (failure (codes "no peers"))
    ∷ at 1059 nil (answer signed)
    ∷ at 1060 nil (answer signed)
    ∷ []

-- The last run comes at the end of the job, and does not call.
three_calls : length (calls runs job) ≡ 3
unfolding calls run_once trimmed trim to_text get text_eq numbered lookup put items_of
    assign_indices pruned prune_offers filled_keys is_filled normalize_hex to_lower_case to_number
    posting amounts_key has_index index_of next_free run_args
    should_stop_for_insufficient_funds_error unfilled with_index has_part is_digit starts_with
    strict_eq without decimal
three_calls = refl

calls-new_job_example : IsHorizon 1000 1060 × Calls 1060 (calls runs job)
calls-new_job_example = calls-new_job 1000 1000500 [] call [] job made runs

all_claimed : Answers
all_claimed =
    at 1010 (cons (claimed 2000) (cons (claimed 1000) (cons (claimed 1000) nil))) (answer signed)

-- Once each line was filled the job stops, and leaves the list.
gone :
    on_timer all_claimed
      (record job { peer_signer_hex = codes "ab" })
      (record job { peer_signer_hex = codes "ab" } ∷ [])
    ≡ []
unfolding on_timer run_once all_claimed trimmed trim to_text get text_eq remove_job kept_job
    numbered lookup put items_of assign_indices pruned prune_offers filled_keys is_filled
    normalize_hex to_lower_case to_number posting amounts_key has_index index_of next_free run_args
    should_stop_for_insufficient_funds_error unfilled with_index has_part is_digit starts_with
    strict_eq without decimal
gone = refl

no_funds :
    start 1000500 [] call (at 1000 nil (failure (codes "Insufficient USDT balance"))) [] ≡ ok []
unfolding start run_once new_job trimmed trim to_text get text_eq clamp_int checked_expiry numbered
    pruned should_stop_for_insufficient_funds_error has_part to_lower_case
no_funds = refl

stopped_by_name : stop (text " maker ") (job ∷ []) ≡ ok []
unfolding stop trimmed trim to_text remove_job text_eq
stopped_by_name = refl

-- A week after 1000 is 605800.
too_long :
    new_job 1000 1000500 []
      (obj (
        field "name" (text "maker") (
          field "tool" (text "intercomswap_rfq_post") (
            field "interval_sec"
              (num (nat 10))
              (field "ttl_sec" (num (nat 60)) (field "valid_until_unix" (num (nat 605801)) end))))))
      []
    ≡ err (thrown "autopost_start: validity horizon too long (max 7 days)")
unfolding new_job trimmed trim to_text get text_eq clamp_int checked_expiry
too_long = refl
