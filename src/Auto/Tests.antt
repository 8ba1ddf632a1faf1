-- ===== src/Auto/Tests.antt =====
-- Offers and an RFQ at work, and the theorems at concrete data.
use swapfloor.Common.{ℕ, ◌≤◌, ◌≡◌, refl, true, false, some, none, List, [], ◌∷◌, zero, suc}
use swapfloor.Js.Text.{decimal, Text, codes, text_eq, trim, to_lower_case, is_digit, is_hex_digit}
use swapfloor.Js.Value.{
  Value, Fields, end, field, str, num, nat, obj, arr, cons, nil, get, lookup, to_text,
}
use swapfloor.Js.Convert.{normalize_hex}
use swapfloor.Swap.Envelope.{Crypto, strip_signature, without, hash_unsigned_envelope}
use swapfloor.Swap.Listings.{trimmed}
use swapfloor.Auto.Events.{
  is_event_stale, event_ts, to_int_or_null, event_dedup_key, envelope_sig, envelope_kind,
  envelope_trade_id,
}
use swapfloor.Auto.Stages.{
  none_at, set, delete, no_stages, can_run_stage, mark_stage_in_flight, mark_stage_done,
  mark_stage_retry, record_stage_retry, stage_retry_or_abort, pay_failures_of, elapsed,
  record_ln_pay_failure,
}
use swapfloor.Auto.Attempts.{Act, start, fail, act, starts, attempts}
use swapfloor.Auto.Offers.{
  Match, wanted_of, bounded, clamped, has_amounts, suits, window_of, window, max, min, line_index,
  match_lines, items_of, channels, admits, is_past, offer_id, is_open, found_line, match_offers,
  match_offer_for_rfq,
}
use swapfloor.Auto.Matching.{IsMatch}
use swapfloor.Auto.Answers.{match_offer_for_rfq-IsMatch, rfq, channel}

repeated : ℕ → ℕ → Text
repeated zero c = []
repeated (suc n) c = c ∷ repeated n c

-- One digest for every message.
abbrev digests : Crypto
digests = record {
  decode_hex = λ t. some t;
  encode_hex = λ t. t;
  sign = λ m k. codes "51";
  verify = λ sig m key. true;
  sha256 = λ t. codes "aaaaaaaaaaaaaaaaaaaaaaaaaaaaaaaaaaaaaaaaaaaaaaaaaaaaaaaaaaaaaaaa";
}

abbrev text : Text → Value
text s = str s

abbrev amounts : ℕ → Text → Fields → Value
amounts sats usdt more =
    obj (field "btc_sats" (num (nat sats)) (field "usdt_amount" (str usdt) more))

abbrev offer : Value
offer = obj (
    field "message"
      (obj (
        field "body"
          (obj (
            field "valid_until_unix" (num (nat 500)) (
              field "offers"
                (arr (
                  cons (amounts 1000 (codes "67000000") end) (
                    cons
                      (amounts 2000 (codes "134000000")
                        (field "max_sol_refund_window_sec" (num (nat 90000)) end))
                      nil)))
                end)))
          end))
      end)

abbrev asked : ℕ → Value
asked sats =
    obj (field "message" (obj (field "body" (amounts sats (codes "134000000") end) end)) end)

abbrev answer : Match
answer = record {
  sol_refund_window_sec = 90000;
  offer_id = codes "aaaaaaaaaaaaaaaaaaaaaaaaaaaaaaaaaaaaaaaaaaaaaaaaaaaaaaaaaaaaaaaa";
  offer_line_index = 1;
  offer_envelope = get offer "message";
}

-- Opens the matching in the declarations that name it.
unfoldable matching : Unit {0}
unfolding match_offer_for_rfq match_offers found_line is_open offer_id is_past admits channels
    items_of match_lines line_index window_of window max min suits has_amounts bounded clamped
    wanted_of to_int_or_null trimmed hash_unsigned_envelope strip_signature without get lookup
    to_text trim to_lower_case is_digit is_hex_digit text_eq
matching = tt

-- The second line is meant, and its window is narrower than three days.
finds : match_offer_for_rfq digests 400 (asked 2000) (offer ∷ []) ≡ some answer
unfolding matching
finds = refl

-- The offer has ended.
too_late : match_offer_for_rfq digests 500 (asked 2000) (offer ∷ []) ≡ none
unfolding matching
too_late = refl

match_offer_for_rfq-IsMatch_example :
    (has_amounts (rfq digests 400 (asked 2000) (offer ∷ [])) ≡ true)
    × IsMatch digests 400
        (channel digests 400 (asked 2000) (offer ∷ []))
        (rfq digests 400 (asked 2000) (offer ∷ []))
        (offer ∷ [])
        answer
    × (3600 ≤ 90000)
    × (90000 ≤ 604800)
match_offer_for_rfq-IsMatch_example =
    match_offer_for_rfq-IsMatch digests 400 (asked 2000) (offer ∷ []) answer finds

-- Opens stages and events in the declarations that name it.
unfoldable stages_open : Unit {0}
unfolding attempts starts act no_stages none_at set delete can_run_stage mark_stage_in_flight
    mark_stage_done mark_stage_retry record_stage_retry stage_retry_or_abort record_ln_pay_failure
    pay_failures_of elapsed event_dedup_key envelope_sig envelope_kind envelope_trade_id
    is_event_stale event_ts text_eq trimmed trim to_text to_lower_case get lookup is_hex_digit
    is_digit decimal normalize_hex
stages_open = tt

abbrev stage : Text
stage = codes "t1:invoice"

-- Three failures, one start that comes too early, and one after the stage is given up.
abbrev acts : List Act
acts =
    start 1000 stage
    ∷ fail 1010 300 stage
    ∷ start 1100 stage
    ∷ start 1400 stage
    ∷ fail 1410 300 stage
    ∷ start 2000 stage
    ∷ fail 2010 300 stage
    ∷ start 9000 stage
    ∷ []

tried : attempts 2 stage acts no_stages ≡ 3
unfolding stages_open
tried = refl

-- A second failure after five seconds gives the trade up.
gives_up :
    (record_ln_pay_failure 2 5000 16000 false (codes "c") (
      some (record {
        channel = codes "c";
        failures = 1;
        first_fail_at = 11000;
        last_fail_at = 11000;
        aborted_at = 0;
      }))).0
    ≡ true
unfolding stages_open
gives_up = refl

key_of_event :
    event_dedup_key (obj (field "channel" (str (codes "c")) (field "seq" (num (nat 7)) end)))
    ≡ codes "seq:7"
unfolding stages_open
key_of_event = refl

stale : is_event_stale 9000 1000 (obj (field "ts" (num (nat 7999)) end)) ≡ true
unfolding stages_open
stale = refl
