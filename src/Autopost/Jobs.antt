-- ===== src/Autopost/Jobs.antt =====
-- src/prompt/autopost.js: `AutopostManager`, its jobs and one run of a job.
pub mod Runs
use swapfloor.Common.{
  ℕ, suc, ◌+◌, Bool, true, false, not, ◌&&◌, ◌||◌, Option, none, some, List, [], ◌∷◌, leb, ltb,
  if◌then◌else◌, Result, ok, err, thrown, ◌>>=◌,
}
use swapfloor.Js.Text.{Text, codes, text_eq, trim, to_lower_case, is_empty}
use swapfloor.Js.Value.{
  Value, undefined, str, arr, obj, Items, nil, cons, Fields, end, get, lookup, truthy, is_object,
  is_present,
}
use swapfloor.Js.Reply.{Reply, answer, failure}
use swapfloor.Swap.Envelope.{put}
use swapfloor.Swap.Listings.{trimmed}
use swapfloor.Autopost.{
  assign_indices, items_of, filled_keys, prune_offers, clamp_int, checked_expiry, run_args,
  should_stop_for_insufficient_funds_error,
}

-- Without the fields that only the status shows; an error that is `null` is the empty text.
pub record Job : Type 0 where
  pub name : Text
  pub is_offer : Bool
  pub interval_sec : ℕ
  pub ttl_sec : ℕ
  pub valid_until_unix : ℕ
  pub args : Fields
  pub trade_id : Text
  pub peer_signer_hex : Text
  pub started_at : ℕ
  pub runs : ℕ
  pub last_error : Text

-- What a run of a job asks: the times, the receipts where the manager can read them, and the tool.
pub record Answers : Type 0 where
  pub now_sec : ℕ
  pub trades : Option Reply
  pub trade : Option Reply
  pub tool : Fields → Reply

pub data Reason : Type 0 where
  expired filled : Reason

-- What a run ends with: all but a stop before the call have called the tool with some arguments.
-- Without the funds for the post, the job stops too.
pub data Ended : Type 0 where
  stopped : Reason → Ended
  posted post_failed out_of_funds : Fields → Ended

-- Whether the arguments hold a list of offers.
offers_in : Fields → Bool
offers_in args = is_list (lookup "offers" args)
  where
    is_list : Value → Bool
    is_list (arr _) = true
    is_list _ = false

with_offers : Items → Fields → Fields
with_offers os args = put "offers" (arr os) args

-- The lines of an offer with their indices.
unfoldable pub numbered : Job → Job
unfolding offers_in with_offers
numbered job =
    if job.is_offer && offers_in job.args
    then record job {
      args = with_offers (assign_indices 0 [] (items_of (lookup "offers" job.args))) job.args;
    }
    else job

is_nil : Items → Bool
is_nil nil = true
is_nil (cons _ _) = false

-- The trades that the store lists; a store that fails is passed over.
listed : Option Reply → Option Items
listed (some (answer (arr trs))) = some trs
listed (some (answer _)) = some nil
listed _ = none

pruned_by : Option Items → Job → Job
unfolding with_offers offers_in
pruned_by none job = job
pruned_by (some trs) job =
    if job.is_offer && not (is_empty job.peer_signer_hex) && offers_in job.args
    then record job {
      args =
          with_offers
            (prune_offers (filled_keys job.started_at job.peer_signer_hex trs)
              (items_of (lookup "offers" job.args)))
            job.args;
    }
    else job

-- The lines that were filled are taken away.
unfoldable pub pruned : Answers → Job → Job
unfolding pruned_by listed
pruned a job = pruned_by (listed a.trades) job

-- Whether the offers were looked through and none is left.
all_filled : Answers → Job → Job → Bool
unfolding listed offers_in is_nil
all_filled a before after =
    before.is_offer
    && not (is_empty before.peer_signer_hex)
    && has (listed a.trades)
    && offers_in before.args
    && not (is_nil (items_of (lookup "offers" before.args)))
    && is_nil (items_of (lookup "offers" after.args))
  where
    has : Option Items → Bool
    has none = false
    has (some _) = true

state_of : Option Reply → Text
state_of (some (answer v)) = if truthy v then trimmed (get v "state") else []
state_of _ = []

-- The trade of an RFQ is under way or over.
rfq_taken : Answers → Job → Bool
unfolding state_of
rfq_taken a job =
    not job.is_offer
    && not (is_empty job.trade_id)
    && not (is_empty (state_of a.trade))
    && not (text_eq (state_of a.trade) (codes "rfq"))
    && not (text_eq (state_of a.trade) (codes "rfq_posted"))

signer_of : Value → Text
signer_of (str s) = to_lower_case (trim s)
signer_of _ = []

-- The maker's key is learnt from the first offer that is posted.
learnt : Value → Job → Job
unfolding signer_of
learnt res job =
    if job.is_offer && is_empty job.peer_signer_hex
    then record job { peer_signer_hex = signer_of (get (get res "envelope") "signer") }
    else job

-- After the tool was called with some arguments.
after_call : Fields → Reply → Job → Ended × Job
unfolding learnt
after_call args (answer res) job =
    (posted args, learnt res (record job { runs = suc job.runs; last_error = [] }))
after_call args (failure msg) job = (
  (if should_stop_for_insufficient_funds_error msg then out_of_funds args else post_failed args),
  record job { runs = suc job.runs; last_error = msg },
)

unfoldable pub posting : Answers → Job → Ended × Job
unfolding after_call
posting a job =
    let args = run_args job.is_offer job.valid_until_unix job.args in
    after_call args (a.tool args) job

-- One run: a job that has expired, that is filled, or whose trade is taken, stops before it posts.
unfoldable pub run_once : Answers → Job → Ended × Job
unfolding posting all_filled rfq_taken
run_once a job =
    let lines = numbered job in
    let left = pruned a lines in
    if leb job.valid_until_unix a.now_sec
    then (stopped expired, job)
    else if all_filled a lines left
    then (stopped filled, left)
    else if rfq_taken a left
    then (stopped filled, left)
    else posting a left

-- `jobs`, by name.
unfoldable pub remove_job : Text → List Job → List Job
remove_job n [] = []
remove_job n (j ∷ js) = let rest = remove_job n js in if text_eq j.name n then rest else j ∷ rest

has_job : Text → List Job → Bool
has_job n [] = false
has_job n (j ∷ js) = text_eq j.name n || has_job n js

-- The name, or the first of the random names (20 are tried) that is not taken.
free_name : Text → List Text → List Job → Result Text
unfolding has_job
free_name n others jobs = if has_job n jobs then first_free others else ok n
  where
    first_free : List Text → Result Text
    first_free [] = err (thrown "autopost_start: name already exists")
    first_free (o ∷ os) = let later = first_free os in if has_job o jobs then later else ok o

offer_tool : Text → Result Bool
offer_tool t =
    if text_eq t (codes "intercomswap_offer_post")
    then ok true
    else if text_eq t (codes "intercomswap_rfq_post")
    then ok false
    else err (thrown "autopost_start: tool not allowed")

ttl_of : Value → Result ℕ
ttl_of v =
    if is_present v
    then clamp_int 10 (some 604800) v
    else err (thrown "autopost_start: ttl_sec is required")

fields_of : Value → Fields
fields_of (obj fs) = fs
fields_of _ = end

text_of : Value → Text
text_of (str s) = trim s
text_of _ = []

-- The job that is started; its arguments are a copy.
unfoldable pub new_job : ℕ → ℕ → List Text → Value → List Job → Result Job
unfolding free_name offer_tool ttl_of fields_of text_of
new_job now_sec now_ms names call jobs =
    if is_empty (trimmed (get call "name"))
    then err (thrown "autopost_start: name is required")
    else do
      name ← free_name (trimmed (get call "name")) names jobs
      is_offer ← offer_tool (trimmed (get call "tool"))
      interval ← clamp_int 1 (some 86400) (get call "interval_sec")
      ttl ← ttl_of (get call "ttl_sec")
      valid_until ← checked_expiry now_sec ttl (get call "valid_until_unix")
      let args = fields_of (get call "args") in
          ok (record {
            name = name;
            is_offer = is_offer;
            interval_sec = interval;
            ttl_sec = ttl;
            valid_until_unix = valid_until;
            args = args;
            trade_id = if is_offer then [] else text_of (lookup "trade_id" args);
            peer_signer_hex = [];
            started_at = now_ms;
            runs = 0;
            last_error = [];
          })

unfoldable pub kept_job : List Job → Ended × Job → List Job
kept_job jobs (stopped _, job) = jobs
kept_job jobs (out_of_funds _, job) = jobs
kept_job jobs (_, job) = job ∷ jobs

-- A job that its first run does not stop is kept.
unfoldable pub start : ℕ → List Text → Value → Answers → List Job → Result (List Job)
unfolding kept_job
start now_ms names call a jobs = do
  job ← new_job a.now_sec now_ms names call jobs
  ok (kept_job jobs (run_once a job))

unfoldable pub stop : Value → List Job → Result (List Job)
stop name jobs =
    if is_empty (trimmed name)
    then err (thrown "autopost_stop: name is required")
    else ok (remove_job (trimmed name) jobs)

-- The run of a timer: the job is found by its name, and stays unless it stops.
unfoldable pub on_timer : Answers → Job → List Job → List Job
unfolding kept_job
on_timer a job jobs = kept_job (remove_job job.name jobs) (run_once a job)
