-- ===== src/Autopost/Jobs/Runs.antt =====
-- What the runs of a job post, from its start on.
use swapfloor.Common.{
  ℕ, ◌+◌, ◌-◌, ◌≤◌, ◌<◌, ◌≡◌, refl, ap, ◌∙◌, subst, Bool, true, false, Option, none, some, List, [],
  ◌∷◌, arith, ltb, leb, if◌then◌else◌, Result, Error, ok, err, thrown, ◌>>=◌, >>=-eq-ok, eq_of_ok,
}
use swapfloor.Js.Text.{Text, is_empty}
use swapfloor.Js.Value.{Value, nat, num, Items, Fields, lookup, get}
use swapfloor.Js.Reply.{Reply, answer, failure}
use swapfloor.Swap.Envelope.{without}
use swapfloor.Swap.Listings.{trimmed}
use swapfloor.Receipts.Patch.{lookup-put}
use swapfloor.Autopost.{
  run_args, checked_expiry, expiry, clamp_int, should_stop_for_insufficient_funds_error,
}
use swapfloor.Autopost.Jobs.{
  Job, Answers, Ended, Reason, stopped, posted, post_failed, out_of_funds, expired, filled,
  numbered, pruned, posting, run_once, new_job, learnt, after_call, all_filled, rfq_taken,
  pruned_by, listed, free_name, offer_tool, ttl_of,
}

run_args_valid :
    (is_offer : Bool) (t : ℕ) (args : Fields)
    → lookup "valid_until_unix" (run_args is_offer t args) ≡ num (nat t)
unfolding run_args
run_args_valid is_offer t args =
    lookup-put "valid_until_unix" "valid_until_unix" (num (nat t))
      (if is_offer then without "ttl_sec" args else args)

-- A call of the tool comes before the end of the job, and states this end.
abbrev pub IsCall : ℕ → ℕ × Fields → Type 0
IsCall t (now_sec, args) = (now_sec < t) × (lookup "valid_until_unix" args ≡ num (nat t))

abbrev IsEnded : ℕ → ℕ → Ended → Type 0
IsEnded t now_sec (stopped _) = Unit
IsEnded t now_sec (posted args) = IsCall t (now_sec, args)
IsEnded t now_sec (post_failed args) = IsCall t (now_sec, args)
IsEnded t now_sec (out_of_funds args) = IsCall t (now_sec, args)

IsRun : ℕ → ℕ → Ended × Job → Type 0
IsRun t now_sec (e, job) = (job.valid_until_unix ≡ t) × IsEnded t now_sec e

learnt_valid : (res : Value) (job : Job) → (learnt res job).valid_until_unix ≡ job.valid_until_unix
unfolding learnt
learnt_valid res job = ground arith

numbered_valid : (job : Job) → (numbered job).valid_until_unix ≡ job.valid_until_unix
unfolding numbered
numbered_valid job = ground arith

pruned_by_valid :
    (o : Option Items) (job : Job) → (pruned_by o job).valid_until_unix ≡ job.valid_until_unix
unfolding pruned_by
pruned_by_valid none job = refl
pruned_by_valid (some trs) job = ground arith

after_call-IsRun :
    (t now_sec : ℕ) (args : Fields) (r : Reply) (job : Job)
    → job.valid_until_unix ≡ t
    → IsCall t (now_sec, args)
    → IsRun t now_sec (after_call args r job)
unfolding IsRun after_call
after_call-IsRun t now_sec args (answer res) job v c = (learnt_valid res _ ∙ v, c)
after_call-IsRun t now_sec args (failure msg) job v c = (
  v,
  elim (should_stop_for_insufficient_funds_error msg)
      as (λ b. IsEnded t now_sec (if b then out_of_funds args else post_failed args)) [
        | true ↦ c
        | false ↦ c
      ],
)

posting-IsRun :
    (t : ℕ) (a : Answers) (job : Job)
    → job.valid_until_unix ≡ t
    → a.now_sec < t
    → IsRun t a.now_sec (posting a job)
unfolding posting
posting-IsRun t a job v before =
    let args = run_args job.is_offer job.valid_until_unix job.args in
    after_call-IsRun t a.now_sec args (a.tool args) job v
      (before, run_args_valid job.is_offer job.valid_until_unix job.args ∙ ap (λ n. num (nat n)) v)

if-IsRun :
    (t now_sec : ℕ) (b : Bool) (x y : Ended × Job)
    → IsRun t now_sec x
    → (b ≡ false → IsRun t now_sec y)
    → IsRun t now_sec (if b then x else y)
if-IsRun t now_sec true x y p q = p
if-IsRun t now_sec false x y p q = q refl

stopped-IsRun :
    (t now_sec : ℕ) (r : Reason) (job : Job)
    → job.valid_until_unix ≡ t
    → IsRun t now_sec (stopped r, job)
unfolding IsRun
stopped-IsRun t now_sec r job v = (v, tt)

run_once-IsRun :
    (t : ℕ) (a : Answers) (job : Job)
    → job.valid_until_unix ≡ t
    → IsRun t a.now_sec (run_once a job)
unfolding run_once pruned
run_once-IsRun t a job v =
    let n = a.now_sec in
    let lines = numbered job in
    let left = pruned a lines in
    let v' : left.valid_until_unix ≡ t =
      pruned_by_valid (listed a.trades) lines ∙ numbered_valid job ∙ v in
    let stops : IsRun t n (stopped filled, left) = stopped-IsRun t n filled left v' in
    let posts = posting a left in
    let last = if rfq_taken a left then (stopped filled, left) else posts in
    let looked = if all_filled a lines left then (stopped filled, left) else last in
    if-IsRun t n (leb job.valid_until_unix n) (stopped expired, job) looked
      (stopped-IsRun t n expired job v)
      (λ early.
        let before : n < t = ground (arith, early, v) in
        if-IsRun t n (all_filled a lines left) (stopped filled, left) last stops
          (λ _.
            if-IsRun t n (rfq_taken a left) (stopped filled, left) posts stops
              (λ _. posting-IsRun t a left v' before)))

-- What a run adds to the calls that come after it: none come after a stop.
call_of : ℕ → Ended → List (ℕ × Fields) → List (ℕ × Fields)
call_of n (stopped _) later = []
call_of n (out_of_funds args) later = (n, args) ∷ []
call_of n (posted args) later = (n, args) ∷ later
call_of n (post_failed args) later = (n, args) ∷ later

-- The calls of the tool in the runs of a job, with their times, until a run stops it.
unfoldable pub calls : List Answers → Job → List (ℕ × Fields)
unfolding call_of
calls [] job = []
calls (a ∷ rest) job =
    let (ended, after) = run_once a job in call_of a.now_sec ended (calls rest after)

abbrev pub Calls : ℕ → List (ℕ × Fields) → Type 0
Calls t [] = Unit
Calls t (c ∷ cs) = IsCall t c × Calls t cs

call_of-Calls :
    (t n : ℕ) (e : Ended) (later : List (ℕ × Fields))
    → IsEnded t n e
    → Calls t later
    → Calls t (call_of n e later)
unfolding call_of
call_of-Calls t n (stopped _) later c h = tt
call_of-Calls t n (out_of_funds args) later c h = (c, tt)
call_of-Calls t n (posted args) later c h = (c, h)
call_of-Calls t n (post_failed args) later c h = (c, h)

calls-Calls :
    (t : ℕ) (runs : List Answers) (job : Job) → job.valid_until_unix ≡ t → Calls t (calls runs job)
unfolding calls IsRun
calls-Calls t [] job v = tt
calls-Calls t (a ∷ rest) job v =
    let (v', c) = run_once-IsRun t a job v in
    let (ended, after) = run_once a job in
    call_of-Calls t a.now_sec ended (calls rest after) c (calls-Calls t rest after v')

-- The horizon of a job.
abbrev pub IsHorizon : ℕ → ℕ → Type 0
IsHorizon now_sec t = (now_sec + 10 ≤ t) × (t ≤ now_sec + 604800)

checked_expiry-IsHorizon :
    (now_sec ttl t : ℕ) (v : Value) → checked_expiry now_sec ttl v ≡ ok t → IsHorizon now_sec t
unfolding checked_expiry
checked_expiry-IsHorizon now_sec ttl t v h =
    let (u, _, rest) =
      >>=-eq-ok (expiry now_sec ttl v)
        (λ t.
          if leb t now_sec
          then err (thrown "autopost_start: valid_until_unix must be in the future")
          else if ltb (t - now_sec) 10
          then err (thrown "autopost_start: validity horizon too short")
          else if ltb 604800 (t - now_sec)
          then err (thrown "autopost_start: validity horizon too long (max 7 days)")
          else ok t)
        h in
    ground (arith, rest)

abbrev Horizon : ℕ → Result Job → Type 0
Horizon now_sec r = (job : Job) → r ≡ ok job → IsHorizon now_sec job.valid_until_unix

Horizon-bind {ℓ} :
    {A : Type ℓ} (now_sec : ℕ) (m : Result A) (k : A → Result Job)
    → ((x : A) → m ≡ ok x → Horizon now_sec (k x))
    → Horizon now_sec (m >>= k)
Horizon-bind now_sec m k p job h = let (x, e, r) = >>=-eq-ok m k h in p x e job r

Horizon-else :
    (now_sec : ℕ) (b : Bool) (e : Error) (k : Result Job)
    → Horizon now_sec k
    → Horizon now_sec (if b then err e else k)
Horizon-else now_sec true e k p job h = cc
Horizon-else now_sec false e k p job h = p job h

new_job-Horizon :
    (now_sec now_ms : ℕ) (names : List Text) (call : Value) (jobs : List Job)
    → Horizon now_sec (new_job now_sec now_ms names call jobs)
unfolding new_job
new_job-Horizon now_sec now_ms names call jobs =
    Horizon-else now_sec (is_empty (trimmed (get call "name"))) _ _ (
      Horizon-bind now_sec (free_name (trimmed (get call "name")) names jobs) _ (λ name _.
        Horizon-bind now_sec (offer_tool (trimmed (get call "tool"))) _ (λ is_offer _.
          Horizon-bind now_sec (clamp_int 1 (some 86400) (get call "interval_sec")) _ (λ interval _.
            Horizon-bind now_sec (ttl_of (get call "ttl_sec")) _ (λ ttl _.
              Horizon-bind now_sec (checked_expiry now_sec ttl (get call "valid_until_unix")) _
                (λ t e job r.
                  subst (IsHorizon now_sec) (ap (λ j. j.valid_until_unix) (eq_of_ok r))
                    (checked_expiry-IsHorizon now_sec ttl t (get call "valid_until_unix") e)))))))

-- From the start of a job on, over any answers to its runs, each call of the tool comes before the
-- end of the job and states this end, whatever its arguments were; and the end is ten seconds to a
-- week after the start.
pub calls-new_job :
    (now_sec now_ms : ℕ) (names : List Text) (call : Value) (jobs : List Job) (job : Job)
    → new_job now_sec now_ms names call jobs ≡ ok job
    → (runs : List Answers)
    → IsHorizon now_sec job.valid_until_unix × Calls job.valid_until_unix (calls runs job)
calls-new_job now_sec now_ms names call jobs job h runs = (
  new_job-Horizon now_sec now_ms names call jobs job h,
  calls-Calls job.valid_until_unix runs job refl,
)
