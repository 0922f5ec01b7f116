-- ===== src/Tests/Jobs.antt =====
-- Claims of one job by two clients (src/evm_inventory/quote_jobs.py).
use evm_garbage_collector.Prelude.{
  ◌+◌, String, ◌*◌, ◌≡◌, refl, true, false, none, some, List, [], ◌∷◌, arith,
}
use evm_garbage_collector.Journal.Value.{
  Value, text, list, nil, cons, null, dict, field, end, get, as_text,
}
use evm_garbage_collector.Jobs.{
  JobState, Job, Table, Client, Claim, put, lease, second, cas, swap_row, is_held, finish, read,
}
use evm_garbage_collector.Jobs.Claims.{
  Claimed, Refusal, claim, claimed_row, first_refusal, refusal, refusal_by, remembered,
  is_bad_request,
}
use evm_garbage_collector.Jobs.Runs.{Operation, run_all}
use evm_garbage_collector.Jobs.Runs.Once.{finish_once, claim_supersedes}
use evm_garbage_collector.Jobs.Runs.Refused.{bad_request_final}
use evm_garbage_collector.Jobs.Freshness.{finish_claims}
use evm_garbage_collector.Jobs.Leases.{claim_excluded, read-finish}

abbrev client : String → Client
client name = record {
  scope = "live";
  lease_owner = name;
  attempted = [];
  failures = [];
  wait_recheck = λ d. none;
}

abbrev no_rows : Table
no_rows s k = none

abbrev token : Claim
token = record { job_key = "k"; attempt_id = "a1"; lease_owner = "first" }

abbrev claimed : Table
claimed = put "live" "k" (claimed_row (client "first") 100 "a1" "{}" "") no_rows

abbrev response : Value
response = dict (field "routes" (list (cons null nil)) end)

-- the other client claims the job after the lease, and fails to renew a foreign claim
abbrev operations : List Operation
operations =
    Operation.claims (client "second") (100 + 2 * lease) "a2" "k" "{}" ""
    ∷ Operation.renews (client "second") token 200 201
    ∷ Operation.reads "live" 300 "k" true
    ∷ []

token_finishes :
    (finish token response 150 (240 * second) 160 161 (client "first") claimed).0 ≡ true
unfolding finish cas swap_row is_held put claimed_row
token_finishes = refl

finish_once_example :
    let later =
      run_all operations
        (finish token response 150 (240 * second) 160 161 (client "first") claimed).1 in
    finish token null 150 7 170 171 (client "first") later ≡ (false, later)
finish_once_example =
    finish_once token response null 150 (240 * second) 160 161 150 7 170 171 (client "first")
      (client "first") claimed operations token_finishes refl refl

second_claims :
    (claim (client "second") (100 + lease) "a2" "k" "{}" "" claimed).0
    ≡ Claimed.granted (record { job_key = "k"; attempt_id = "a2"; lease_owner = "second" })
unfolding claim first_refusal refusal refusal_by remembered put claimed_row
second_claims = refl

claim_supersedes_example :
    let after =
      run_all operations (claim (client "second") (100 + lease) "a2" "k" "{}" "" claimed).2 in
    finish token response 150 7 170 171 (client "first") after ≡ (false, after)
claim_supersedes_example =
    claim_supersedes token (record { job_key = "k"; attempt_id = "a2"; lease_owner = "second" })
      (client "second") (client "first") (100 + lease) "a2" "{}" "" response 150 7 170 171 claimed
      operations second_claims refl refl refl

abbrev inflight_row : Job
inflight_row = record {
  search_key = "";
  state = JobState.inflight;
  observed_at = none;
  expires_at = none;
  retry_at = none;
  request_json = some "{}";
  result_json = none;
  diagnostic_json = none;
  updated_at = 100;
  lease_owner = some "first";
  attempt_id = some "a1";
  lease_until = some (100 + lease);
}

abbrev with_row : Job → Table
with_row row s k = some row

claim_excluded_example :
    (r : Refusal) × (claim (client "second") 200 "a2" "k" "{}" "" (with_row inflight_row)
      ≡ (Claimed.refused r, client "second", with_row inflight_row))
claim_excluded_example =
    claim_excluded (client "second") 200 (100 + lease) "a2" "k" "{}" "" (with_row inflight_row)
      inflight_row refl refl refl (omega arith)

nothing_remembered : remembered (client "second") "k" ≡ none
unfolding remembered
nothing_remembered = refl

read-finish_example :
    let published = (finish token response 150 (240 * second) 160 161 (client "first") claimed).1 in
    (row : Job) × (read "live" 400 "k" false published ≡ (some row, published))
    × (row.result_json ≡ some response)
    × (row.observed_at ≡ some 150)
read-finish_example =
    read-finish token response 150 (240 * second) 160 161 400 false (client "first") claimed
      token_finishes (omega arith)

finish_claims_example :
    let published = (finish token response 150 (240 * second) 160 161 (client "first") claimed).1 in
    ((r : Refusal) × (claim (client "second") 400 "a2" "k" "{}" "" published
        ≡ (Claimed.refused r, client "second", published)))
    × ((claim (client "second") (150 + 240 * second) "a2" "k" "{}" "" published).0
        ≡ Claimed.granted (record { job_key = "k"; attempt_id = "a2"; lease_owner = "second" }))
finish_claims_example =
    finish_claims token response 150 (240 * second) 160 161 400 (150 + 240 * second)
      (client "first") (client "second") claimed "a2" "{}" "" token_finishes refl (omega arith)
      (omega arith) nothing_remembered

abbrev bad_request : Value
bad_request = dict (field "reason" (text "bad_request") end)

abbrev failed_row : Job
failed_row = record inflight_row { state = JobState.error; diagnostic_json = some bad_request }

failed_row_bad : is_bad_request bad_request ≡ true
unfolding is_bad_request get as_text
failed_row_bad = refl

bad_request_final_example :
    (run_all operations (with_row failed_row) "live" "k" ≡ some failed_row)
    × ((r : Refusal) × (claim
            (client "first")
            900
            "a3"
            "k"
            "{}"
            ""
            (run_all operations (with_row failed_row))
          ≡ (Claimed.refused r, client "first", run_all operations (with_row failed_row))))
bad_request_final_example =
    bad_request_final "live" "k" failed_row operations (with_row failed_row) (client "first") 900
      "a3" "{}" "" (refl, failed_row_bad) refl refl
