-- ===== src/Scenarios/Requests.antt =====
-- Requests for a reset by an administrator, at concrete values.
use vaultchain_fintech_dashb.Prelude.{
  ℕ, true, false, Option, none, some, List, [], ◌∷◌, ◌≡◌, refl, arith, ok, Bool-cases, inl, inr,
  count_where, ◌<◌, find, map, ◌⊎◌,
}
use vaultchain_fintech_dashb.Prelude.Text.{Text, codes, text_eq}
use vaultchain_fintech_dashb.Access.Store.{
  AccessDb, AccessEnv, RequestStatus, ResetRequest, approved, pending, denied,
}
use vaultchain_fintech_dashb.Access.Devices.{DeviceContext}
use vaultchain_fintech_dashb.Challenge.Token.{print_token, reset_prefix, parse_opaque}
use vaultchain_fintech_dashb.Access.Requests.Lifecycle.{
  IsFair, Call, deciding, filing, run, polling, requests_evolve, over_stays_after,
}
use vaultchain_fintech_dashb.Access.Requests.Machine.{Evolves, refused, done, lapsed, stage_of}
use vaultchain_fintech_dashb.Access.Requests.Poll.{
  PollResult, poll, load_presented, poll_row, claim_approval, claim_active, link,
}
use vaultchain_fintech_dashb.Access.Requests.File.{
  RequestOthers, file_request, file_for, insert_unless_open, insert_request, audit_create,
}
use vaultchain_fintech_dashb.Access.Requests.OneOpen.{HasOneOpen, run-HasOneOpen}
use vaultchain_fintech_dashb.Scenarios.Accounts.{auth_db, env, old_id, new_id, plain}
use vaultchain_fintech_dashb.Access.Requests.{
  is_pending_of, request_prefix, request_row, expire_overdue, load_by_token, expire_in,
}
use vaultchain_fintech_dashb.Access.Requests.Writes.{end}
use vaultchain_fintech_dashb.Access.Requests.FourEyes.{may_claim, claim_needs_other}
use vaultchain_fintech_dashb.Access.Reset.{create_challenge, stamp_factor}
use vaultchain_fintech_dashb.Access.Requests.Decide.{
  decide, load_for_admin, decide_row, decide_pending, settle, detail,
}
use vaultchain_fintech_dashb.Challenge.Reset.{mark_factor_verified}
use vaultchain_fintech_dashb.Challenge.Reset.{create}
use vaultchain_fintech_dashb.Access.Reset.Complete.{complete_request}

abbrev pub access_env : AccessEnv
access_env = record {
  auth = env;
  totp = λ secret code floor. some 60;
  decrypt = λ enc user. some enc;
  device_id = new_id;
  device_secret = codes "device";
  remember_ttl = 3600;
  reset_id = new_id;
  reset_secret = codes "reset";
  reset_ttl = 300;
  reset_max_attempts = 5;
  reset_purpose = 2;
  request_id = new_id;
  request_secret = codes "asked";
  request_ttl = 86400;
  request_cooldown = 600;
  decoy_id = old_id;
  decoy_secret = codes "decoy";
  pending_index = true;
  reset_admins = 9 ∷ [];
  alerts_work = true;
}

abbrev pub client : DeviceContext
client = record { ip = some (codes "10.1.2.3"); user_agent = some (codes "Firefox") }

abbrev asked : RequestStatus → Option ℕ → ResetRequest
asked status actor = record {
  id = old_id;
  user_id = 4;
  token_hash = codes "handle";
  status = status;
  ip_hash = none;
  ip_prefix = none;
  user_agent = none;
  expires_at = 90000;
  decided_by = actor;
  decided_at = none;
  challenge_id = none;
  completed_at = none;
  created_at = 1000;
}

abbrev pub access_db : List ResetRequest → AccessDb
access_db requests = record {
  auth = auth_db none;
  devices = [];
  backup_codes = [];
  reset_challenges = [];
  reset_requests = requests;
  audit = [];
  alerts = [];
}

-- No other request writes.
abbrev pub same : AccessDb → AccessDb
same db = db

abbrev one_request : RequestStatus → AccessDb
one_request status = access_db (asked status none ∷ [])

one_key : (r : ResetRequest) (id : Text) → count_where (request_row id) (r ∷ []) < 2
one_key r id = elim (Bool-cases (text_eq r.id id)) [
  | inl e ↦ rw e (omega arith)
  | inr e ↦ rw e (omega arith)
]

abbrev handle : Option Text
handle = some (print_token request_prefix old_id (codes "handle"))

-- Somebody else approves, and the owner claims.
abbrev approval : List Call
approval = deciding access_env same same 9 old_id true ∷ []

abbrev approval_and_claim : List Call
approval_and_claim =
    deciding access_env same same 9 old_id true ∷ polling access_env same handle client ∷ []

requests_evolve_example :
    Evolves
      (one_request pending).reset_requests
      (run approval_and_claim (one_request pending)).reset_requests
requests_evolve_example =
    requests_evolve true approval_and_claim (one_request pending) (one_key (asked pending none))
      ((λ d. end _, λ d. end _), (λ d. end _, tt))

-- A request that was denied stays so through a decision and a poll.
over_stays_after_example :
    (s : ResetRequest) × (find
        (request_row old_id)
        (run approval_and_claim (one_request denied)).reset_requests
      ≡ some s)
    × (4 ≡ s.user_id)
    × ((refused ≡ stage_of s) ⊎ ((refused ≡ done) × (stage_of s ≡ lapsed)))
over_stays_after_example =
    over_stays_after true approval_and_claim (one_request denied) old_id (asked denied none)
      (one_key (asked denied none)) ((λ d. end _, λ d. end _), (λ d. end _, tt)) refl refl

-- A poll that loads an approved request after its time, and marks it expired after the reset was
-- completed, turns a done request into an expired one.
abbrev late_env : AccessEnv
late_env = record access_env { auth = record env { now = 90001 } }

abbrev completing_meanwhile : AccessDb → AccessDb
completing_meanwhile db = record db {
  reset_requests = complete_request 90000 old_id db.reset_requests;
}

done_then_lapsed :
    (map stage_of (completing_meanwhile (one_request approved)).reset_requests ≡ done ∷ [])
    × (map stage_of
          (poll late_env completing_meanwhile handle client (one_request approved)).1.reset_requests
        ≡ lapsed ∷ [])
unfolding poll poll_row load_by_token complete_request expire_in parse_opaque
done_then_lapsed = (refl, refl)

abbrev claimed : PollResult
claimed = record {
  status = approved;
  challenge_token = some (print_token reset_prefix new_id (codes "reset"));
}

abbrev after_claim : AccessDb
after_claim = (poll access_env same handle client (run approval (one_request pending))).1

owner-claims :
    poll access_env same handle client (run approval (one_request pending))
    ≡ (ok claimed, after_claim)
unfolding poll poll_row claim_approval claim_active link create_challenge stamp_factor decide
    load_for_admin decide_row decide_pending settle detail load_by_token parse_opaque create
    mark_factor_verified
owner-claims = refl

claim_needs_other_example :
    (r : ResetRequest) × (load_presented plain handle
        (run approval (one_request pending)).reset_requests
      ≡ some r)
    × (may_claim access_env (run approval (one_request pending)) r ≡ true)
claim_needs_other_example =
    claim_needs_other true approval (one_request pending) access_env same handle client
      (one_key (asked pending none)) refl ((λ d. end _, λ d. end _), tt) owner-claims refl

-- Ada files a request where the database has no index, files another, which the open one absorbs, and
-- an administrator denies it.
abbrev unindexed : AccessEnv
unindexed = record access_env { pending_index = false }

abbrev quiet : RequestOthers
quiet = record { before_transaction = same; before_insert = same }

abbrev refiling : List Call
refiling =
    filing unindexed quiet (codes "ada@bank.test") none client
    ∷ filing unindexed quiet (codes "ada@bank.test") none client
    ∷ deciding access_env same same 9 new_id false
    ∷ []

quiet_filing : IsFair true (filing unindexed quiet (codes "ada@bank.test") none client)
quiet_filing = (λ one. inr (λ d user room. room), λ d. end _, λ d. end _)

run-HasOneOpen_example : HasOneOpen (run refiling (access_db [])).reset_requests
run-HasOneOpen_example =
    run-HasOneOpen refiling (access_db []) (λ id. omega arith)
      (quiet_filing, (quiet_filing, ((λ d. end _, λ d. end _), tt))) (λ user. omega arith)

-- Without the index, a request that is filed between the check and the insert of another leaves the
-- user with two.
abbrev racing : RequestOthers
racing = record {
  before_transaction = λ db. db;
  before_insert = λ db. record db { reset_requests = asked pending none ∷ db.reset_requests };
}

two_pending :
    count_where
      (is_pending_of 4)
      (file_request unindexed racing
        (codes "ada@bank.test")
        none
        client
        (access_db [])).1.reset_requests
    ≡ 2
unfolding file_request file_for expire_overdue insert_unless_open insert_request audit_create
two_pending = refl
