-- ===== src/Challenge/MfaSafety.antt =====
-- What a challenge of Api/src/modules/mfa/mfa-challenge.service.ts promises under every sequence of
-- calls that follow.
use vaultchain_fintech_dashb.Prelude.{
  ℕ, suc, ◌+◌, Bool, true, false, not, ◌&&◌, ◌||◌, none, some, List, [], ◌∷◌, ◌≡◌, refl, arith,
  &&_left, Bool-cases, all_at, any, count_where, is_some, update_where, Option-cases,
  any-update_where, inl, ◌<◌, all-update_where, find, inr, updated_one, find_fits, find-all,
  count_where-any, ◌∙◌, count_where-all, if◌then◌else◌, ◌==◌, leb, ◌≤◌, all-weaken,
  all-update_where_to,
}
use vaultchain_fintech_dashb.Prelude.Text.{Text, text_eq, text_eq_iff}
use vaultchain_fintech_dashb.Challenge.Mfa.{
  MfaChallenge, CreateChallengeInput, Crypto, row_id, is_live, is_shut, load_parsed, consume,
  register_failed_attempt, create,
}

-- A call of the service that writes.
pub data Call : Type 0 where
  creating : ℕ → Text → Text → CreateChallengeInput → Call
  consuming : ℕ → Text → ℕ → Call
  failing : ℕ → Text → ℕ → Call

abbrev pub apply_call : Crypto → Call → List MfaChallenge → List MfaChallenge
apply_call crypto (creating now id secret input) rows = (create crypto now id secret input rows).1
apply_call crypto (consuming now id max_attempts) rows = (consume now id max_attempts rows).1
apply_call crypto (failing now id max_attempts) rows =
    register_failed_attempt now id max_attempts rows

abbrev pub run : Crypto → List Call → List MfaChallenge → List MfaChallenge
run crypto [] rows = rows
run crypto (call ∷ calls) rows = run crypto calls (apply_call crypto call rows)

-- A stored challenge whose rows all have `q`, where no call takes `q` from a row.
abbrev Has : Text → (MfaChallenge → Bool) → List MfaChallenge → Type 0
Has id q rows = (any (row_id id) rows ≡ true) × (all_at (row_id id) q rows ≡ true)

create-Has :
    (crypto : Crypto) (now : ℕ) (new secret : Text) (input : CreateChallengeInput) (id : Text)
    (q : MfaChallenge → Bool) (rows : List MfaChallenge)
    → Has id q rows
    → Has id q (create crypto now new secret input rows).1
unfolding create
create-Has crypto now new secret input id q rows (there, have) =
    elim (Bool-cases (any (row_id new) rows)) [
      | inl taken ↦ rw taken (there, have)
      | inr free ↦ elim (Bool-cases (text_eq new id)) [
        | inl e ↦ cc (rw (text_eq_iff new id e) at free, there)
        | inr e ↦ rw (free, e) (there, have)
      ]
    ]

-- An update that keeps the ids keeps what every row keeps.
update-Has :
    (id : Text) (q p : MfaChallenge → Bool) (f : MfaChallenge → MfaChallenge)
    (rows : List MfaChallenge)
    → ((r : MfaChallenge) → row_id id (f r) ≡ row_id id r)
    → ((r : MfaChallenge) → q r ≡ true → p r ≡ true → q (f r) ≡ true)
    → Has id q rows
    → Has id q (update_where p f rows)
update-Has id q p f rows same keep (there, have) = (
  rw (any-update_where (row_id id) p f rows same) there,
  all-update_where (λ r. not (row_id id r) || q r) p f rows
      (λ r h hit. elim (Bool-cases (row_id id r)) [
        | inl e ↦ rw (same r, e) (keep r (rw e at h) hit)
        | inr e ↦ rw (same r, e) refl
      ])
      have,
)

abbrev is_spent : MfaChallenge → Bool
is_spent row = is_some row.consumed_at

apply_call-Has :
    (crypto : Crypto) (call : Call) (id : Text) (rows : List MfaChallenge)
    → Has id is_spent rows
    → Has id is_spent (apply_call crypto call rows)
unfolding consume register_failed_attempt
apply_call-Has crypto (creating now new secret input) id rows h =
    create-Has crypto now new secret input id is_spent rows h
apply_call-Has crypto (consuming now other max_attempts) id rows h =
    update-Has id is_spent (is_live now other max_attempts) _ rows (λ r. refl) (λ r keep hit. refl)
      h
apply_call-Has crypto (failing now other max_attempts) id rows h =
    update-Has id is_spent (is_live now other max_attempts) _ rows (λ r. refl) (λ r keep hit. keep)
      h

run-Has :
    (crypto : Crypto) (calls : List Call) (id : Text) (rows : List MfaChallenge)
    → Has id is_spent rows
    → Has id is_spent (run crypto calls rows)
run-Has crypto [] id rows h = h
run-Has crypto (call ∷ calls) id rows h =
    run-Has crypto calls id (apply_call crypto call rows) (apply_call-Has crypto call id rows h)

-- Where every row with the id is shut, the challenge does not load.
load_parsed-shut :
    (crypto : Crypto) (now : ℕ) (id secret : Text) (q : MfaChallenge → Bool)
    (rows : List MfaChallenge)
    → ((r : MfaChallenge) → q r ≡ true → is_shut now r ≡ true)
    → all_at (row_id id) q rows ≡ true
    → load_parsed crypto now (some (id, secret)) rows ≡ none
load_parsed-shut crypto now id secret q rows shut have =
    elim (Option-cases (find (row_id id) rows)) [
      | inl e ↦ rw e refl
      | inr (row, e) ↦
          let here = find_fits (row_id id) rows e in
          let has = find-all (λ r. not (row_id id r) || q r) (row_id id) rows have e in
          rw (e, shut row (rw here at has)) refl
    ]

live_is_at :
    (now : ℕ) (id : Text) (max_attempts : ℕ) (r : MfaChallenge)
    → is_live now id max_attempts r ≡ true
    → row_id id r ≡ true
live_is_at now id max_attempts r h = &&_left (row_id id r) _ h

live_is_unspent :
    (now : ℕ) (id : Text) (max_attempts : ℕ) (r : MfaChallenge)
    → not (row_id id r) || is_spent r ≡ true
    → is_live now id max_attempts r ≡ false
live_is_unspent now id max_attempts r h = ground arith

-- A challenge whose consumption won is won by nobody again and never loads again, whatever calls
-- follow, if the table has one row with its id.
pub consume_once :
    (crypto : Crypto) (now : ℕ) (id secret : Text) (max_attempts : ℕ) (rows : List MfaChallenge)
    (calls : List Call) (later other_max : ℕ)
    → count_where (row_id id) rows < 2
    → (consume now id max_attempts rows).0 ≡ true
    → ((consume later id other_max (run crypto calls (consume now id max_attempts rows).1)).0
        ≡ false)
      × (load_parsed crypto later
            (some (id, secret))
            (run crypto calls (consume now id max_attempts rows).1)
          ≡ none)
unfolding consume
consume_once crypto now id secret max_attempts rows calls later other_max few won =
    let there =
      count_where-any (is_live now id max_attempts) (row_id id) rows
        (live_is_at now id max_attempts) won in
    let spent =
      updated_one (row_id id) is_spent (is_live now id max_attempts)
        (λ r. record r { consumed_at = some now }) rows (live_is_at now id max_attempts)
        (λ r hit. refl) few won in
    let same =
      any-update_where (row_id id) (is_live now id max_attempts)
        (λ r. record r { consumed_at = some now }) rows (λ r. refl) in
    let (_, after) = run-Has crypto calls id _ (same ∙ there, spent) in
    (
      rw
          (count_where-all (λ r. not (row_id id r) || is_spent r) (is_live later id other_max) _
            (live_is_unspent later id other_max) after)
          refl,
      load_parsed-shut crypto later id secret is_spent _ (λ r e. rw e refl) after,
    )

-- A row that has at most `k` attempts left until the time `later`.
abbrev is_worn : ℕ → ℕ → ℕ → MfaChallenge → Bool
is_worn later most k row =
    row.max_attempts == most
    && (is_some row.consumed_at || (leb row.expires_at later || leb most (row.attempt_count + k)))

-- Whether a call counts a failed attempt on the challenge, by the time `later`.
abbrev pub tries : Text → ℕ → ℕ → Call → ℕ
tries id most later (failing now other max_attempts) =
    if text_eq other id && (leb most max_attempts && leb now later) then 1 else 0
tries id most later _ = 0

abbrev pub all_tries : Text → ℕ → ℕ → List Call → ℕ
all_tries id most later [] = 0
all_tries id most later (call ∷ calls) = all_tries id most later calls + tries id most later call

-- One failed attempt on a row.
abbrev failed : MfaChallenge → MfaChallenge
failed r = record r { attempt_count = suc r.attempt_count }

failing-wears :
    (now later most max_attempts k : ℕ) (other id : Text) (r : MfaChallenge)
    → not (row_id id r)
        || is_worn later most (k + tries id most later (failing now other max_attempts)) r
      ≡ true
    → not (row_id id (if is_live now other max_attempts r then failed r else r))
        || is_worn later most k (if is_live now other max_attempts r then failed r else r)
      ≡ true
failing-wears now later most max_attempts k other id r h =
    elim (Bool-cases (is_live now other max_attempts r)) [
      | inl live ↦ elim (Bool-cases (text_eq other id)) [
        | inl same ↦ rw live (ground (arith, live, same))
        | inr differ ↦ rw live (ground (arith, live, differ))
      ]
      | inr shut ↦ elim (Bool-cases (text_eq other id)) [
        | inl same ↦ rw shut (ground (arith, shut, same, text_eq_iff other id same))
        | inr differ ↦ rw shut (ground (arith, shut, differ))
      ]
    ]

apply_call-wears :
    (crypto : Crypto) (call : Call) (id : Text) (later most k : ℕ) (rows : List MfaChallenge)
    → Has id (is_worn later most (k + tries id most later call)) rows
    → Has id (is_worn later most k) (apply_call crypto call rows)
unfolding consume register_failed_attempt
apply_call-wears crypto (creating now new secret input) id later most k rows h =
    let same : k + 0 ≡ k = omega arith in
    create-Has crypto now new secret input id (is_worn later most k) rows (rw same at h)
apply_call-wears crypto (consuming now other max_attempts) id later most k rows h =
    let same : k + 0 ≡ k = omega arith in
    update-Has id (is_worn later most k) (is_live now other max_attempts)
      (λ r. record r { consumed_at = some now }) rows (λ r. refl) (λ r keep hit. ground arith)
      (rw same at h)
apply_call-wears crypto (failing now other max_attempts) id later most k rows (there, have) = (
  any-update_where (row_id id) (is_live now other max_attempts) failed rows (λ r. refl) ∙ there,
  all-update_where_to
      (λ r.
        not (row_id id r)
        || is_worn later most (k + tries id most later (failing now other max_attempts)) r)
      (λ r. not (row_id id r) || is_worn later most k r) (is_live now other max_attempts) failed
      rows (failing-wears now later most max_attempts k other id) have,
)

sum : (a b c : ℕ) → a + b + c ≡ a + (b + c)
sum a b c = omega arith

run-wears :
    (crypto : Crypto) (calls : List Call) (id : Text) (later most k : ℕ) (rows : List MfaChallenge)
    → Has id (is_worn later most (k + all_tries id most later calls)) rows
    → Has id (is_worn later most k) (run crypto calls rows)
run-wears crypto [] id later most k rows h = let same : k + 0 ≡ k = omega arith in rw same at h
run-wears crypto (call ∷ calls) id later most k rows h =
    run-wears crypto calls id later most k (apply_call crypto call rows) (
      apply_call-wears crypto call id later most (k + all_tries id most later calls) rows
        (rw (sum k (all_tries id most later calls) (tries id most later call)) h))

-- Once as many failed attempts as a stored challenge allows are counted on it before a time, it does
-- not load at that time, with any secret, whatever other calls are made in between.
pub guesses_bounded :
    (crypto : Crypto) (id secret : Text) (later most : ℕ) (rows : List MfaChallenge)
    (calls : List Call)
    → any (row_id id) rows ≡ true
    → all_at (row_id id) (λ r. r.max_attempts == most) rows ≡ true
    → most ≤ all_tries id most later calls
    → load_parsed crypto later (some (id, secret)) (run crypto calls rows) ≡ none
guesses_bounded crypto id secret later most rows calls there limited enough =
    let (_, worn) = run-wears crypto calls id later most 0 rows (
      there,
      all-weaken (λ r. not (row_id id r) || r.max_attempts == most) _ rows (λ r e. ground arith)
          limited,
    ) in
    load_parsed-shut crypto later id secret (is_worn later most 0) (run crypto calls rows)
      (λ r e. ground arith) worn
