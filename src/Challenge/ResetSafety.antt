-- ===== src/Challenge/ResetSafety.antt =====
-- What a reset challenge of
-- Api/src/modules/password-reset/password-reset-challenge.service.ts promises under every sequence
-- of calls that follow.
use vaultchain_fintech_dashb.Prelude.{
  ℕ, suc, Bool, true, false, not, ◌||◌, some, List, [], ◌∷◌, ◌≡◌, refl, arith, Bool-cases, all_at,
  any, count_where, is_some, update_where, any-update_where, inl, ◌<◌, all-update_where,
  count_where-all, count_where-any, inr, updated_one, ◌∙◌,
}
use vaultchain_fintech_dashb.Prelude.Text.{Text, text_eq, text_eq_iff}
use vaultchain_fintech_dashb.Challenge.Reset.{
  ResetChallenge, CreateResetChallengeInput, ResetMethod, row_id, is_live, is_verified,
  is_unverified, stamp, consume, register_failed_attempt, create, mark_factor_verified,
}
use vaultchain_fintech_dashb.Challenge.Mfa.{Crypto}

-- A call of the service that writes.
pub data Call : Type 0 where
  creating : ℕ → Text → Text → CreateResetChallengeInput → Call
  stamping : ℕ → Text → ResetMethod → ℕ → Call
  consuming : ℕ → Text → ℕ → Call
  failing : ℕ → Text → ℕ → Call

abbrev pub apply_call : Crypto → Call → List ResetChallenge → List ResetChallenge
apply_call crypto (creating now id secret input) rows = (create crypto now id secret input rows).1
apply_call crypto (stamping now id method max_attempts) rows =
    (mark_factor_verified now id method max_attempts rows).1
apply_call crypto (consuming now id max_attempts) rows = (consume now id max_attempts rows).1
apply_call crypto (failing now id max_attempts) rows =
    register_failed_attempt now id max_attempts rows

abbrev pub run : Crypto → List Call → List ResetChallenge → List ResetChallenge
run crypto [] rows = rows
run crypto (call ∷ calls) rows = run crypto calls (apply_call crypto call rows)

abbrev Has : Text → (ResetChallenge → Bool) → List ResetChallenge → Type 0
Has id q rows = (any (row_id id) rows ≡ true) × (all_at (row_id id) q rows ≡ true)

create-Has :
    (crypto : Crypto) (now : ℕ) (new secret : Text) (input : CreateResetChallengeInput) (id : Text)
    (q : ResetChallenge → Bool) (rows : List ResetChallenge)
    → Has id q rows
    → Has id q (create crypto now new secret input rows).1
unfolding create
create-Has crypto now new secret input id q rows (there, have) =
    elim (Bool-cases (any (row_id new) rows)) [
      | inl taken ↦ rw taken (there, have)
      | inr free ↦ elim (Bool-cases (text_eq new id)) [
        | inl e ↦ cc (rw (text_eq_iff new id e) at free, there)
        | inr e ↦ rw (free, e) (there, have)
      ]
    ]

update-Has :
    (id : Text) (q p : ResetChallenge → Bool) (f : ResetChallenge → ResetChallenge)
    (rows : List ResetChallenge)
    → ((r : ResetChallenge) → row_id id (f r) ≡ row_id id r)
    → ((r : ResetChallenge) → q r ≡ true → p r ≡ true → q (f r) ≡ true)
    → Has id q rows
    → Has id q (update_where p f rows)
update-Has id q p f rows same keep (there, have) = (
  rw (any-update_where (row_id id) p f rows same) there,
  all-update_where (λ r. not (row_id id r) || q r) p f rows
      (λ r h hit. elim (Bool-cases (row_id id r)) [
        | inl e ↦ rw (same r, e) (keep r (rw e at h) hit)
        | inr e ↦ rw (same r, e) refl
      ])
      have,
)

-- What the four calls keep of a row: that it is consumed, and that its factor is stamped.
abbrev KeptByCalls : (ResetChallenge → Bool) → Type 0
KeptByCalls q =
    ((r : ResetChallenge) (now : ℕ) → q r ≡ true → q (record r { consumed_at = some now }) ≡ true)
    × ((r : ResetChallenge) (now : ℕ) (method : ResetMethod)
        → q r ≡ true
        → q (stamp now method r) ≡ true)
    × ((r : ResetChallenge)
        → q r ≡ true
        → q (record r { attempt_count = suc r.attempt_count }) ≡ true)

apply_call-Has :
    (crypto : Crypto) (call : Call) (id : Text) (q : ResetChallenge → Bool)
    (rows : List ResetChallenge)
    → KeptByCalls q
    → Has id q rows
    → Has id q (apply_call crypto call rows)
unfolding consume register_failed_attempt mark_factor_verified
apply_call-Has crypto (creating now new secret input) id q rows kept h =
    create-Has crypto now new secret input id q rows h
apply_call-Has crypto (stamping now other method max_attempts) id q rows (consumed, stamped, failed)
      h =
    update-Has id q (is_unverified now other max_attempts) _ rows (λ r. refl)
      (λ r keep hit. stamped r now method keep) h
apply_call-Has crypto (consuming now other max_attempts) id q rows (consumed, stamped, failed) h =
    update-Has id q (is_verified now other max_attempts) _ rows (λ r. refl)
      (λ r keep hit. consumed r now keep) h
apply_call-Has crypto (failing now other max_attempts) id q rows (consumed, stamped, failed) h =
    update-Has id q (is_live now other max_attempts) _ rows (λ r. refl)
      (λ r keep hit. failed r keep) h

run-Has :
    (crypto : Crypto) (calls : List Call) (id : Text) (q : ResetChallenge → Bool)
    (rows : List ResetChallenge)
    → KeptByCalls q
    → Has id q rows
    → Has id q (run crypto calls rows)
run-Has crypto [] id q rows kept h = h
run-Has crypto (call ∷ calls) id q rows kept h =
    run-Has crypto calls id q (apply_call crypto call rows) kept
      (apply_call-Has crypto call id q rows kept h)

abbrev is_spent : ResetChallenge → Bool
is_spent row = is_some row.consumed_at

abbrev is_stamped : ResetChallenge → Bool
is_stamped row = is_some row.factor_verified_at

-- A reset challenge whose consumption won is won by nobody again, whatever calls follow, if the
-- table has one row with its id.
pub consume_reset_once :
    (crypto : Crypto) (now : ℕ) (id : Text) (max_attempts : ℕ) (rows : List ResetChallenge)
    (calls : List Call) (later other_max : ℕ)
    → count_where (row_id id) rows < 2
    → (consume now id max_attempts rows).0 ≡ true
    → (consume later id other_max (run crypto calls (consume now id max_attempts rows).1)).0 ≡ false
unfolding consume
consume_reset_once crypto now id max_attempts rows calls later other_max few won =
    let f = λ (r : ResetChallenge). record r { consumed_at = some now } in
    let p = is_verified now id max_attempts in
    let at : (r : ResetChallenge) → p r ≡ true → row_id id r ≡ true = λ r h. ground arith in
    let there = count_where-any p (row_id id) rows at won in
    let spent = updated_one (row_id id) is_spent p f rows at (λ r hit. refl) few won in
    let same = any-update_where (row_id id) p f rows (λ r. refl) in
    let (_, after) =
      run-Has crypto calls id is_spent _ ((λ r at e. refl), (λ r at m e. e), λ r e. e)
        (same ∙ there, spent) in
    rw
      (count_where-all (λ r. not (row_id id r) || is_spent r) (is_verified later id other_max) _
        (λ r h. ground arith) after)
      refl

-- The second factor of a reset challenge is stamped once: no call of `markFactorVerified` wins
-- after one that won, whatever calls are made in between, if the table has one row with its id.
pub stamp_once :
    (crypto : Crypto) (now : ℕ) (id : Text) (method other_method : ResetMethod) (max_attempts : ℕ)
    (rows : List ResetChallenge) (calls : List Call) (later other_max : ℕ)
    → count_where (row_id id) rows < 2
    → (mark_factor_verified now id method max_attempts rows).0 ≡ true
    → (mark_factor_verified later id other_method other_max
        (run crypto calls (mark_factor_verified now id method max_attempts rows).1)).0
      ≡ false
unfolding mark_factor_verified
stamp_once crypto now id method other_method max_attempts rows calls later other_max few won =
    let p = is_unverified now id max_attempts in
    let there = count_where-any p (row_id id) rows (λ r h. ground arith) won in
    let stamped =
      updated_one (row_id id) is_stamped p (stamp now method) rows (λ r h. ground arith)
        (λ r hit. refl) few won in
    let same = any-update_where (row_id id) p (stamp now method) rows (λ r. refl) in
    let (_, after) =
      run-Has crypto calls id is_stamped _ ((λ r at e. e), (λ r at m e. refl), λ r e. e)
        (same ∙ there, stamped) in
    rw
      (count_where-all (λ r. not (row_id id r) || is_stamped r) (is_unverified later id other_max) _
        (λ r h. ground arith) after)
      refl
