-- ===== src/Common/UuidOrder.antt =====
-- The ids of a process are UUIDs, and grow: Api/src/common/util/uuid.ts.
use vaultchain_fintech_dashb.Prelude.{
  ℕ, suc, ◌+◌, ◌*◌, ◌/◌, ◌%◌, ◌<◌, ◌≤◌, Bool, true, ◌&&◌, Option, none, some, List, [], ◌∷◌, ◌≡◌,
  refl, arith, ltb, Bool-cases, inl, inr, is_some, both,
}
use vaultchain_fintech_dashb.Prelude.Text.{take}
use vaultchain_fintech_dashb.Common.Uuid.{
  Clock, id_bytes, tick, Random, hex_digit, stamp, tick_after, max_counter, uuidv7, print_bytes,
}
use vaultchain_fintech_dashb.Challenge.Token.{hex, variant, is_uuid}

-- The number that the first eight bytes are, from the most significant one on.
abbrev pub number_of : ℕ → List ℕ → ℕ
number_of acc [] = acc
number_of acc (b ∷ bs) = number_of (acc * 256 + b) bs

abbrev pub high_part : List ℕ → ℕ
high_part bytes = number_of 0 (take 8 bytes)

high_part_lem :
    (timestamp counter : ℕ) (r : Random)
    → timestamp < 281474976710656
    → counter < 4096
    → high_part (id_bytes timestamp counter r) ≡ timestamp * 65536 + (28672 + counter)
unfolding id_bytes
high_part_lem timestamp counter r small few = omega arith

-- A clock that has ticked, whose counter has twelve bits.
abbrev pub HasTicked : Clock → Type 0
HasTicked clock = (is_some clock.last_millis ≡ true) × (clock.counter < 4096)

abbrev order_of : Clock → ℕ
order_of clock = stamp clock.last_millis * 4096 + clock.counter

tick_after-HasTicked : (now counter : ℕ) (last : Option ℕ) → HasTicked (tick_after now counter last)
tick_after-HasTicked now counter none = (refl, omega arith)
tick_after-HasTicked now counter (some last) = elim (Bool-cases (ltb last now)) [
  | inl e ↦ rw e (refl, omega arith)
  | inr e ↦ elim (Bool-cases (ltb max_counter (suc counter))) [
    | inl f ↦ rw (e, f) (refl, omega arith)
    | inr f ↦ rw (e, f) (refl, ground (arith, f))
  ]
]

tick_after-grows :
    (now counter : ℕ) (last : Option ℕ)
    → is_some last ≡ true
    → counter < 4096
    → stamp last * 4096 + counter < order_of (tick_after now counter last)
tick_after-grows now counter none h few = cc
tick_after-grows now counter (some last) h few = elim (Bool-cases (ltb last now)) [
  | inl e ↦ rw e (ground (arith, e))
  | inr e ↦ elim (Bool-cases (ltb max_counter (suc counter))) [
    | inl f ↦ rw (e, f) (ground (arith, f))
    | inr f ↦ rw (e, f) (ground (arith, f))
  ]
]

-- The clock after the calls at some times, in order; a time may be earlier than the one before it.
abbrev pub run_ticks : List ℕ → Clock → Clock
run_ticks [] clock = clock
run_ticks (now ∷ nows) clock = run_ticks nows (tick now clock)

tick-HasTicked : (now : ℕ) (clock : Clock) → HasTicked (tick now clock)
unfolding tick
tick-HasTicked now clock = tick_after-HasTicked now clock.counter clock.last_millis

tick-grows :
    (now : ℕ) (clock : Clock) → HasTicked clock → order_of clock < order_of (tick now clock)
unfolding tick
tick-grows now clock (set, few) = tick_after-grows now clock.counter clock.last_millis set few

run_ticks-grows :
    (nows : List ℕ) (clock : Clock)
    → HasTicked clock
    → HasTicked (run_ticks nows clock) × (order_of clock ≤ order_of (run_ticks nows clock))
run_ticks-grows [] clock h = (h, omega arith)
run_ticks-grows (now ∷ nows) clock h =
    let grown = tick-grows now clock h in
    let (ticked, rest) = run_ticks-grows nows (tick now clock) (tick-HasTicked now clock) in
    (ticked, omega arith)

-- The bytes of the id that a clock is in the middle of.
abbrev pub bytes_at : Clock → Random → List ℕ
bytes_at clock random = id_bytes (stamp clock.last_millis) clock.counter random

-- An id is greater than every id that its process made before, in the first eight bytes, however
-- often the ids are made in one millisecond and even where the time goes backwards, as long as the
-- clock is below 2^48 milliseconds.
pub later_is_greater :
    (now later : ℕ) (between : List ℕ) (clock : Clock) (first second : Random)
    → stamp (tick later (run_ticks between (tick now clock))).last_millis < 281474976710656
    → high_part (bytes_at (tick now clock) first)
      < high_part (bytes_at (tick later (run_ticks between (tick now clock))) second)
later_is_greater now later between clock first second small =
    let one = tick now clock in
    let (set, few) = tick-HasTicked now clock in
    let (ticked, kept) = run_ticks-grows between one (set, few) in
    let more = tick-grows later (run_ticks between one) ticked in
    let (set_after, few_after) = tick-HasTicked later (run_ticks between one) in
    let early : stamp one.last_millis < 281474976710656 = omega arith in
    rw
      (
        high_part_lem (stamp one.last_millis) one.counter first early few,
        high_part_lem (stamp (tick later (run_ticks between one)).last_millis)
            (tick later (run_ticks between one)).counter second small few_after,
      )
      (omega arith)

hex_digit-hex : (n : ℕ) → n < 16 → hex (hex_digit n) ≡ true
hex_digit-hex n h = ground arith

-- A byte.
abbrev pub is_byte : ℕ → Bool
is_byte b = ltb b 256

abbrev pub are_bytes : Random → Bool
are_bytes r =
    is_byte r.b9
    && (is_byte r.b10
        && (is_byte r.b11
            && (is_byte r.b12 && (is_byte r.b13 && (is_byte r.b14 && is_byte r.b15)))))

-- The variant's digit, which is 8, 9, a or b.
variant_digit : (b : ℕ) → variant (hex_digit ((128 + b % 64) / 16)) ≡ true
variant_digit b = ground arith

digits-hex :
    (b : ℕ)
    → is_byte b ≡ true
    → (hex (hex_digit (b / 16)) ≡ true) × (hex (hex_digit (b % 16)) ≡ true)
digits-hex b small = (hex_digit-hex (b / 16) (ground arith), hex_digit-hex (b % 16) (omega arith))

rest-byte : (b : ℕ) → is_byte (b % 256) ≡ true
rest-byte b = ground arith

version_byte : (counter : ℕ) → is_byte (112 + counter / 256 % 16) ≡ true
version_byte counter = ground arith

variant_byte : (b : ℕ) → is_byte (128 + b % 64) ≡ true
variant_byte b = ground arith

-- Every id that is made has the form that `isUuid` tests for.
pub uuidv7-is_uuid :
    (now : ℕ) (random : Random) (clock : Clock)
    → are_bytes random ≡ true
    → is_uuid (uuidv7 now random clock).0 ≡ true
unfolding uuidv7 id_bytes print_bytes
uuidv7-is_uuid now random clock small =
    let (s9, r10) = both _ _ small in
    let (s10, r11) = both _ _ r10 in
    let (s11, r12) = both _ _ r11 in
    let (s12, r13) = both _ _ r12 in
    let (s13, r14) = both _ _ r13 in
    let (s14, s15) = both _ _ r14 in
    let ticked = tick now clock in
    let t = stamp ticked.last_millis in
    let c = ticked.counter in
    let (a0, a1) = digits-hex (t / 1099511627776 % 256) (rest-byte _) in
    let (b0, b1) = digits-hex (t / 4294967296 % 256) (rest-byte _) in
    let (c0, c1) = digits-hex (t / 16777216 % 256) (rest-byte _) in
    let (d0, d1) = digits-hex (t / 65536 % 256) (rest-byte _) in
    let (e0, e1) = digits-hex (t / 256 % 256) (rest-byte _) in
    let (f0, f1) = digits-hex (t % 256) (rest-byte _) in
    let (g0, g1) = digits-hex (112 + c / 256 % 16) (version_byte c) in
    let (h0, h1) = digits-hex (c % 256) (rest-byte _) in
    let (i0, i1) = digits-hex (128 + random.b8 % 64) (variant_byte random.b8) in
    let (j0, j1) = digits-hex random.b9 s9 in
    let (k0, k1) = digits-hex random.b10 s10 in
    let (l0, l1) = digits-hex random.b11 s11 in
    let (m0, m1) = digits-hex random.b12 s12 in
    let (n0, n1) = digits-hex random.b13 s13 in
    let (o0, o1) = digits-hex random.b14 s14 in
    let (p0, p1) = digits-hex random.b15 s15 in
    rw
      (
        a0,
        a1,
        b0,
        b1,
        c0,
        c1,
        d0,
        d1,
        e0,
        e1,
        f0,
        f1,
        g0,
        g1,
        h0,
        h1,
        variant_digit random.b8,
        i1,
        j0,
        j1,
        k0,
        k1,
        l0,
        l1,
        m0,
        m1,
        n0,
        n1,
        o0,
        o1,
        p0,
        p1,
      )
      refl
