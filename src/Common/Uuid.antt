-- ===== src/Common/Uuid.antt =====
-- Api/src/common/util/uuid.ts: the time-ordered ids of a process.
use vaultchain_fintech_dashb.Prelude.{
  ℕ, suc, ◌+◌, ◌-◌, ◌/◌, ◌%◌, Option, none, some, List, [], ◌∷◌, ltb, if◌then◌else◌,
}
use vaultchain_fintech_dashb.Prelude.Text.{Text}

-- `lastMillis`, which is -1 at first, and `counter`.
pub record Clock : Type 0 where
  pub last_millis : Option ℕ
  pub counter : ℕ

abbrev pub max_counter : ℕ
max_counter = 4095

abbrev pub fresh_clock : Clock
fresh_clock = record { last_millis = none; counter = 0 }

abbrev pub clock_at : ℕ → ℕ → Clock
clock_at millis counter = record { last_millis = some millis; counter = counter }

-- The clock's part of `uuidv7`, at the time `now`.
abbrev pub tick_after : ℕ → ℕ → Option ℕ → Clock
tick_after now counter none = clock_at now 0
tick_after now counter (some last) =
    if ltb last now
    then clock_at now 0
    else if ltb max_counter (suc counter)
    then clock_at (suc last) 0
    else clock_at last (suc counter)

unfoldable pub tick : ℕ → Clock → Clock
tick now clock = tick_after now clock.counter clock.last_millis

-- The random bytes that are kept, the first of them cut to six bits.
pub record Random : Type 0 where
  pub b8 : ℕ
  pub b9 : ℕ
  pub b10 : ℕ
  pub b11 : ℕ
  pub b12 : ℕ
  pub b13 : ℕ
  pub b14 : ℕ
  pub b15 : ℕ

-- The 16 bytes: `& 0xff` is the remainder by 256.
unfoldable pub id_bytes : ℕ → ℕ → Random → List ℕ
id_bytes timestamp counter r =
    timestamp / 1099511627776 % 256
    ∷ timestamp / 4294967296 % 256
    ∷ timestamp / 16777216 % 256
    ∷ timestamp / 65536 % 256
    ∷ timestamp / 256 % 256
    ∷ timestamp % 256
    ∷ (112 + counter / 256 % 16)
    ∷ counter % 256
    ∷ (128 + r.b8 % 64)
    ∷ r.b9
    ∷ r.b10
    ∷ r.b11
    ∷ r.b12
    ∷ r.b13
    ∷ r.b14
    ∷ r.b15
    ∷ []

-- `HEX[b]`: two lower-case digits, before `rest`.
abbrev pub hex_digit : ℕ → ℕ
hex_digit n = if ltb n 10 then b'0' + n else b'a' + (n - 10)

abbrev pub hex_byte : ℕ → Text → Text
hex_byte b rest = hex_digit (b / 16) ∷ hex_digit (b % 16) ∷ rest

-- The dashes after the bytes 4, 6, 8 and 10.
unfoldable pub print_bytes : List ℕ → Text
print_bytes (a ∷ b ∷ c ∷ d ∷ e ∷ f ∷ g ∷ h ∷ i ∷ j ∷ k ∷ l ∷ m ∷ n ∷ o ∷ p ∷ []) = hex_byte a (
    hex_byte b (
      hex_byte c (
        hex_byte d (
          b'-'
          ∷ hex_byte e (
              hex_byte f (
                b'-'
                ∷ hex_byte g (
                    hex_byte h (
                      b'-'
                      ∷ hex_byte i (
                          hex_byte j (
                            b'-'
                            ∷ hex_byte k (
                                hex_byte l
                                  (hex_byte m (hex_byte n (hex_byte o (hex_byte p [])))))))))))))))
print_bytes _ = []

abbrev pub stamp : Option ℕ → ℕ
stamp none = 0
stamp (some millis) = millis

-- The id and the clock that one call leaves.
unfoldable pub uuidv7 : ℕ → Random → Clock → Text × Clock
uuidv7 now random clock =
    let ticked = tick now clock in
    (print_bytes (id_bytes (stamp ticked.last_millis) ticked.counter random), ticked)
