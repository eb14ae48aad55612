-- ===== src/Mask.antt =====
-- Api/src/common/util/mask.ts: what a masked read shows of a contact field. Text that the source
-- may hold as null or undefined is an `Option`.
use vaultchain_fintech_dashb.Prelude.{
  ℕ, zero, suc, ◌-◌, Bool, false, ◌&&◌, ◌||◌, Option, none, some, List, [], ◌∷◌, ◌++◌, filter,
  if◌then◌else◌, leb, length, ◌≡◌, any, ltb, ◌==◌, ◌∙◌, sym,
}
use vaultchain_fintech_dashb.Prelude.Text.{Text, codes, take, drop, take_last, index_of, is_digit}

-- White space, as `trim` and `\s` read it.
abbrev pub is_space : ℕ → Bool
is_space c =
    (leb 9 c && leb c 13)
    || (any (λ d. c == d) (32 ∷ 160 ∷ 5760 ∷ 8232 ∷ 8233 ∷ 8239 ∷ 8287 ∷ 12288 ∷ 65279 ∷ [])
        || (leb 8192 c && leb c 8202))

abbrev pub trim_start : Text → Text
trim_start [] = []
trim_start (c ∷ s) = if is_space c then trim_start s else c ∷ s

abbrev pub trim_end : Text → Text
trim_end [] = []
trim_end (c ∷ s) = elim (trim_end s) [ [] ↦ if is_space c then [] else c ∷ [] | d ∷ r ↦ c ∷ d ∷ r ]

abbrev pub trim : Text → Text
trim s = trim_end (trim_start s)

abbrev pub stars : Text
stars = codes "***"

-- `text[0]`, as the text it puts into a template.
abbrev pub first_char : Text → Text
first_char [] = []
first_char (c ∷ s) = c ∷ []

-- `text.lastIndexOf(c)`.
abbrev pub last_index_of : ℕ → Text → Option ℕ
last_index_of c [] = none
last_index_of c (d ∷ s) = elim (last_index_of c s) [
  | some i ↦ some (suc i)
  | none ↦ if c == d then some 0 else none
]

abbrev pub mask_domain : Text → Option ℕ → Text
mask_domain domain none = first_char domain ++ stars
mask_domain domain (some i) = first_char (take i domain) ++ (stars ++ drop i domain)

abbrev pub mask_email_at : Text → Option ℕ → Text
mask_email_at email none = stars
mask_email_at email (some zero) = stars
mask_email_at email (some (suc i)) =
    let domain = drop (suc (suc i)) email in
    if suc (suc i) == length email
    then stars
    else first_char email ++ (stars ++ (b'@' ∷ mask_domain domain (last_index_of b'.' domain)))

-- The empty text has no `@`.
unfoldable pub mask_email : Text → Text
mask_email email = mask_email_at email (index_of b'@' email)

unfoldable pub mask_phone : Option Text → Option Text
mask_phone none = none
mask_phone (some []) = none
mask_phone (some (c ∷ s)) =
    let digits = filter is_digit (c ∷ s) in
    some (if ltb (length digits) 4 then stars else codes "*** *** " ++ take_last 4 digits)

-- `text.split(/\s+/).filter(Boolean)`: the runs that are not space, `word` being the one read.
abbrev pub end_word : Text → List Text → List Text
end_word [] rest = rest
end_word (c ∷ word) rest = (c ∷ word) ∷ rest

abbrev pub words_after : Text → Text → List Text
words_after word [] = end_word word []
words_after word (c ∷ s) =
    let split = words_after [] s in
    let joined = words_after (word ++ (c ∷ [])) s in
    if is_space c then end_word word split else joined

abbrev pub mask_rest : List Text → Text
mask_rest [] = []
mask_rest (w ∷ []) = first_char w ++ stars
mask_rest (w ∷ v ∷ ws) = (first_char w ++ stars) ++ (b' ' ∷ mask_rest (v ∷ ws))

abbrev pub mask_parts : List Text → Text
mask_parts [] = stars
mask_parts (w ∷ []) = first_char w ++ stars
mask_parts (w ∷ v ∷ ws) = w ++ (b' ' ∷ mask_rest (v ∷ ws))

unfoldable pub mask_name : Text → Text
mask_name name = mask_parts (words_after [] (trim name))

abbrev pub repeat : ℕ → ℕ → Text
repeat c zero = []
repeat c (suc n) = c ∷ repeat c n

unfoldable pub mask_wallet_number : Option Text → Option Text
mask_wallet_number none = none
mask_wallet_number (some []) = none
mask_wallet_number (some (c ∷ s)) =
    let trimmed = trim (c ∷ s) in
    some (
      if ltb (length trimmed) 4
      then stars
      else repeat b'*' (length trimmed - 4) ++ take_last 4 trimmed)

abbrev pub mask_line : Text → Text
mask_line [] = stars
mask_line (c ∷ s) = c ∷ stars

unfoldable pub mask_address : Option Text → Option Text
mask_address none = none
mask_address (some []) = none
mask_address (some (c ∷ s)) = some (mask_line (trim (c ∷ s)))

-- Two wallet numbers of one length with one last four characters, the space around them left out,
-- mask to one text: a masked wallet number tells nothing else.
pub mask_wallet_number_hides :
    (c d : ℕ) (s t : Text)
    → length (trim (c ∷ s)) ≡ length (trim (d ∷ t))
    → take_last 4 (trim (c ∷ s)) ≡ take_last 4 (trim (d ∷ t))
    → mask_wallet_number (some (c ∷ s)) ≡ mask_wallet_number (some (d ∷ t))
unfolding mask_wallet_number
mask_wallet_number_hides c d s t long last =
    λ i. some (if ltb (long i) 4 then stars else repeat b'*' (long i - 4) ++ last i)

-- Two phone numbers with at least four digits and one last four digits mask to one text.
pub mask_phone_hides :
    (c d : ℕ) (s t : Text)
    → ltb (length (filter is_digit (c ∷ s))) 4 ≡ false
    → ltb (length (filter is_digit (d ∷ t))) 4 ≡ false
    → take_last 4 (filter is_digit (c ∷ s)) ≡ take_last 4 (filter is_digit (d ∷ t))
    → mask_phone (some (c ∷ s)) ≡ mask_phone (some (d ∷ t))
unfolding mask_phone
mask_phone_hides c d s t many other last =
    let mask = λ (few : Bool) (l : Text). some (if few then stars else codes "*** *** " ++ l) in
    λ i. mask ((many ∙ sym other) i) (last i)
