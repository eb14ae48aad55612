-- ===== src/Access/Network.antt =====
-- `ipPrefix` of Api/src/modules/mfa/remembered-device.service.ts and of
-- Api/src/modules/password-reset/password-reset-request.service.ts.
use vaultchain_fintech_dashb.Prelude.{
  ℕ, Bool, true, false, Option, none, some, List, [], ◌∷◌, ◌++◌, ◌≡◌, refl, any, arith,
  if◌then◌else◌, not, ◌||◌, ==_refl, ◌==◌,
}
use vaultchain_fintech_dashb.Prelude.Text.{Text, codes, take}

-- `text.split(c)`: the part before the first `c`, and the rest.
abbrev pub add_first : ℕ → List Text → List Text
add_first c [] = (c ∷ []) ∷ []
add_first c (p ∷ ps) = (c ∷ p) ∷ ps

abbrev pub split : ℕ → Text → List Text
split d [] = [] ∷ []
split d (c ∷ s) = let rest = split d s in if c == d then [] ∷ rest else add_first c rest

-- `parts.join(c)`.
abbrev pub join : ℕ → List Text → Text
join d [] = []
join d (p ∷ []) = p
join d (p ∷ q ∷ ps) = p ++ (d ∷ join d (q ∷ ps))

abbrev pub has_char : ℕ → Text → Bool
has_char c s = any (λ d. d == c) s

abbrev pub ipv4_prefix : Text → List Text → Text
ipv4_prefix ip (a ∷ b ∷ c ∷ d ∷ []) = a ++ (b'.' ∷ (b ++ (b'.' ∷ (c ++ codes ".0/24"))))
ipv4_prefix ip _ = ip

abbrev pub prefix_of : Text → Text
prefix_of ip =
    if has_char b':' ip
    then join b':' (take 3 (split b':' ip)) ++ codes "::/48"
    else ipv4_prefix ip (split b'.' ip)

-- An absent address and an empty one have the empty prefix.
unfoldable pub ip_prefix : Option Text → Text
ip_prefix none = []
ip_prefix (some []) = []
ip_prefix (some (c ∷ s)) = prefix_of (c ∷ s)

split-char : (d : ℕ) (p : Text) → has_char d p ≡ false → split d p ≡ p ∷ []
split-char d [] h = refl
split-char d (c ∷ p) h = ground (arith, split-char d p)

split-part : (d : ℕ) (p s : Text) → has_char d p ≡ false → split d (p ++ (d ∷ s)) ≡ p ∷ split d s
split-part d [] s h = ground (arith, ==_refl d)
split-part d (c ∷ p) s h = ground (arith, split-part d p s)

has_char-append : (c : ℕ) (s t : Text) → has_char c (s ++ t) ≡ (has_char c s || has_char c t)
has_char-append c [] t = refl
has_char-append c (d ∷ s) t = ground (arith, has_char-append c s t)

-- The four parts of an IPv4 address, with neither a dot nor a colon in one.
abbrev pub is_part : Text → Bool
is_part p = not (has_char b'.' p || has_char b':' p)

abbrev pub dotted : Text → Text → Text → Text → Text
dotted a b c d = a ++ (b'.' ∷ (b ++ (b'.' ∷ (c ++ (b'.' ∷ d)))))

part-char : (p : Text) → is_part p ≡ true → (has_char b'.' p ≡ false) × (has_char b':' p ≡ false)
part-char p h = (ground arith, ground arith)

-- The stored prefix of an IPv4 address is its first three octets: the last one is not in it.
pub ip_prefix-dotted :
    (x : ℕ) (a b c d : Text)
    → is_part (x ∷ a) ≡ true
    → is_part b ≡ true
    → is_part c ≡ true
    → is_part d ≡ true
    → ip_prefix (some (dotted (x ∷ a) b c d))
      ≡ (x ∷ a) ++ (b'.' ∷ (b ++ (b'.' ∷ (c ++ codes ".0/24"))))
unfolding ip_prefix
ip_prefix-dotted x a b c d ha hb hc hd =
    let (adot, acolon) = part-char (x ∷ a) ha in
    let (bdot, bcolon) = part-char b hb in
    let (cdot, ccolon) = part-char c hc in
    let (ddot, dcolon) = part-char d hd in
    let clear : has_char b':' (dotted (x ∷ a) b c d) ≡ false = ground (
      arith,
      has_char-append b':' (x ∷ a) (b'.' ∷ (b ++ (b'.' ∷ (c ++ (b'.' ∷ d))))),
      has_char-append b':' b (b'.' ∷ (c ++ (b'.' ∷ d))),
      has_char-append b':' c (b'.' ∷ d),
    ) in
    let parts : split b'.' (dotted (x ∷ a) b c d) ≡ (x ∷ a) ∷ b ∷ c ∷ d ∷ [] =
      rw
        (
          split-part b'.' (x ∷ a) (b ++ (b'.' ∷ (c ++ (b'.' ∷ d)))) adot,
          split-part b'.' b (c ++ (b'.' ∷ d)) bdot,
          split-part b'.' c d cdot,
          split-char b'.' d ddot,
        )
        refl in
    rw (clear, parts) refl
