-- ===== src/Base/Text.antt =====
-- What the program does to texts: lower case, hexadecimal identifiers, blank text, order.
use Prim.Native.Nat.{ℕ, zero, suc, ◌/◌, ◌%◌, Ordering}
use Prim.Native.Char.{Char, code}
use Prim.Native.String
use Prim.Native.String.{String, ◌++◌}
use mathlib.Core.Path.{◌≡◌, refl, sym, ap, ap₂, ◌∙◌}
use mathlib.Core.Logic.{◌⊎◌, inl, inr}
use mathlib.Core.Bool.{Bool, true, false, ◌&&◌, ◌||◌}
use mathlib.Core.List.{List, [], ◌∷◌}
use mathlib.Core.Option.{Option, none, some}
use native.Mathlib.Omega.{arith}
use text.Mathlib.TextLemmas.{append_cancel_left}
use adx_agentic_payment.Base.Tests.{if◌then◌else◌, ltb, leb, ◌==◌, nat_eq, ==_iff, Bool-cases}
use adx_agentic_payment.Base.Lists.{All, get_elem?}

-- `c.lower()` on the ASCII letters. The program lowers only texts that a pattern of ASCII
-- characters then accepts or has accepted.
abbrev capitals : List (ℕ × Char)
capitals =
    (65, "a")
    ∷ (66, "b")
    ∷ (67, "c")
    ∷ (68, "d")
    ∷ (69, "e")
    ∷ (70, "f")
    ∷ (71, "g")
    ∷ (72, "h")
    ∷ (73, "i")
    ∷ (74, "j")
    ∷ (75, "k")
    ∷ (76, "l")
    ∷ (77, "m")
    ∷ (78, "n")
    ∷ (79, "o")
    ∷ (80, "p")
    ∷ (81, "q")
    ∷ (82, "r")
    ∷ (83, "s")
    ∷ (84, "t")
    ∷ (85, "u")
    ∷ (86, "v")
    ∷ (87, "w")
    ∷ (88, "x")
    ∷ (89, "y")
    ∷ (90, "z")
    ∷ []

abbrev pick : ℕ → List (ℕ × Char) → Char → Char
pick n [] c = c
pick n ((k, d) ∷ t) c = if n == k then d else pick n t c

lower_char : Char → Char
lower_char c = pick (code c) capitals c

unfoldable pub lower : String → String
unfolding lower_char
lower String.[] = String.[]
lower (String.◌∷◌ c s) = String.◌∷◌ (lower_char c) (lower s)

-- `[0-9a-fA-F]`.
is_hex : ℕ → Bool
is_hex n = (leb 48 n && leb n 57) || ((leb 97 n && leb n 102) || (leb 65 n && leb n 70))

-- `[0-9a-fA-F]{n}` and `0x[0-9a-fA-F]{n}`, matched against the whole text.
unfoldable pub hex_digits : ℕ → String → Bool
unfolding is_hex
hex_digits zero String.[] = true
hex_digits zero (String.◌∷◌ c s) = false
hex_digits (suc n) String.[] = false
hex_digits (suc n) (String.◌∷◌ c s) = is_hex (code c) && hex_digits n s

unfoldable pub prefixed_hex : ℕ → String → Bool
prefixed_hex n (String.◌∷◌ c (String.◌∷◌ d s)) =
    (code c == 48) && ((code d == 120) && hex_digits n s)
prefixed_hex n _ = false

-- `[0-9a-f]{n}`, and `^sha256:[0-9a-f]{64}$`.
is_small_hex : ℕ → Bool
is_small_hex n = (leb 48 n && leb n 57) || (leb 97 n && leb n 102)

small_hex_digits : ℕ → String → Bool
unfolding is_small_hex
small_hex_digits zero String.[] = true
small_hex_digits zero (String.◌∷◌ c s) = false
small_hex_digits (suc n) String.[] = false
small_hex_digits (suc n) (String.◌∷◌ c s) = is_small_hex (code c) && small_hex_digits n s

after_prefix : String → String → Option String
after_prefix String.[] s = some s
after_prefix (String.◌∷◌ p ps) String.[] = none
after_prefix (String.◌∷◌ p ps) (String.◌∷◌ c s) =
    let rest = after_prefix ps s in if code p == code c then rest else none

-- `s.startswith(p)`.
unfoldable pub starts_with : String → String → Bool
unfolding after_prefix
starts_with s p = elim (after_prefix p s) [ none ↦ false | some _ ↦ true ]

unfoldable pub sha256_text : String → Bool
unfolding after_prefix small_hex_digits
sha256_text s = elim (after_prefix "sha256:" s) [ none ↦ false | some t ↦ small_hex_digits 64 t ]

-- Python's order of texts: by code points.
abbrev pub text_leb : String → String → Bool
text_leb s t = elim (String.compare s t) [ Ordering.gt ↦ false | _ ↦ true ]

-- The characters that `strip()` takes away.
is_space : ℕ → Bool
is_space n =
    (leb 9 n && leb n 13)
    || ((leb 28 n && leb n 32)
        || ((n == 133)
            || ((n == 160)
                || ((n == 5760)
                    || ((leb 8192 n && leb n 8202)
                        || ((n == 8232)
                            || ((n == 8233) || ((n == 8239) || ((n == 8287) || (n == 12288))))))))))

-- `not s.strip()`.
unfoldable pub is_blank : String → Bool
unfolding is_space
is_blank String.[] = true
is_blank (String.◌∷◌ c s) = is_space (code c) && is_blank s

module _ {κ} (P : Char → Type κ) where
  pick_cases :
      (n : ℕ) (t : List (ℕ × Char)) (c : Char)
      → All (λ e. P e.1) t
      → (pick n t c ≡ c) ⊎ P (pick n t c)
  pick_cases n [] c h = inl refl
  pick_cases n ((k, d) ∷ t) c h = elim (Bool-cases (n == k)) [
    | inl e ↦ rw e (inr h.0)
    | inr e ↦ rw e (pick_cases n t c h.1)
  ]

-- No small letter of the table is a capital.
capitals-fixed : All (λ e. lower_char e.1 ≡ e.1) capitals
unfolding lower_char
capitals-fixed = ground arith

lower_char_idem : (c : Char) → lower_char (lower_char c) ≡ lower_char c
lower_char_idem c = elim (lower_char_cases c) [ inl e ↦ ap lower_char e | inr e ↦ e ]
  where
    lower_char_cases : (c : Char) → (lower_char c ≡ c) ⊎ (lower_char (lower_char c) ≡ lower_char c)
    lower_char_cases c =
        unfold lower_char in pick_cases (λ d. lower_char d ≡ d) (code c) capitals c capitals-fixed

pub lower_idem : (s : String) → lower (lower s) ≡ lower s
unfolding lower
lower_idem String.[] = refl
lower_idem (String.◌∷◌ c s) = ap₂ String.◌∷◌ (lower_char_idem c) (lower_idem s)

pick-hex :
    (n : ℕ) (t : List (ℕ × Char)) (c : Char)
    → All (λ e. is_hex (code e.1) ≡ is_hex e.0) t
    → is_hex n ≡ is_hex (code c)
    → is_hex (code (pick n t c)) ≡ is_hex (code c)
pick-hex n [] c h e = refl
pick-hex n ((k, d) ∷ t) c h e = elim (Bool-cases (n == k)) [
  | inl same ↦ rw same (h.0 ∙ sym (ap is_hex ((==_iff n k).0 same)) ∙ e)
  | inr other ↦ rw other (pick-hex n t c h.1 e)
]

capitals-hex : All (λ e. is_hex (code e.1) ≡ is_hex e.0) capitals
unfolding is_hex
capitals-hex = ground arith

lower_char-hex : (c : Char) → is_hex (code (lower_char c)) ≡ is_hex (code c)
unfolding lower_char
lower_char-hex c = pick-hex (code c) capitals c capitals-hex refl

pub hex_digits-lower : (n : ℕ) (s : String) → hex_digits n (lower s) ≡ hex_digits n s
unfolding hex_digits lower
hex_digits-lower zero String.[] = refl
hex_digits-lower zero (String.◌∷◌ c s) = refl
hex_digits-lower (suc n) String.[] = refl
hex_digits-lower (suc n) (String.◌∷◌ c s) = rw (lower_char-hex c, hex_digits-lower n s) refl

lower_char-zero : (c : Char) → code c ≡ 48 → lower_char c ≡ c
unfolding lower_char
lower_char-zero c e = ap (λ n. pick n capitals c) e

lower_char-x : (c : Char) → code c ≡ 120 → lower_char c ≡ c
unfolding lower_char
lower_char-x c e = ap (λ n. pick n capitals c) e

-- A hexadecimal identifier keeps its form in lower case.
pub prefixed_hex-lower :
    (n : ℕ) (s : String) → prefixed_hex n s ≡ true → prefixed_hex n (lower s) ≡ true
unfolding prefixed_hex lower
prefixed_hex-lower n String.[] h = cc
prefixed_hex-lower n (String.◌∷◌ c String.[]) h = cc
prefixed_hex-lower n (String.◌∷◌ c (String.◌∷◌ d s)) h =
    let hc : code c ≡ 48 = ground arith in
    let hd : code d ≡ 120 = ground arith in
    let hs : hex_digits n s ≡ true = ground arith in
    rw (lower_char-zero c hc, lower_char-x d hd, hex_digits-lower n s, hc, hd, hs) refl

abbrev digit_texts : List String
digit_texts = "0" ∷ "1" ∷ "2" ∷ "3" ∷ "4" ∷ "5" ∷ "6" ∷ "7" ∷ "8" ∷ "9" ∷ []

abbrev digit_text : ℕ → String
digit_text d = elim (get_elem? digit_texts d) [ none ↦ "" | some t ↦ t ]

-- `str(n)`: a number has at most as many digits as itself plus one, which is the fuel.
decimal_digits : ℕ → ℕ → String
decimal_digits zero n = ""
decimal_digits (suc fuel) n =
    let front = decimal_digits fuel (n / 10) in
    if ltb n 10 then digit_text n else front ++ digit_text (n % 10)

unfoldable pub decimal : ℕ → String
unfolding decimal_digits
decimal n = decimal_digits (suc n) n

-- The texts with `:` between them.
abbrev pub joined : List String → String
joined [] = ""
joined (s ∷ []) = s
joined (s ∷ t ∷ ts) = s ++ ":" ++ joined (t ∷ ts)

-- A text after the same prefix is the same text.
pub joined_inj : (p s t : String) → joined (p ∷ s ∷ []) ≡ joined (p ∷ t ∷ []) → s ≡ t
joined_inj p s t h = append_cancel_left ":" s t (append_cancel_left p (":" ++ s) (":" ++ t) h)
