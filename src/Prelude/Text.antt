-- ===== src/Prelude/Text.antt =====
-- Python texts: `split` on a character, and `str` of a number.
use n_mpc.Prelude.Tests.{◌==◌, if◌then◌else◌}
use Prim.Native.Nat.{ℕ, zero, suc, ◌+◌, ◌-◌, ◌*◌, ◌/◌, ◌%◌, ◌≤◌, ◌<◌}
use Prim.Native.Char.{Char, code}
use Prim.Native.String.{String, [], ◌∷◌, ◌++◌}
use mathlib.Core.Path.{◌≡◌, refl, sym, ap, ◌∙◌}
use mathlib.Core.List.{List, [] as nil, ◌∷◌ as cons}
use native.Mathlib.Omega.{arith}

-- `s + t`
abbrev pub append : String → String → String
append s t = s ++ t

-- The text before the first `separator`, and the rest split.
abbrev pub prepend : Char → List String → List String
prepend c nil = cons (c ∷ []) nil
prepend c (cons part rest) = cons (c ∷ part) rest

-- `s.split(separator)`
unfoldable pub split : (separator : Char) → String → List String
split separator [] = cons [] nil
split separator (c ∷ s) =
    let parts = split separator s in
    if code c == code separator then cons [] parts else prepend c parts

abbrev pub digit : ℕ → Char
digit d =
    if d == 0
    then "0"
    else if d == 1
    then "1"
    else if d == 2
    then "2"
    else if d == 3
    then "3"
    else if d == 4
    then "4"
    else if d == 5
    then "5"
    else if d == 6
    then "6"
    else if d == 7
    then "7"
    else if d == 8
    then "8"
    else "9"

unfoldable digits : (fuel n : ℕ) → String → String
digits zero n out = out
digits (suc fuel) n out =
    let more = digits fuel (n / 10) (digit (n % 10) ∷ out) in if n == 0 then out else more

-- `str(n)`
unfoldable pub number_text : ℕ → String
unfolding digits
number_text zero = "0"
number_text (suc n) = digits (suc n) (suc n) []

value : String → ℕ → ℕ
value [] n = n
value (c ∷ s) n = value s (n * 10 + (code c - 48))

code-digit : (d : ℕ) → d < 10 → code (digit d) ≡ d + 48
code-digit zero h = refl
code-digit (suc zero) h = refl
code-digit (suc (suc zero)) h = refl
code-digit (suc (suc (suc zero))) h = refl
code-digit (suc (suc (suc (suc zero)))) h = refl
code-digit (suc (suc (suc (suc (suc zero))))) h = refl
code-digit (suc (suc (suc (suc (suc (suc zero)))))) h = refl
code-digit (suc (suc (suc (suc (suc (suc (suc zero))))))) h = refl
code-digit (suc (suc (suc (suc (suc (suc (suc (suc zero)))))))) h = refl
code-digit (suc (suc (suc (suc (suc (suc (suc (suc (suc zero))))))))) h = refl
code-digit (suc (suc (suc (suc (suc (suc (suc (suc (suc (suc d)))))))))) h = absurd (omega arith)

value-digits : (fuel n : ℕ) (out : String) → n ≤ fuel → value (digits fuel n out) 0 ≡ value out n
unfolding digits value
value-digits zero n out h = ap (value out) (omega arith)
value-digits (suc fuel) n out h =
    ground (arith, code-digit (n % 10), value-digits fuel (n / 10) (digit (n % 10) ∷ out))

value-number_text : (n : ℕ) → value (number_text n) 0 ≡ n
unfolding number_text value
value-number_text zero = refl
value-number_text (suc n) = value-digits (suc n) (suc n) [] (omega arith)

-- Two numbers of the same print are one.
pub number_text_inj : (m n : ℕ) → number_text m ≡ number_text n → m ≡ n
number_text_inj m n h = sym (value-number_text m) ∙ ap (λ s. value s 0) h ∙ value-number_text n
