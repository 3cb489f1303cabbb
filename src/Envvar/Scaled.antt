-- ===== src/Envvar/Scaled.antt =====
-- envvar.c: the numbers of options are read as they are written.
use libumem.Base.{ℕ, ◌+◌, ◌*◌, ◌≡◌, false, List, [], ◌∷◌}
use libumem.Envvar.Number.{isdigit}

-- The text of digits, with what stands behind them, and their value.
abbrev pub digit_text : List ℕ → List ℕ → List ℕ
digit_text [] cs = cs
digit_text (d ∷ ds) cs = (d + 48) ∷ digit_text ds cs

abbrev pub digit_value : ℕ → List ℕ → ℕ
digit_value n [] = n
digit_value n (d ∷ ds) = digit_value (n * 10 + d) ds

abbrev pub NoDigit : List ℕ → Type 0
NoDigit [] = Unit
NoDigit (c ∷ cs) = isdigit c ≡ false
