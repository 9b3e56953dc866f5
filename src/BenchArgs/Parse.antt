-- ===== src/BenchArgs/Parse.antt =====
-- What the command line parsers accept, and what they make of it.
use mathlib.Core.List.{append-nil}
use market_data_pipeline.Base.{
  ℕ, zero, suc, ◌+◌, ◌-◌, ◌*◌, ◌^◌, ◌<◌, ◌≡◌, ◌≢◌, refl, ap, true, false, List, [], ◌∷◌, ◌++◌, ◌==◌,
  arith, length, length-append, lt→ltb, Bool-cases, inl, inr,
}
use market_data_pipeline.BenchArgs.{
  pos, Text, value, invalid_argument, is_digit, is_space, skip_spaces, read_digits, read_number,
  read_signed, stoi, suffix, same_text, take, drop, has_suffix, with_mode, parse_arg,
  parse_bench_args,
}

-- A text of digits only.
abbrev pub Digits : Text → Type 0
Digits [] = Unit
Digits (c ∷ cs) = (is_digit c ≡ true) × Digits cs

-- The number that a text of digits stands for, read on from `acc`.
unfoldable pub decimal : ℕ → Text → ℕ
decimal acc [] = acc
decimal acc (c ∷ cs) = decimal (acc * 10 + (c - b'0')) cs

-- A text that no number goes on in.
abbrev pub Stops : Text → Type 0
Stops [] = Unit
Stops (c ∷ _) = is_digit c ≡ false

read_digits-decimal :
    (acc : ℕ) (ds rest : Text)
    → Digits ds
    → Stops rest
    → read_digits acc (ds ++ rest) ≡ decimal acc ds
unfolding read_digits decimal
read_digits-decimal acc [] [] d s = refl
read_digits-decimal acc [] (c ∷ rest) d s = rw s
read_digits-decimal acc (c ∷ ds) rest d s =
    rw d.0 (read_digits-decimal (acc * 10 + (c - b'0')) ds rest d.1 s)

-- `std::stoi` reads the digits that a text begins with, if they are a number below `2 ^ 31`, and
-- ignores the rest.
pub stoi-decimal :
    (d : ℕ) (ds rest : Text)
    → Digits (d ∷ ds)
    → Stops rest
    → decimal 0 (d ∷ ds) < 2 ^ 31
    → stoi (d ∷ ds ++ rest) ≡ value (pos (decimal 0 (d ∷ ds)))
unfolding stoi skip_spaces read_signed read_number
stoi-decimal d ds rest h s fits =
    rw (
      not_space,
      not_minus,
      not_plus,
      h.0,
      read_digits-decimal 0 (d ∷ ds) rest h s,
      lt→ltb _ _ fits,
    )
  where
    not_space : is_space d ≡ false
    not_space = ground (arith, h.0)

    not_minus : (d == b'-') ≡ false
    not_minus = ground (arith, h.0)

    not_plus : (d == b'+') ≡ false
    not_plus = ground (arith, h.0)

drop-append : (xs ys : Text) → drop (length xs) (xs ++ ys) ≡ ys
drop-append [] ys = refl
drop-append (x ∷ xs) ys = drop-append xs ys

take-append : (xs ys : Text) → take (length xs) (xs ++ ys) ≡ xs
take-append [] ys = refl
take-append (x ∷ xs) ys = ap (λ zs. x ∷ zs) (take-append xs ys)

Digits-drop : (n : ℕ) (cs : Text) → Digits cs → Digits (drop n cs)
Digits-drop zero cs h = h
Digits-drop (suc n) [] h = tt
Digits-drop (suc n) (c ∷ cs) h = Digits-drop n cs h.1

Digits-ne_suffix : (cs : Text) → Digits cs → same_text cs suffix ≡ false
Digits-ne_suffix [] h = refl
Digits-ne_suffix (c ∷ cs) h = let other : (c == b'_') ≡ false = ground (arith, h.0) in rw other

has_suffix-Digits : (cs : Text) → Digits cs → has_suffix cs ≡ false
unfolding has_suffix
has_suffix-Digits cs h =
    ground (arith, Digits-ne_suffix (drop (length cs - length suffix) cs) (Digits-drop _ cs h))

length_less_suffix : (xs : Text) → length (xs ++ suffix) - length suffix ≡ length xs
length_less_suffix xs = omega (arith, length-append xs suffix)

has_suffix-append : (x : ℕ) (xs : Text) → has_suffix (x ∷ xs ++ suffix) ≡ true
unfolding has_suffix
has_suffix-append x xs =
    rw (length_less_suffix (x ∷ xs), drop-append (x ∷ xs) suffix)
      (ground (arith, length-append (x ∷ xs) suffix))

-- Every mode below `2 ^ 31`, written in digits, is read back: alone it is silent, followed by
-- "_printed" it prints. Further arguments do not count.
pub parse_bench_args-decimal :
    (program : Text) (d : ℕ) (ds : Text) (more : List Text)
    → Digits (d ∷ ds)
    → decimal 0 (d ∷ ds) < 2 ^ 31
    → (parse_bench_args (program ∷ (d ∷ ds) ∷ more)
        ≡ value (record { mode = pos (decimal 0 (d ∷ ds)); printed = false }))
      × (parse_bench_args (program ∷ (d ∷ ds ++ suffix) ∷ more)
          ≡ value (record { mode = pos (decimal 0 (d ∷ ds)); printed = true }))
unfolding parse_bench_args parse_arg
parse_bench_args-decimal program d ds more h fits = (silent, printing)
  where
    number : stoi (d ∷ ds) ≡ value (pos (decimal 0 (d ∷ ds)))
    number = rw append-nil at (stoi-decimal d ds [] h tt fits)

    silent :
        parse_arg (d ∷ ds) ≡ value (record { mode = pos (decimal 0 (d ∷ ds)); printed = false })
    silent = rw (has_suffix-Digits (d ∷ ds) h) (ap (with_mode false) number)

    printing :
        parse_arg (d ∷ ds ++ suffix)
        ≡ value (record { mode = pos (decimal 0 (d ∷ ds)); printed = true })
    printing =
        rw (has_suffix-append d ds, length_less_suffix (d ∷ ds), take-append (d ∷ ds) suffix)
          (ap (with_mode true) number)

take-cons : (n c : ℕ) (cs : Text) → 0 < n → take n (c ∷ cs) ≡ c ∷ take (n - 1) cs
take-cons zero c cs h = absurd (omega arith)
take-cons (suc n) c cs h = ap (λ k. c ∷ take k cs) (omega arith)

has_suffix-long : (cs : Text) → has_suffix cs ≡ true → 0 < length cs - length suffix
unfolding has_suffix
has_suffix-long cs h = ground arith

-- A text that begins with no digit, sign or white space is no number.
pub stoi-invalid :
    (c : ℕ) (cs : Text)
    → is_digit c ≡ false
    → is_space c ≡ false
    → c ≢ b'+'
    → c ≢ b'-'
    → stoi (c ∷ cs) ≡ invalid_argument
unfolding stoi skip_spaces read_signed read_number
stoi-invalid c cs no_digit no_space no_plus no_minus = rw no_space (ground (arith, no_digit))

-- A first argument that begins with no digit, sign or white space ends the program with
-- `std::invalid_argument`, with or without the suffix.
pub parse_bench_args-invalid :
    (program : Text) (c : ℕ) (cs : Text) (more : List Text)
    → is_digit c ≡ false
    → is_space c ≡ false
    → c ≢ b'+'
    → c ≢ b'-'
    → parse_bench_args (program ∷ (c ∷ cs) ∷ more) ≡ invalid_argument
unfolding parse_bench_args parse_arg
parse_bench_args-invalid program c cs more no_digit no_space no_plus no_minus =
    elim (Bool-cases (has_suffix (c ∷ cs))) [
      | inl suffixed ↦
          let front : take (length (c ∷ cs) - length suffix) (c ∷ cs)
              ≡ c ∷ take (length (c ∷ cs) - length suffix - 1) cs =
            take-cons (length (c ∷ cs) - length suffix) c cs (long suffixed) in
          rw (suffixed, front, stoi-invalid c _ no_digit no_space no_plus no_minus)
      | inr plain ↦ rw (plain, stoi-invalid c cs no_digit no_space no_plus no_minus)
    ]
  where
    long : has_suffix (c ∷ cs) ≡ true → 0 < length (c ∷ cs) - length suffix
    long h = has_suffix-long (c ∷ cs) h
