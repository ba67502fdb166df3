-- ===== src/Entity/Number.antt =====
-- `QueueEntry.generateQueueNumber` of src/domain/entities/queue-entry.entity.ts: a letter for the
-- channel, a dash, and the sequence number padded to three digits.
use Prim.Native.Char.{Char, code}
use Prim.Native.String.{[], ◌∷◌}
use spotq_queue_service.Base.{
  ℕ, zero, suc, ◌+◌, ◌-◌, ◌*◌, ◌/◌, ◌%◌, ◌<◌, String, Option, none, some, ◌≡◌, refl, ap, ◌∙◌, arith,
  inl, inr, ◌==◌, if◌then◌else◌, Bool-cases,
}
use spotq_queue_service.Errors.{RegistrationType, online, walk_in}

digit : ℕ → Char
digit zero = "0"
digit (suc zero) = "1"
digit (suc (suc zero)) = "2"
digit (suc (suc (suc zero))) = "3"
digit (suc (suc (suc (suc zero)))) = "4"
digit (suc (suc (suc (suc (suc zero))))) = "5"
digit (suc (suc (suc (suc (suc (suc zero)))))) = "6"
digit (suc (suc (suc (suc (suc (suc (suc zero))))))) = "7"
digit (suc (suc (suc (suc (suc (suc (suc (suc zero)))))))) = "8"
digit _ = "9"

-- The decimal digits of `n` in front of `rest`; the fuel is more than the number of digits.
print_digits : ℕ → ℕ → String → String
unfolding digit
print_digits zero n rest = rest
print_digits (suc f) n rest =
    let here = digit (n % 10) ∷ rest in
    let more = print_digits f (n / 10) here in if n / 10 == 0 then here else more

-- `String(n)`
unfoldable pub print_nat : ℕ → String
unfolding print_digits
print_nat n = print_digits (suc n) n []

-- `s.padStart(3, '0')`
pad_three : String → String
pad_three [] = "000"
pad_three (a ∷ []) = "0" ∷ "0" ∷ a ∷ []
pad_three (a ∷ b ∷ []) = "0" ∷ a ∷ b ∷ []
pad_three s = s

abbrev prefix : RegistrationType → String → String
prefix online s = "Q" ∷ "-" ∷ s
prefix walk_in s = "W" ∷ "-" ∷ s

unfoldable pub generate_queue_number : RegistrationType → ℕ → String
unfolding print_nat pad_three
generate_queue_number type sequence = prefix type (pad_three (print_nat sequence))

-- The number that decimal digits spell, after the digits read so far.
value : ℕ → String → ℕ
value acc [] = acc
value acc (c ∷ s) = value (acc * 10 + (code c - 48)) s

-- Which channel and which sequence number a display number names.
pub read_queue_number : String → Option (RegistrationType × ℕ)
unfolding value
read_queue_number (c ∷ d ∷ s) =
    if code c == b'Q' then some (online, value 0 s) else some (walk_in, value 0 s)
read_queue_number _ = none

code-digit : (d : ℕ) → d < 10 → code (digit d) - 48 ≡ d
unfolding digit
code-digit zero h = refl
code-digit (suc zero) h = refl
code-digit (suc (suc zero)) h = refl
code-digit (suc (suc (suc zero))) h = refl
code-digit (suc (suc (suc (suc zero)))) h = refl
code-digit (suc (suc (suc (suc (suc zero))))) h = refl
code-digit (suc (suc (suc (suc (suc (suc zero)))))) h = refl
code-digit (suc (suc (suc (suc (suc (suc (suc zero))))))) h = refl
code-digit (suc (suc (suc (suc (suc (suc (suc (suc zero)))))))) h = refl
code-digit (suc (suc (suc (suc (suc (suc (suc (suc (suc zero))))))))) h = refl
code-digit (suc (suc (suc (suc (suc (suc (suc (suc (suc (suc d)))))))))) h = absurd (omega arith)

value-print_digits : (f n : ℕ) (s : String) → n < f → value 0 (print_digits f n s) ≡ value n s
unfolding value print_digits
value-print_digits zero n s h = elim h [ ]
value-print_digits (suc f) n s h =
    let read = code-digit (n % 10) (omega arith) in
    elim (Bool-cases (n / 10 == 0)) [
      | inl last ↦ rw last (ap (λ k. value k s) (ground (arith, read)))
      | inr more ↦ rw more (
          value-print_digits f (n / 10) (digit (n % 10) ∷ s) (ground arith)
          ∙ ap (λ k. value k s) (omega (arith, read)))
    ]

value-pad_three : (s : String) → value 0 (pad_three s) ≡ value 0 s
unfolding value pad_three
value-pad_three [] = refl
value-pad_three (a ∷ []) = refl
value-pad_three (a ∷ b ∷ []) = refl
value-pad_three (a ∷ b ∷ c ∷ s) = refl

-- Reading a generated number gives back its channel and its sequence number.
pub read_queue_number-generate_queue_number :
    (type : RegistrationType) (n : ℕ)
    → read_queue_number (generate_queue_number type n) ≡ some (type, n)
unfolding read_queue_number generate_queue_number
read_queue_number-generate_queue_number type n =
    ground (arith, value-pad_three (print_nat n), value-print_digits (suc n) n [] (omega arith))
