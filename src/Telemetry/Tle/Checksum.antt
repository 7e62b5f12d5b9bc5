-- ===== src/Telemetry/Tle/Checksum.antt =====
-- The check digit of a TLE line (`verifyChecksum` of internal/pipeline/telemetry/tle_parser.go).
use Prim.Native.Char.{Char, code}
use openspace_os_core.Base.{
  ℕ, ◌+◌, ◌%◌, ◌<◌, ◌≤◌, String, ◌≡◌, ◌≢◌, ◌⊎◌, inl, inr, refl, ap, arith, ◌-◌,
}
use openspace_os_core.Telemetry.{ok}
use openspace_os_core.Telemetry.Tle.{checksum, last_byte, check_digit, verify_checksum, weight}

abbrev IsDigit : Char → Type 0
IsDigit c = (b'0' ≤ code c) × (code c ≤ b'9')

-- Two texts that differ in one place, where both have a digit.
pub data OneDigit : String → String → Type 0 where
  here :
      {c d : Char} {s : String}
      → IsDigit c
      → IsDigit d
      → code c ≢ code d
      → OneDigit (String.◌∷◌ c s) (String.◌∷◌ d s)
  later : {c : Char} {s t : String} → OneDigit s t → OneDigit (String.◌∷◌ c s) (String.◌∷◌ c t)

-- What the change does to the sum and to the last byte.
abbrev Changes : String → String → Type 0
Changes s t =
    ((a : ℕ) × (b : ℕ) × (a < 10)
      × (b < 10)
      × (a ≢ b)
      × (checksum s + b ≡ checksum t + a)
      × (last_byte s ≡ last_byte t))
    ⊎ ((checksum s ≡ checksum t)
        × (b'0' ≤ last_byte s)
        × (last_byte s ≤ b'9')
        × (b'0' ≤ last_byte t)
        × (last_byte t ≤ b'9')
        × (last_byte s ≢ last_byte t))

module _ (c d : Char) (hc : IsDigit c) (hd : IsDigit d) (ne : code c ≢ code d) where
  here-Changes : (s : String) → Changes (String.◌∷◌ c s) (String.◌∷◌ d s)
  unfolding checksum last_byte
  here-Changes String.[] = inr (ground arith)
  here-Changes (String.◌∷◌ e s) =
      inl (code c - b'0', code d - b'0', omega arith, omega arith, omega arith, ground arith, refl)

later-Changes :
    (c : Char) (s t : String)
    → OneDigit s t
    → Changes s t
    → Changes (String.◌∷◌ c s) (String.◌∷◌ c t)
unfolding checksum last_byte
later-Changes c (String.◌∷◌ d s) (String.◌∷◌ e t) h (inl (a, b, la, lb, ne, sum, last)) =
    inl (a, b, la, lb, ne, omega arith, last)
later-Changes c (String.◌∷◌ d s) (String.◌∷◌ e t) h (inr (sum, ls, us, lt, ut, ne)) =
    inr (ap (λ n. weight c + n) sum, ls, us, lt, ut, ne)
later-Changes c String.[] String.[] h _ = elim h [ ]
later-Changes c String.[] (String.◌∷◌ e t) h _ = elim h [ ]
later-Changes c (String.◌∷◌ d s) String.[] h _ = elim h [ ]

OneDigit-Changes : {s t : String} → OneDigit s t → Changes s t
OneDigit-Changes (here {c} {d} {s} hc hd ne) = here-Changes c d hc hd ne s
OneDigit-Changes (later {c} {s} {t} h) = later-Changes c s t h (OneDigit-Changes h)

accepted-digit :
    (line : String) → verify_checksum line ≡ ok tt → check_digit line ≡ checksum line % 10
unfolding verify_checksum
accepted-digit line h = ground arith

-- A line that is accepted is refused after a change of any one digit, the check digit included.
pub verify_checksum-detects :
    (s t : String) → OneDigit s t → verify_checksum s ≡ ok tt → verify_checksum t ≢ ok tt
verify_checksum-detects s t h hs ht =
    let es = accepted-digit s hs in
    let et = accepted-digit t ht in
    elim (OneDigit-Changes h) [
      | inl (a, b, la, lb, ne, sum, last) ↦ omega arith
      | inr (sum, ls, us, lt, ut, ne) ↦ omega arith
    ]
