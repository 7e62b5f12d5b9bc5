-- ===== src/Bus/Nats/Subjects.antt =====
-- The subjects of internal/core/nats_bus.go: what cleanSubjectToken makes of an event's type.
use Prim.Native.Char.{Char}
use Prim.Native.String
use openspace_os_core.Base.{
  ◌≡◌, refl, ◌≢◌, String, true, false, arith, if◌then◌else◌, str_eq, Bool-cases, inl, inr, eq_iff,
}
use openspace_os_core.Event.{Event}
use openspace_os_core.Event.Schema.{trim_space, trim_left, trim_right}
use openspace_os_core.Bus.Nats.{is_reserved, clean_chars, clean_subject_token, subject_for_event}

-- One token of a subject: not empty, and without a separator, a wildcard or a blank.
abbrev pub IsFree : String → Type 0
IsFree String.[] = Unit
IsFree (String.◌∷◌ c s) = (is_reserved c ≡ false) × IsFree s

abbrev pub IsToken : String → Type 0
IsToken s = (s ≢ "") × IsFree s

clean_char_lem : (c : Char) → is_reserved (if is_reserved c then "_" else c) ≡ false
clean_char_lem c = elim (Bool-cases (is_reserved c)) [ inl r ↦ rw r refl | inr f ↦ rw f f ]

clean_chars-IsFree : (s : String) → IsFree (clean_chars s)
unfolding clean_chars
clean_chars-IsFree String.[] = tt
clean_chars-IsFree (String.◌∷◌ c s) = (clean_char_lem c, clean_chars-IsFree s)

unknown-IsFree : IsFree "unknown"
unfolding clean_chars
unknown-IsFree = clean_chars-IsFree "unknown"

IsFree-clean_chars : (s : String) → IsFree s → clean_chars s ≡ s
unfolding clean_chars
IsFree-clean_chars String.[] h = refl
IsFree-clean_chars (String.◌∷◌ c s) h = rw (h.0, IsFree-clean_chars s h.1) refl

clean_chars-filled : (s : String) → str_eq (trim_space s) "" ≡ false → clean_chars s ≢ ""
unfolding clean_chars trim_left trim_right
clean_chars-filled String.[] h e = absurd (ground arith)
clean_chars-filled (String.◌∷◌ c s) h e = cc

-- The subject of an event is `events.` and one token. A type that is a token already, and not blank,
-- is that token.
subject_for_event_lem :
    (e : Event)
    → (t : String) × (subject_for_event e ≡ String.◌++◌ "events." t)
      × IsToken t
      × (IsFree e.event_type → trim_space e.event_type ≢ "" → t ≡ e.event_type)
unfolding subject_for_event clean_subject_token
subject_for_event_lem e = elim (Bool-cases (str_eq (trim_space e.event_type) "")) [
  | inl blank ↦ (
    "unknown",
    rw blank refl,
    (
      (λ h. let same : str_eq "unknown" "" ≡ true = (eq_iff "unknown" "").1 h in cc),
      unknown-IsFree,
    ),
    λ free set. absurd (set ((eq_iff (trim_space e.event_type) "").0 blank)),
  )
  | inr set ↦ (
    clean_chars e.event_type,
    rw set refl,
    (clean_chars-filled e.event_type set, clean_chars-IsFree e.event_type),
    λ free filled. IsFree-clean_chars e.event_type free,
  )
]
