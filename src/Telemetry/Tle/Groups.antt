-- ===== src/Telemetry/Tle/Groups.antt =====
-- The groups of lines of a TLE text (`splitTLEGroups` and `Parse` of
-- internal/pipeline/telemetry/tle_parser.go).
use Prim.Native.Char.{Char, code}
use openspace_os_core.Base.{
  ◌⊎◌, ℕ, String, Bool, true, not, List, [], ◌∷◌, ◌++◌, ◌≡◌, ◌≢◌, ◌∙◌, ap, refl, sym, arith, inl,
  inr, All, All-append, keep_if, str_eq, map, Bool-cases, if_cases, ◌&&◌,
}
use mathlib.Core.List.{append_assoc, append-nil}
use openspace_os_core.Event.Schema.{trim_space, trim_left, trim_right, is_space}
use openspace_os_core.Telemetry.{TelemetryFrame, ok, ◌>>=◌}
use openspace_os_core.Telemetry.Tle.{
  some_frames, extract_tle_lines, split_lines, lines_of, closed, split_from, split_tle_groups,
  Float64, parse_groups, parse_tle,
}

abbrev pub joined : List (List String) → List String
joined [] = []
joined (g ∷ gs) = g ++ joined gs

-- A line with something on it.
abbrev pub is_filled : String → Bool
is_filled l = not (str_eq l "")

abbrev pub filled_lines : List String → List String
filled_lines ls = keep_if is_filled (map trim_space ls)

abbrev pub IsGroup : List String → Type 0
IsGroup g = (g ≢ []) × All (λ l. is_filled l ≡ true) g

joined-append : (gs hs : List (List String)) → joined (gs ++ hs) ≡ joined gs ++ joined hs
joined-append [] hs = refl
joined-append (g ∷ gs) hs = ap (λ ls. g ++ ls) (joined-append gs hs) ∙ sym (append_assoc g _ _)

joined-closed : (c : List String) → joined (closed c) ≡ c
joined-closed [] = refl
joined-closed (x ∷ xs) = append-nil (x ∷ xs)

split_from-joined :
    (current lines : List String)
    → joined (split_from current lines) ≡ current ++ filled_lines lines
unfolding split_from
split_from-joined current [] = joined-closed current ∙ sym (append-nil current)
split_from-joined current (l ∷ ls) = elim (Bool-cases (str_eq (trim_space l) "")) [
  | inl e ↦ ground (
    arith,
    joined-append (closed current) (split_from [] ls),
    joined-closed current,
    split_from-joined [] ls,
  )
  | inr e ↦ ground (
    arith,
    split_from-joined (current ++ (trim_space l ∷ [])) ls,
    append_assoc current (trim_space l ∷ []) (filled_lines ls),
  )
]

closed-IsGroup : (c : List String) → All (λ l. is_filled l ≡ true) c → All IsGroup (closed c)
closed-IsGroup [] h = tt
closed-IsGroup (x ∷ xs) h = ((λ e. ground arith, h), tt)

split_from-IsGroup :
    (current lines : List String)
    → All (λ l. is_filled l ≡ true) current
    → All IsGroup (split_from current lines)
unfolding split_from
split_from-IsGroup current [] h = closed-IsGroup current h
split_from-IsGroup current (l ∷ ls) h = elim (Bool-cases (str_eq (trim_space l) "")) [
  | inl e ↦ ground (
    arith,
    All-append IsGroup (closed current) (split_from [] ls) (closed-IsGroup current h)
        (split_from-IsGroup [] ls tt),
  )
  | inr e ↦
      let more =
        All-append (λ l. is_filled l ≡ true) current (trim_space l ∷ []) h (ground arith, tt) in
      ground (arith, split_from-IsGroup (current ++ (trim_space l ∷ [])) ls more)
]

-- The groups are the filled lines of the text, in order and each trimmed, cut into non-empty
-- pieces.
pub split_tle_groups_lem :
    (text : String)
    → (joined (split_tle_groups text) ≡ filled_lines (lines_of text))
      × All IsGroup (split_tle_groups text)
unfolding split_tle_groups
split_tle_groups_lem text =
    (split_from-joined [] (lines_of text), split_from-IsGroup [] (lines_of text) tt)

-- A text without a line feed.
pub data IsOneLine : String → Type 0 where
  nothing : IsOneLine String.[]
  more : {c : Char} {s : String} → code c ≢ b'\n' → IsOneLine s → IsOneLine (String.◌∷◌ c s)

IsOneLine-trim_left : {s : String} → IsOneLine s → IsOneLine (trim_left s)
unfolding trim_left
IsOneLine-trim_left nothing = nothing
IsOneLine-trim_left (more {c} {s} h r) =
    if_cases IsOneLine (is_space c) (λ _. IsOneLine-trim_left r) (λ _. more h r)

IsOneLine-trim_right : {s : String} → IsOneLine s → IsOneLine (trim_right s)
unfolding trim_right
IsOneLine-trim_right nothing = nothing
IsOneLine-trim_right (more {c} {s} h r) =
    if_cases IsOneLine (is_space c && str_eq (trim_right s) "") (λ _. nothing)
      (λ _. more h (IsOneLine-trim_right r))

IsOneLine-split_lines : {s : String} → IsOneLine s → split_lines s ≡ (s, [])
unfolding split_lines
IsOneLine-split_lines nothing = refl
IsOneLine-split_lines (more {c} {s} h r) = ground (arith, IsOneLine-split_lines r)

one_group :
    (l : String)
    → (split_from [] (l ∷ []) ≡ []) ⊎ ((x : String) × (split_from [] (l ∷ []) ≡ (x ∷ []) ∷ []))
unfolding split_from
one_group l = elim (Bool-cases (str_eq (trim_space l) "")) [
  | inl e ↦ inl (ground arith)
  | inr e ↦ inr (trim_space l, ground arith)
]

module _ {F : Type 0} (f : Float64 F) (show_time : ℕ → String) where
  short_group :
      (gs : List (List String)) (frames : List TelemetryFrame)
      → (gs ≡ []) ⊎ ((x : String) × (gs ≡ (x ∷ []) ∷ []))
      → (parse_groups f show_time 1 gs >>= some_frames) ≢ ok frames
  unfolding parse_groups extract_tle_lines
  short_group [] frames _ e = ground arith
  short_group ((x ∷ []) ∷ []) frames _ e = ground arith
  short_group ([] ∷ gs) frames h e = ground arith
  short_group ((x ∷ y ∷ zs) ∷ gs) frames h e = ground arith
  short_group ((x ∷ []) ∷ g ∷ gs) frames h e = ground arith

  -- No text of one line is ever parsed: the parser needs two lines.
  pub parse_tle_one_line :
      (raw : String) (frames : List TelemetryFrame)
      → IsOneLine raw
      → parse_tle f show_time raw ≢ ok frames
  unfolding parse_tle split_tle_groups
  parse_tle_one_line raw frames h e =
      let one = IsOneLine-split_lines (IsOneLine-trim_right (IsOneLine-trim_left h)) in
      let short = short_group _ frames (one_group (trim_space raw)) in ground (arith, one, short)
