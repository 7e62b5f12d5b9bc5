-- ===== src/Command/System/Threads.antt =====
-- The list of senders and the list of pending cancels.
use openspace_os_core.Base.{
  ℕ, ◌≤◌, ◌≡◌, refl, ◌≢◌, none, some, List, [], ◌∷◌, arith, length, ◌==◌, if◌then◌else◌, Bool-cases,
  Option-cases, inl, inr,
}
use openspace_os_core.Command.System.{Phase, phase_of, set_phase, finish_thread, take_call}

-- No item has two senders.
abbrev pub IsThreads : List (ℕ × Phase) → Type 0
IsThreads [] = Unit
IsThreads ((a, p) ∷ ts) = (phase_of a ts ≡ none) × IsThreads ts

pub phase_of-set_phase :
    (a b : ℕ) (p : Phase) (ts : List (ℕ × Phase))
    → phase_of a ts ≢ none
    → phase_of b (set_phase a p ts) ≡ (if a == b then some p else phase_of b ts)
unfolding phase_of set_phase
phase_of-set_phase a b p [] h = absurd (h refl)
phase_of-set_phase a b p ((c, r) ∷ ts) h = elim (Bool-cases (c == a)) [
  | inl hit ↦ ground arith
  | inr miss ↦
      let rest = phase_of-set_phase a b p ts (λ e. h (ground arith)) in ground (arith, rest)
]

set_phase_absent :
    (a : ℕ) (p : Phase) (ts : List (ℕ × Phase)) → phase_of a ts ≡ none → set_phase a p ts ≡ ts
unfolding phase_of set_phase
set_phase_absent a p [] h = refl
set_phase_absent a p ((c, r) ∷ ts) h = ground (arith, set_phase_absent a p ts)

pub set_phase-IsThreads :
    (a : ℕ) (p : Phase) (ts : List (ℕ × Phase)) → IsThreads ts → IsThreads (set_phase a p ts)
unfolding phase_of set_phase
set_phase-IsThreads a p [] h = h
set_phase-IsThreads a p ((c, r) ∷ ts) h = elim (Option-cases (phase_of a ts)) [
  | inl e ↦ elim (Bool-cases (c == a)) [
    | inl hit ↦ ground arith
    | inr miss ↦ ground (arith, set_phase_absent a p ts e, set_phase-IsThreads a p ts h.1)
  ]
  | inr (x, e) ↦
      ground
        (arith, phase_of-set_phase a c p ts (λ n. ground arith), set_phase-IsThreads a p ts h.1)
]

pub length-set_phase :
    (a : ℕ) (p : Phase) (ts : List (ℕ × Phase)) → length (set_phase a p ts) ≡ length ts
unfolding set_phase
length-set_phase a p [] = refl
length-set_phase a p ((c, r) ∷ ts) = ground (arith, length-set_phase a p ts)

pub phase_of-finish_thread :
    (a b : ℕ) (ts : List (ℕ × Phase))
    → IsThreads ts
    → phase_of b (finish_thread a ts) ≡ (if a == b then none else phase_of b ts)
unfolding phase_of finish_thread
phase_of-finish_thread a b [] h = ground arith
phase_of-finish_thread a b ((c, r) ∷ ts) h = ground (arith, phase_of-finish_thread a b ts h.1)

pub finish_thread-IsThreads :
    (a : ℕ) (ts : List (ℕ × Phase)) → IsThreads ts → IsThreads (finish_thread a ts)
unfolding finish_thread
finish_thread-IsThreads a [] h = h
finish_thread-IsThreads a ((c, r) ∷ ts) h =
    ground (arith, phase_of-finish_thread a c ts h.1, finish_thread-IsThreads a ts h.1)

pub length-finish_thread : (a : ℕ) (ts : List (ℕ × Phase)) → length (finish_thread a ts) ≤ length ts
unfolding finish_thread
length-finish_thread a [] = omega arith
length-finish_thread a ((c, r) ∷ ts) = ground (arith, length-finish_thread a ts)

-- A call of `Cancel` that is left was there before.
pub take_call_left :
    (a b : ℕ) (cs : List ℕ) {rest : List ℕ}
    → take_call a cs ≡ some rest
    → take_call b rest ≢ none
    → take_call b cs ≢ none
unfolding take_call
take_call_left a b [] e h = absurd (ground arith)
take_call_left a b (c ∷ cs) e h = elim (Option-cases (take_call a cs)) [
  | inl n ↦ λ g. h (ground arith)
  | inr (ds, d) ↦ let rest = take_call_left a b cs d in λ g. h (ground (arith, rest))
]

pub phase_of-cons :
    (a b : ℕ) (p : Phase) (ts : List (ℕ × Phase))
    → phase_of b ((a, p) ∷ ts) ≡ (if a == b then some p else phase_of b ts)
unfolding phase_of
phase_of-cons a b p ts = refl

pub take_call-cons :
    (a b : ℕ) (cs : List ℕ) → take_call b cs ≡ none → a ≢ b → take_call b (a ∷ cs) ≡ none
unfolding take_call
take_call-cons a b cs h other = ground arith
