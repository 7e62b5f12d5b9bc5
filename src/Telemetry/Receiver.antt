-- ===== src/Telemetry/Receiver.antt =====
-- The TCP receiver: internal/pipeline/telemetry/receiver.go. Go's scanner hands on the lines of a
-- connection one at a time, without their line feed; a rate counts thousandths of a frame per second.
pub mod Limit
use openspace_os_core.Base.{
  ◌≡◌, ℕ, zero, suc, ◌+◌, ◌-◌, ltb, leb, leb_ℤ, ℤ, pos, pos_part, String, Bool, true, false, List,
  [], ◌∷◌, str_eq, if◌then◌else◌,
}

pub record ReceiverConfig : Type 0 where
  pub max_conns : ℤ
  pub per_conn_rate : ℤ
  pub burst : ℤ
  pub idle_timeout : ℤ

abbrev or_default : ℤ → ℕ → ℤ
or_default n d = if leb_ℤ n (pos 0) then pos d else n

-- `applyDefaults`.
unfoldable pub apply_defaults : ReceiverConfig → ReceiverConfig
apply_defaults c = record {
  max_conns = or_default c.max_conns 64;
  per_conn_rate = or_default c.per_conn_rate 200000;
  burst = or_default c.burst 20;
  idle_timeout = or_default c.idle_timeout 300000000000;
}

-- The loop of `handleConn` over the lines: what `handler` leaves of a state.
unfoldable pub handle_lines {ℓ} : {S : Type ℓ} → (String → S → S) → List String → S → S
handle_lines handler [] s = s
handle_lines handler (line ∷ lines) s =
    handle_lines handler lines (if str_eq line "" then s else handler line s)

-- The connections: those accepted whose goroutine has not counted itself yet, those counted in
-- `active`, and those refused.
pub record Connections : Type 0 where
  pub max_conns : ℕ
  pub starting : ℕ
  pub active : ℕ
  pub refused : ℕ

-- `acceptLoop` takes a connection; a goroutine enters `handleConn`; a goroutine leaves it.
pub data Step : Connections → Connections → Type 0 where
  accept :
      {c : Connections}
      → leb c.max_conns c.active ≡ false
      → Step c (record c { starting = suc c.starting })
  refuse :
      {c : Connections}
      → leb c.max_conns c.active ≡ true
      → Step c (record c { refused = suc c.refused })
  enter :
      {m s a r : ℕ}
      → Step
          (record { max_conns = m; starting = suc s; active = a; refused = r })
          (record { max_conns = m; starting = s; active = suc a; refused = r })
  leave :
      {m s a r : ℕ}
      → Step
          (record { max_conns = m; starting = s; active = suc a; refused = r })
          (record { max_conns = m; starting = s; active = a; refused = r })

pub data Steps : Connections → Connections → Type 0 where
  stay : {c : Connections} → Steps c c
  then : {a b c : Connections} → Step a b → Steps b c → Steps a c
