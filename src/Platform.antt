-- ===== src/Platform.antt =====
-- What the program takes from the interpreter's tables: `str.lower` (Unicode's case mapping) and
-- `datetime.fromisoformat`. Both are arguments of the definitions that call them.
use nexus_controller.Prelude.{ℕ, String, Option}

-- A parsed timestamp in microseconds since the year 1, read on its own clock if it has no zone.
pub data Datetime : Type 0 where
  naive : ℕ → Datetime
  aware : ℕ → Datetime

pub record Platform : Type 0 where
  pub lower : String → String
  pub from_iso : String → Option Datetime

-- `if t.tzinfo is None: t = t.replace(tzinfo=timezone.utc)`: the instant in UTC.
abbrev pub in_utc : Datetime → ℕ
in_utc (naive micros) = micros
in_utc (aware micros) = micros
