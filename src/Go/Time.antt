-- ===== src/Go/Time.antt =====
-- Package `time`, as the program uses it. An instant is a natural number: the nanoseconds since a
-- fixed moment before every instant that `Parse` returns. The zone that a `time.Time` also carries
-- is not modelled: the program compares instants and prints them in UTC.
use siwx_go.Base.{ℕ, Bool, true, Bytes, Option, some, ◌≡◌, ltb}
use siwx_go.Go.Strings.Laws.{OneLine}

-- The layouts that the program names: RFC 3339, the same with nanoseconds, and the three that write
-- ".000Z07:00", ".000Z" and ".999Z" for the fraction and the zone.
pub data Layout : Type 0 where
  rfc3339 rfc3339_nano millis_zone millis_z fraction_z : Layout

pub record TimeLib : Type 0 where
  -- `time.Parse`
  pub parse : Layout → Bytes → Option ℕ
  -- `time.Time{}`
  pub zero : ℕ
  -- `t.UTC().Format` in the layout `millis_z`
  pub format : ℕ → Bytes
  -- the instants that this layout writes without loss: whole milliseconds of the years 0 to 9999
  pub is_exact : ℕ → Bool

-- `Parse` reads back, in any of these layouts, what `Format` wrote, and what it writes is one line.
pub record TimeLaws (lib : TimeLib) : Type 0 where
  pub parse-format :
      (l : Layout) (t : ℕ) → lib.is_exact t ≡ true → lib.parse l (lib.format t) ≡ some t
  pub OneLine-format : (t : ℕ) → lib.is_exact t ≡ true → OneLine (lib.format t)

-- `t.Before(u)`
abbrev pub before : ℕ → ℕ → Bool
before t u = ltb t u
