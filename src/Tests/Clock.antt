-- ===== src/Tests/Clock.antt =====
-- A package `time` whose instants are written in unary, and a signature scheme that knows one
-- signature.
use siwx_go.Base.{
  ℕ, zero, suc, ◌==◌, Bytes, Bool, true, none, some, if◌then◌else◌, length, replicate,
  length-replicate, equal, ◌≡◌, ◌≢◌, refl, arith,
}
use siwx_go.Go.Strings.Laws.{Lacks}
use siwx_go.Go.Strings.{all_bytes}
use siwx_go.Go.Time.{TimeLib, TimeLaws}

abbrev tick : ℕ → Bool
tick c = c == b't'

unfoldable pub unary : TimeLib
unfolding all_bytes
unary = record {
  zero = 0;
  parse = λ l s. if all_bytes tick s then some (length s) else none;
  format = λ t. replicate t b't';
  is_exact = λ t. true;
}

all_ticks : (t : ℕ) → all_bytes tick (replicate t b't') ≡ true
unfolding all_bytes
all_ticks zero = refl
all_ticks (suc t) = all_ticks t

ticks-Lack : (b t : ℕ) → b't' ≢ b → Lacks b (replicate t b't')
ticks-Lack b zero h = tt
ticks-Lack b (suc t) h = (h, ticks-Lack b t h)

pub unary-TimeLaws : TimeLaws unary
unfolding unary
unary-TimeLaws =
    let letter : ℕ = b't' in
    record {
      parse-format = λ l t x. rw (all_ticks t, length-replicate t (letter));
      OneLine-format = λ t x. (ticks-Lack b'\n' t (omega arith), ticks-Lack b'\r' t (omega arith));
    }

unfoldable pub known_signature : Bytes → Bytes → Bytes → Bool
unfolding equal
known_signature key msg sig = equal sig (replicate 64 7)
