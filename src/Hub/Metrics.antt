-- ===== src/Hub/Metrics.antt =====
-- examples/hub/observe.go and handlers.go: the text of `GET /metrics`. A `sync.Map` is ranged over in some
-- order, here that of the list; failures that are no sentinel, whose text is not known, have no line.
use siwx_go.Base.{ℕ, List, [], ◌∷◌, ◌++◌, Bytes, codes}
use siwx_go.Go.Strconv.{decimal}
use siwx_go.Hub.Handlers.Http.{kept, metrics_body, Reply, Hub}

-- `%s %d\n`
row : Bytes → ℕ → Bytes
unfolding decimal
row name n = name ++ b' ' ∷ (decimal n ++ b'\n' ∷ [])

-- A counter with the line of its type.
counter : Bytes → ℕ → Bytes
unfolding row
counter name n = codes "# TYPE " ++ name ++ codes " counter" ++ b'\n' ∷ row name n

-- `%q`, on the texts of sentinels and the names of checks, which hold no quote, no backslash and no
-- control character.
abbrev quoted : Bytes → Bytes
quoted s = b'"' ∷ (s ++ b'"' ∷ [])

-- A loop of `Range`.
rows : Bytes → Bytes → List (Bytes × ℕ) → Bytes
unfolding row
rows name tag [] = []
rows name tag ((key, n) ∷ m) =
    row (name ++ b'{' ∷ (tag ++ b'=' ∷ (quoted key ++ b'}' ∷ []))) n ++ rows name tag m

-- `render`
unfoldable pub render : Hub → Bytes
unfolding counter rows
render h =
    counter (codes "verify_attempts_total") h.recorder.attempts_total
    ++ rows (codes "verify_failures_total") (codes "reason") h.recorder.failures_total
    ++ rows (codes "checks_failed_total") (codes "check") h.recorder.checks_total
    ++ counter (codes "nonces_issued_total") h.nonces_issued
    ++ counter (codes "nonces_burned_total") h.nonces_burned
    ++ counter (codes "tokens_issued_total") h.tokens_issued

-- `getMetrics`
unfoldable pub get_metrics : Hub → Reply
unfolding render
get_metrics h = record { status = 200; body = metrics_body (render h); cookie = kept }
