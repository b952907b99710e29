-- ===== src/TestVectors/Expected.antt =====
-- internal/testvectors/load.go and siwx/solana/adapter.go: the error that a test expects from the
-- registry, and the one that the adapter makes.
use mathlib.Core.List.{Permᴰ}
use mathlib.Core.Option
use siwx_go.Base.{List, [], ◌∷◌, some, ◌≡◌, refl, ap, ◌∙◌, sym}
use siwx_go.Siws.Errors as SiwsErrors
use siwx_go.Siws.Errors.{Reason, sentinel}
use siwx_go.Siwx.Solana.Errors.{translate, map_err_any_order}
use siwx_go.Siwx.Solana.{Entry, entries, map_err}
use siwx_go.TestVectors.{siwx_sentinel_for}

siwx_sentinel_for-translate :
    (s : SiwsErrors.Sentinel) → siwx_sentinel_for (some s) ≡ some (translate s)
unfolding siwx_sentinel_for
siwx_sentinel_for-translate SiwsErrors.Sentinel.malformed = refl
siwx_sentinel_for-translate SiwsErrors.Sentinel.bad_signature = refl
siwx_sentinel_for-translate SiwsErrors.Sentinel.expired = refl
siwx_sentinel_for-translate SiwsErrors.Sentinel.not_yet_valid = refl
siwx_sentinel_for-translate SiwsErrors.Sentinel.domain_mismatch = refl
siwx_sentinel_for-translate SiwsErrors.Sentinel.nonce_mismatch = refl

-- In whatever order the map is ranged over, `mapErr` turns an error of siws into exactly the error
-- that `SiwxSentinelFor` lets the tests expect for the sentinel which it wraps.
pub map_err-siwx_sentinel_for :
    (order : List Entry) (r : Reason)
    → Permᴰ entries order
    → some (map_err order r) ≡ Option.map (λ s. s ∷ []) (siwx_sentinel_for (some (sentinel r)))
map_err-siwx_sentinel_for order r p =
    ap some (map_err_any_order order r p)
    ∙ sym (ap (Option.map (λ s. s ∷ [])) (siwx_sentinel_for-translate (sentinel r)))
