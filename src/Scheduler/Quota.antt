-- ===== src/Scheduler/Quota.antt =====
-- `Quota` (internal/datahub/scheduler.go): the rolling ledger of request starts. `prune` and
-- `available` change the receiver, so they return it.
use tidal_crypto_intelligenc.Base.{
  ℕ, ◌+◌, Bool, false, ◌||◌, ltb, leb, if◌then◌else◌, List, [], ◌∷◌, ◌++◌, length, minute, hour,
  millisecond, min, max, ◌==◌, ◌*◌,
}
pub mod Window
use Prim.Native.String.{String}

pub record Quota : Type 0 where
  pub starts : List ℕ
  pub cooldown : ℕ
  pub calls : ℕ
  pub rate_limited : ℕ
  pub auth_failed : Bool

-- `var quota Quota`.
abbrev pub new_quota : Quota
new_quota = record { starts = []; cooldown = 0; calls = 0; rate_limited = 0; auth_failed = false }

-- The loop that skips the starts not after one minute ago.
unfoldable pub drop_old : ℕ → List ℕ → List ℕ
drop_old now [] = []
drop_old now (s ∷ ss) = let rest = drop_old now ss in if leb (s + minute) now then rest else s ∷ ss

unfoldable pub prune : ℕ → Quota → Quota
unfolding drop_old
prune now q = record q { starts = drop_old now q.starts }

-- `len(q.Starts) == 0 || now.Sub(q.Starts[len-1]) >= 5100ms`.
unfoldable pub spaced_from_last : ℕ → List ℕ → Bool
spaced_from_last now [] = Bool.true
spaced_from_last now (s ∷ []) = leb (s + 5100 * millisecond) now
spaced_from_last now (s ∷ t ∷ ts) = spaced_from_last now (t ∷ ts)

unfoldable pub available : ℕ → Quota → Quota × Bool
unfolding prune spaced_from_last
available now q =
    let p = prune now q in
    let closed = p.auth_failed || ltb now p.cooldown || leb 12 (length p.starts) in
    (p, if closed then false else spaced_from_last now p.starts)

-- What `Step` writes when it starts a request.
unfoldable pub record_start : ℕ → Quota → Quota
record_start now q = record q { starts = q.starts ++ now ∷ []; calls = q.calls + 1 }

-- The upstream's refusal, as `FetchError` carries it.
pub record FetchError : Type 0 where
  pub status : ℕ
  pub retry_after : ℕ
  pub code : String

-- What `run` and `runOrderHistory` write to the quota on a `FetchError` at `now`.
unfoldable pub refused : ℕ → FetchError → Quota → Quota
refused now e q =
    let limited =
      if e.status == 429
      then (record q {
        rate_limited = q.rate_limited + 1;
        cooldown = now + min hour (max minute e.retry_after);
      })
      else q in
    if e.status == 401 || e.status == 403
    then record limited { auth_failed = Bool.true }
    else limited
