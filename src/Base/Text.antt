-- ===== src/Base/Text.antt =====
-- Texts: Go's `==` and `strings.HasSuffix` on strings.
use Prim.Native.Nat.{◌-◌, Ordering}
use Prim.Native.String.{String, ◌++◌, len, slice, compare}
use mathlib.Core.Bool.{Bool, true, false, ◌&&◌}
use text.Mathlib.Text.{◌==◌ as text_eq}
use tidal_crypto_intelligenc.Base.Tests.{leb}

abbrev pub str_eq : String → String → Bool
str_eq s t = text_eq s t

-- The last bytes of `s` are those of `t`.
abbrev pub has_suffix : String → String → Bool
has_suffix s t = leb (len t) (len s) && str_eq (slice s (len s - len t) (len s)) t

-- `s < t`, by bytes.
abbrev pub str_ltb : String → String → Bool
str_ltb s t = elim (compare s t) [ Ordering.lt ↦ true | _ ↦ false ]

-- Two parts of a key, with a colon between them.
abbrev pub glue : String → String → String
glue s t = s ++ (":" ++ t)

-- The first bytes of `s` are those of `t`.
abbrev pub has_prefix : String → String → Bool
has_prefix s t = leb (len t) (len s) && str_eq (slice s 0 (len t)) t

-- Two texts, one after the other.
abbrev pub join : String → String → String
join s t = s ++ t
