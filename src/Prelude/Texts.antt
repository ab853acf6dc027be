-- ===== src/Prelude/Texts.antt =====
-- The bytes of a text: `str::as_bytes`, which is UTF-8.
use Prim.Native.Nat.{ℕ, ◌+◌, ◌/◌, ◌%◌}
use Prim.Native.Char.{Char, code}
use Prim.Native.String.{String, ◌++◌ as ◌<>◌}
use Prim.Native.String.append
use mathlib.Core.Path.{◌≡◌, ◌∙◌, ap}
use mathlib.Core.List.{[], ◌∷◌, ◌++◌}
use mathlib.Core.Option.{Option, none, some}
use native.Mathlib.Omega.{arith}
use soroban_ml_dsa.Prelude.Tests.{ltb, ◌==◌, if◌then◌else◌}
use soroban_ml_dsa.Prelude.Lists.{Bytes}

-- The continuation byte that holds bits `6 k .. 6 k + 5`, from the code point shifted to there.
abbrev continuation : ℕ → ℕ
continuation c = 128 + c % 64

pub utf8 : ℕ → Bytes
utf8 c =
    if ltb c 0x80
    then c ∷ []
    else if ltb c 0x800
    then (0xc0 + c / 64) ∷ continuation c ∷ []
    else if ltb c 0x10000
    then (0xe0 + c / 4096) ∷ continuation (c / 64) ∷ continuation c ∷ []
    else (0xf0 + c / 262144) ∷ continuation (c / 4096) ∷ continuation (c / 64) ∷ continuation c ∷ []

unfoldable pub as_bytes : String → Bytes
unfolding utf8
as_bytes String.[] = []
as_bytes (String.◌∷◌ c s) = utf8 (code c) ++ as_bytes s

pub append_one : (c : Char) (t : String) → String.◌∷◌ c String.[] <> t ≡ String.◌∷◌ c t
append_one c t = append.cons c String.[] t ∙ ap (String.◌∷◌ c) (append.nil t)

-- What is behind a prefix, where the text has it.
unfoldable pub strip : String → String → Option String
strip String.[] t = some t
strip (String.◌∷◌ c p) String.[] = none
strip (String.◌∷◌ c p) (String.◌∷◌ d t) =
    let rest = strip p t in if code c == code d then rest else none

pub strip-append : (p t : String) → strip p (p <> t) ≡ some t
unfolding strip
strip-append String.[] t = ap (strip String.[]) (append.nil t)
strip-append (String.◌∷◌ c p) t =
    ap (strip (String.◌∷◌ c p)) (append.cons c p t) ∙ ground (arith, strip-append p t)
