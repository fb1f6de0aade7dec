-- ===== src/Base/Trim.antt =====
-- `str::trim` and `str::strip_prefix`.
use Prim.Native.Char.{Char, code}
use stocks.Base.{
  ◌≡◌, refl, Bool, true, false, ◌&&◌, Option, none, some, String, arith, ◌==◌, if◌then◌else◌,
}
use stocks.Base.Text.{is_whitespace}

-- `str::is_empty`.
abbrev pub is_nil : String → Bool
is_nil String.[] = true
is_nil (String.◌∷◌ c s) = false

unfoldable pub trim_start : String → String
trim_start String.[] = String.[]
trim_start (String.◌∷◌ c s) =
    let rest = trim_start s in if is_whitespace (code c) then rest else String.◌∷◌ c s

unfoldable pub trim_end : String → String
trim_end String.[] = String.[]
trim_end (String.◌∷◌ c s) =
    let rest = trim_end s in
    if is_whitespace (code c) && is_nil rest then String.[] else String.◌∷◌ c rest

unfoldable pub trim : String → String
unfolding trim_start trim_end
trim s = trim_end (trim_start s)

unfoldable pub strip_prefix : String → String → Option String
strip_prefix String.[] s = some s
strip_prefix (String.◌∷◌ p ps) String.[] = none
strip_prefix (String.◌∷◌ p ps) (String.◌∷◌ c s) =
    if code p == code c then strip_prefix ps s else none

-- Text with no white space around it stays.
pub trim_id : (s : String) → trim_start s ≡ s → trim_end s ≡ s → trim s ≡ s
unfolding trim
trim_id s a b = rw (a, b) refl

-- A first character that is not white stays, and what follows is trimmed at its end.
pub trim-cons :
    (c : Char) (s : String)
    → is_whitespace (code c) ≡ false
    → trim_end s ≡ s
    → trim (String.◌∷◌ c s) ≡ String.◌∷◌ c s
unfolding trim
trim-cons c s h e = ground (arith, h, e)
