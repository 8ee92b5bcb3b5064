-- ===== src/Prelude/Text.antt =====
-- Python's `str` as a list of code points, and its methods that the program calls.
use Prim.Native.Nat.{ℕ, zero, suc, ◌+◌, ◌-◌}
use Prim.Native.Char.{code}
use Prim.Native.String.{String}
use mathlib.Core.Bool.{Bool, true, false, ◌&&◌, ◌||◌}
use mathlib.Core.Path.{◌≡◌, refl}
use mathlib.Core.List.{List, [], ◌∷◌, ◌++◌}
use local_graph_rag.Prelude.Tests.{leb, nat_eqb, if◌then◌else◌}
use local_graph_rag.Prelude.Lists.{length, is_empty}

abbrev pub Str : Type 0
Str = List ℕ

-- A literal.
abbrev pub codes : String → Str
codes String.[] = []
codes (String.◌∷◌ c s) = code c ∷ codes s

-- `str.isspace` of one code point.
unfoldable pub is_space : ℕ → Bool
is_space c =
    (leb 9 c && leb c 13)
    || (leb 28 c && leb c 32)
    || nat_eqb c 133
    || nat_eqb c 160
    || nat_eqb c 5760
    || (leb 8192 c && leb c 8202)
    || nat_eqb c 8232
    || nat_eqb c 8233
    || nat_eqb c 8239
    || nat_eqb c 8287
    || nat_eqb c 12288

-- Drops the leading code points that pass the test (`str.lstrip`).
unfoldable pub drop_while : (ℕ → Bool) → Str → Str
drop_while p [] = []
drop_while p (c ∷ cs) = elim (p c) [ true ↦ drop_while p cs | false ↦ c ∷ cs ]

-- Drops the trailing code points that pass the test (`str.rstrip`).
unfoldable pub rstrip : (ℕ → Bool) → Str → Str
rstrip p [] = []
rstrip p (c ∷ cs) = let rest = rstrip p cs in if is_empty rest && p c then [] else c ∷ rest

-- s.strip(chars), the set of characters as a test
unfoldable pub strip_of : (ℕ → Bool) → Str → Str
unfolding drop_while rstrip
strip_of p s = rstrip p (drop_while p s)

-- s.strip()
unfoldable pub strip : Str → Str
unfolding strip_of is_space
strip s = strip_of is_space s

-- s.startswith(p)
unfoldable pub starts_with : Str → Str → Bool
starts_with [] s = true
starts_with (p ∷ ps) [] = false
starts_with (p ∷ ps) (c ∷ cs) = nat_eqb p c && starts_with ps cs

-- p in s
unfoldable pub occurs : Str → Str → Bool
unfolding starts_with
occurs p [] = starts_with p []
occurs p (c ∷ cs) = starts_with p (c ∷ cs) || occurs p cs

-- The loop of s.split(sep): `skip` code points of a separator are left to pass over, and `field`
-- holds what stands since the last separator.
unfoldable pub split_from : Str → ℕ → Str → Str → List Str
unfolding starts_with
split_from sep skip field [] = field ∷ []
split_from sep (suc skip) field (c ∷ cs) = split_from sep skip field cs
split_from sep zero field (c ∷ cs) = elim (starts_with sep (c ∷ cs)) [
  | true ↦ field ∷ split_from sep (length sep - 1) [] cs
  | false ↦ split_from sep zero (field ++ c ∷ []) cs
]

-- s.split(sep), for a separator that is not empty
unfoldable pub split_on : Str → Str → List Str
unfolding split_from
split_on sep s = split_from sep 0 [] s

-- sep.join(parts)
unfoldable pub join : Str → List Str → Str
join sep [] = []
join sep (p ∷ []) = p
join sep (p ∷ q ∷ ps) = p ++ (sep ++ join sep (q ∷ ps))

-- The line boundaries of `str.splitlines` (a carriage return and a newline together are one).
unfoldable pub is_line_break : ℕ → Bool
is_line_break c =
    (leb 10 c && leb c 13)
    || (leb 28 c && leb c 30)
    || nat_eqb c 133
    || nat_eqb c 8232
    || nat_eqb c 8233

-- The loop of s.splitlines(keepends): `line` holds the line that has begun.
unfoldable pub splitlines_from : Bool → Str → Str → List Str
unfolding is_line_break
splitlines_from keepends line [] = if is_empty line then [] else line ∷ []
splitlines_from keepends line (c ∷ []) = elim (is_line_break c) [
  | true ↦ (if keepends then line ++ c ∷ [] else line) ∷ []
  | false ↦ (line ++ c ∷ []) ∷ []
]
splitlines_from keepends line (c ∷ d ∷ cs) = elim (nat_eqb c 13 && nat_eqb d 10) [
  | true ↦ (if keepends then line ++ c ∷ d ∷ [] else line) ∷ splitlines_from keepends [] cs
  | false ↦ elim (is_line_break c) [
    | true ↦ (if keepends then line ++ c ∷ [] else line) ∷ splitlines_from keepends [] (d ∷ cs)
    | false ↦ splitlines_from keepends (line ++ c ∷ []) (d ∷ cs)
  ]
]

-- s.splitlines(keepends=keepends)
unfoldable pub splitlines : Bool → Str → List Str
unfolding splitlines_from
splitlines keepends s = splitlines_from keepends [] s

-- s.lower() for the ASCII letters, and for the two other letters whose lower case holds an ASCII
-- letter. Every other code point is left: its lower case is not ASCII, and the callers test for
-- ASCII alone.
unfoldable pub lower_code : ℕ → Str
lower_code c =
    if leb 65 c && leb c 90
    then (c + 32) ∷ []
    else if nat_eqb c 304
    then 105 ∷ 775 ∷ []
    else if nat_eqb c 8490
    then 107 ∷ []
    else c ∷ []

unfoldable pub lower : Str → Str
unfolding lower_code
lower [] = []
lower (c ∷ cs) = lower_code c ++ lower cs

lines_test : splitlines false (codes "a\r\nb\n\nc") ≡ codes "a" ∷ codes "b" ∷ [] ∷ codes "c" ∷ []
unfolding splitlines
lines_test = refl

split_test : split_on (codes "ab") (codes "xababy") ≡ codes "x" ∷ [] ∷ codes "y" ∷ []
unfolding split_on
split_test = refl

strip_test : strip (codes "  x y ") ≡ codes "x y"
unfolding strip
strip_test = refl
