-- ===== src/Prelude/Text.antt =====
-- Python's `str` operations that the source uses, over the native texts. A separator is given by
-- the code point of its one character.
use Prim.Native.Nat.{ℕ, zero, suc, ◌/◌, ◌%◌}
use Prim.Native.Char.{Char, code}
use Prim.Native.String.{String, ◌++◌ as concat}
use mathlib.Core.Path.{◌≡◌}
use mathlib.Core.Bool.{Bool, true, false, ◌&&◌, ◌||◌}
use mathlib.Core.List.{List, [], ◌∷◌}
use mathlib.Core.Option.{Option, none, some}
use text.Mathlib.Text.{◌==◌}
use text.Mathlib.TextEquality.{Char-path}
use darm_guard.Prelude.Tests.{leb, ltb, nat_beq, nat_beq_iff, if◌then◌else◌}

-- `s.startswith(p)`
unfoldable pub starts_with : String → String → Bool
starts_with s String.[] = true
starts_with String.[] (String.◌∷◌ d p) = false
starts_with (String.◌∷◌ c s) (String.◌∷◌ d p) = nat_beq (code c) (code d) && starts_with s p

-- `s.endswith(p)`
unfoldable pub ends_with : String → String → Bool
ends_with String.[] p = p == String.[]
ends_with (String.◌∷◌ c s) p = String.◌∷◌ c s == p || ends_with s p

-- `s.split(sep)`, never empty: its first part and the others
unfoldable pub parts : ℕ → String → String × List String
parts sep String.[] = (String.[], [])
parts sep (String.◌∷◌ c s) =
    let (h, t) = parts sep s in
    if nat_beq (code c) sep then (String.[], h ∷ t) else (String.◌∷◌ c h, t)

unfoldable pub split : ℕ → String → List String
unfolding parts
split sep s = let (h, t) = parts sep s in h ∷ t

-- `s.rsplit(sep, 1)[-1]`: the last part
unfoldable pub last_part : String → List String → String
last_part h [] = h
last_part h (x ∷ t) = last_part x t

-- the parts without the last one
unfoldable pub init_parts : String → List String → List String
init_parts h [] = []
init_parts h (x ∷ t) = h ∷ init_parts x t

-- `s[n:]` behind a prefix of `s`
unfoldable pub after : String → String → String
after s String.[] = s
after String.[] (String.◌∷◌ d p) = String.[]
after (String.◌∷◌ c s) (String.◌∷◌ d p) = after s p

pub code_eq : (c d : Char) → nat_beq (code c) (code d) ≡ true → c ≡ d
code_eq c d h = Char-path c d ((nat_beq_iff (code c) (code d)).0 h)

-- Python's `str.isspace` on one character, which is also `\s`
abbrev pub is_space : ℕ → Bool
is_space c =
    (leb 9 c && leb c 13)
    || (leb 28 c && leb c 32)
    || nat_beq c 133
    || nat_beq c 160
    || nat_beq c 5760
    || (leb 8192 c && leb c 8202)
    || nat_beq c 8232
    || nat_beq c 8233
    || nat_beq c 8239
    || nat_beq c 8287
    || nat_beq c 12288

-- the longest run of characters that pass a test, and the rest
unfoldable pub span : (ℕ → Bool) → String → String × String
span p String.[] = (String.[], String.[])
span p (String.◌∷◌ c s) =
    let (run, rest) = span p s in
    if p (code c) then (String.◌∷◌ c run, rest) else (String.[], String.◌∷◌ c s)

-- `s.lstrip()`, `s.rstrip()`, `s.strip()`
unfoldable pub lstrip : String → String
unfolding span
lstrip s = (span is_space s).1

unfoldable pub rstrip : String → String
rstrip String.[] = String.[]
rstrip (String.◌∷◌ c s) =
    let rest = rstrip s in
    if rest == String.[] && is_space (code c) then String.[] else String.◌∷◌ c rest

unfoldable pub strip : String → String
unfolding lstrip rstrip
strip s = rstrip (lstrip s)

-- `s[:-1]`
unfoldable pub drop_last : String → String
drop_last String.[] = String.[]
drop_last (String.◌∷◌ c s) = if s == String.[] then String.[] else String.◌∷◌ c (drop_last s)

-- `str(n)` for a natural number
digit : ℕ → String
digit n = elim n [
  | zero ↦ "0"
  | suc zero ↦ "1"
  | suc (suc zero) ↦ "2"
  | suc (suc (suc zero)) ↦ "3"
  | suc (suc (suc (suc zero))) ↦ "4"
  | suc (suc (suc (suc (suc zero)))) ↦ "5"
  | suc (suc (suc (suc (suc (suc zero))))) ↦ "6"
  | suc (suc (suc (suc (suc (suc (suc zero)))))) ↦ "7"
  | suc (suc (suc (suc (suc (suc (suc (suc zero))))))) ↦ "8"
  | _ ↦ "9"
]

digits_from : ℕ → ℕ → String
unfolding digit
digits_from zero n = ""
digits_from (suc f) n =
    let more = digits_from f (n / 10) in if ltb n 10 then digit n else concat more (digit (n % 10))

-- A number has fewer digits than its successor, which is fuel enough.
unfoldable pub decimal : ℕ → String
unfolding digits_from
decimal n = digits_from (suc n) n

-- `s.split()`: the words between runs of white space
word_before : String → List String → List String
word_before w ws = if w == "" then ws else w ∷ ws

words_from : String → String × List String
unfolding word_before
words_from String.[] = ("", [])
words_from (String.◌∷◌ c s) =
    let (w, ws) = words_from s in
    if is_space (code c) then ("", word_before w ws) else (String.◌∷◌ c w, ws)

unfoldable pub words : String → List String
unfolding words_from word_before
words s = let (w, ws) = words_from s in word_before w ws

-- `s.partition(sep)`, the middle part as whether the separator occurs
unfoldable pub partition : ℕ → String → String × Bool × String
partition sep String.[] = ("", false, "")
partition sep (String.◌∷◌ c s) =
    let (before, found, behind) = partition sep s in
    if nat_beq (code c) sep then ("", true, s) else (String.◌∷◌ c before, found, behind)

-- `s.rpartition(sep)`, where the separator occurs
unfoldable pub rpartition : ℕ → String → Option (String × String)
rpartition sep String.[] = none
rpartition sep (String.◌∷◌ c s) = elim (rpartition sep s) [
  | some (before, behind) ↦ some (String.◌∷◌ c before, behind)
  | none ↦ if nat_beq (code c) sep then some ("", s) else none
]

-- `all(p(c) for c in s)`
unfoldable pub all_chars : (ℕ → Bool) → String → Bool
all_chars p String.[] = true
all_chars p (String.◌∷◌ c s) = p (code c) && all_chars p s

-- `s[:-len(p)]` for a text that ends with `p`
unfoldable pub before_suffix : String → String → String
before_suffix String.[] p = String.[]
before_suffix (String.◌∷◌ c s) p =
    if String.◌∷◌ c s == p then String.[] else String.◌∷◌ c (before_suffix s p)

-- `sep.join(parts)`
unfoldable pub join : String → List String → String
join sep [] = ""
join sep (x ∷ []) = x
join sep (x ∷ y ∷ rest) = concat x (concat sep (join sep (y ∷ rest)))
