-- ===== src/Audit/Tests.antt =====
-- A hash without collisions, and a log of two entries under it.
use mathlib.Core.Logic.{◌↔◌}
use darm_guard.Prelude.{ℕ, zero, suc, code, ap, String, ◌≡◌, refl, Option, none, some, [], arith}
use darm_guard.Prelude.Result.{ok}
use darm_guard.Audit.{
  Stamp, empty, at, unreadable, AuditLog, append_entry, chain_problems, empty_log, load, entries,
}
use darm_guard.Audit.Chain.{load-append_entry}
use darm_guard.Audit.Tamper.{IsInjective, load_unique}
use darm_guard.Audit.Evidence.{IsReadable, chain_problems-load}

-- a number in unary, before a text
unfoldable unary : ℕ → String → String
unary zero t = String.◌∷◌ "b" t
unary (suc n) t = String.◌∷◌ "a" (unary n t)

-- a text, with an end that none of its characters can be mistaken for, before a text
unfoldable quoted : String → String → String
quoted String.[] t = String.◌∷◌ "b" t
quoted (String.◌∷◌ c s) t = String.◌∷◌ "a" (String.◌∷◌ c (quoted s t))

kind : Option Stamp → ℕ
kind none = 0
kind (some empty) = 1
kind (some (at n)) = 2
kind (some (unreadable s)) = 3

payload : Option Stamp → String → String
unfolding unary quoted
payload none t = t
payload (some empty) t = t
payload (some (at n)) t = unary n t
payload (some (unreadable s)) t = quoted s t

text : Option String → String
text none = ""
text (some x) = String.◌∷◌ "c" x

-- the number that the caller recorded, the time, and the hash before, one after another
unfoldable pub toy_hash : ℕ → Option String → Option Stamp → String
unfolding unary kind payload text
toy_hash c p s = unary c (unary (kind s) (payload s (text p)))

first_code : String → ℕ
first_code String.[] = 0
first_code (String.◌∷◌ c t) = code c

unary-injective : (m n : ℕ) (t u : String) → unary m t ≡ unary n u → (m ≡ n) × (t ≡ u)
unfolding unary first_code
unary-injective zero zero t u h = (refl, cc)
unary-injective zero (suc n) t u h = absurd (omega (arith, ap first_code h))
unary-injective (suc m) zero t u h = absurd (omega (arith, ap first_code h))
unary-injective (suc m) (suc n) t u h = let (e, f) = unary-injective m n t u cc in (omega arith, f)

quoted-injective : (x y t u : String) → quoted x t ≡ quoted y u → (x ≡ y) × (t ≡ u)
unfolding quoted first_code
quoted-injective String.[] String.[] t u h = (refl, cc)
quoted-injective String.[] (String.◌∷◌ d y) t u h = absurd (omega (arith, ap first_code h))
quoted-injective (String.◌∷◌ c x) String.[] t u h = absurd (omega (arith, ap first_code h))
quoted-injective (String.◌∷◌ c x) (String.◌∷◌ d y) t u h =
    let (e, f) = quoted-injective x y t u cc in (cc, f)

stamp-injective :
    (a b : Option Stamp) (t u : String)
    → kind a ≡ kind b
    → payload a t ≡ payload b u
    → (a ≡ b) × (t ≡ u)
unfolding kind payload
stamp-injective none none t u k h = (refl, h)
stamp-injective none (some empty) t u k h = absurd (omega arith)
stamp-injective none (some (at n)) t u k h = absurd (omega arith)
stamp-injective none (some (unreadable y)) t u k h = absurd (omega arith)
stamp-injective (some empty) none t u k h = absurd (omega arith)
stamp-injective (some empty) (some empty) t u k h = (refl, h)
stamp-injective (some empty) (some (at n)) t u k h = absurd (omega arith)
stamp-injective (some empty) (some (unreadable y)) t u k h = absurd (omega arith)
stamp-injective (some (at m)) none t u k h = absurd (omega arith)
stamp-injective (some (at m)) (some empty) t u k h = absurd (omega arith)
stamp-injective (some (at m)) (some (at n)) t u k h =
    let (e, f) = unary-injective m n t u h in (cc, f)
stamp-injective (some (at m)) (some (unreadable y)) t u k h = absurd (omega arith)
stamp-injective (some (unreadable x)) none t u k h = absurd (omega arith)
stamp-injective (some (unreadable x)) (some empty) t u k h = absurd (omega arith)
stamp-injective (some (unreadable x)) (some (at n)) t u k h = absurd (omega arith)
stamp-injective (some (unreadable x)) (some (unreadable y)) t u k h =
    let (e, f) = quoted-injective x y t u h in (cc, f)

text-injective : (p q : Option String) → text p ≡ text q → p ≡ q
unfolding text
text-injective none none h = refl
text-injective none (some x) h = absurd cc
text-injective (some x) none h = absurd cc
text-injective (some x) (some y) h = cc

pub toy_hash-IsInjective : IsInjective toy_hash
unfolding toy_hash
toy_hash-IsInjective c d p q s t h =
    let (e, rest) =
      unary-injective c d (unary (kind s) (payload s (text p)))
        (unary (kind t) (payload t (text q))) h in
    let (k, tail) =
      unary-injective (kind s) (kind t) (payload s (text p)) (payload t (text q)) rest in
    let (stamps, texts) = stamp-injective s t (text p) (text q) k tail in
    (e, text-injective p q texts, stamps)

abbrev first_log : AuditLog ℕ
first_log = append_entry toy_hash 7 100 empty_log

abbrev pub second_log : AuditLog ℕ
second_log = append_entry toy_hash 8 90 first_log

load-append_entry_example : load toy_hash second_log.rows ≡ ok second_log
unfolding load append_entry toy_hash
load-append_entry_example = load-append_entry toy_hash first_log.rows 8 90 {log = first_log} refl

load_unique_example : entries second_log.rows ≡ entries second_log.rows
unfolding load append_entry toy_hash
load_unique_example =
    load_unique toy_hash second_log.rows second_log.rows {log = second_log} {log' = second_log}
      toy_hash-IsInjective refl refl refl refl

chain_problems-load_example :
    ((chain_problems toy_hash second_log.rows ≡ []) × IsReadable toy_hash (entries second_log.rows))
    ↔ ((log : AuditLog ℕ) × (load toy_hash second_log.rows ≡ ok log))
chain_problems-load_example = chain_problems-load toy_hash second_log.rows
