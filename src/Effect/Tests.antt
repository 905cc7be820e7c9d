-- ===== src/Effect/Tests.antt =====
-- A directory with one file, a temporary file beside it, and other processes that act.
use darm_guard.Prelude.{
  true, ◌&&◌, String, ◌≡◌, ◌≢◌, refl, ◌⊎◌, Option, none, some, [], ◌∷◌, ◌==◌, string_eq,
  if◌then◌else◌, arith, eq_iff,
}
use darm_guard.Prelude.Dict
use darm_guard.Prelude.Result.{ok}
use darm_guard.Intent.{present}
use darm_guard.Effect.{Node, regular, special, Disk, turn, at}
use darm_guard.Effect.Cas.{changed, cas_replace, cas_delete}
use darm_guard.Effect.Move.{rename_protocol}
use darm_guard.Effect.Replace.{calm, cas_replace-recorded}
use darm_guard.Effect.Undo.{before_all, cas_replace-present, cas_replace-loses}
use darm_guard.Effect.Delete.{Deleted, Spared, cas_delete_spares}
use darm_guard.Effect.Rename.{Whereabouts, rename_protocol-Whereabouts}

abbrev digest : String → String
digest c = c

abbrev new_file : Node
new_file = regular "new" none

abbrev old_file : Node
old_file = regular "old" none

abbrev two_files : Disk
two_files = ("tmp", new_file) ∷ ("a", old_file) ∷ []

abbrev only_tmp : Disk
only_tmp = ("tmp", new_file) ∷ []

abbrev linked : Disk
linked = ("tmp", new_file) ∷ ("a", special) ∷ []

abbrev only_a : Disk
only_a = ("a", old_file) ∷ []

abbrev same : Disk → Disk
same x = x

tmp-ne-a : ◌≢◌ {A = String} "tmp" "a"
tmp-ne-a e = ground (arith, eq_iff "tmp" "a")

cas_replace-recorded_example :
    (c : String) × (a : Option String) × (at "a" (turn (calm two_files)) ≡ some (regular c a))
    × (digest c ≡ "old")
unfolding cas_replace turn Dict.put Dict.get Dict.remove
cas_replace-recorded_example =
    cas_replace-recorded digest "tmp" "a" "old" (calm two_files) tt tmp-ne-a refl

cas_replace-present_example :
    let r = cas_replace digest true "tmp" "a" (some (present "old")) (before_all same two_files) in
    (r.0 ≡ ok (if digest "old" == "old" then none else some changed))
    × ((n : String)
        → at n r.1 ≡ (
            if "tmp" == n
            then none
            else if "a" == n && digest "old" == "old"
            then some new_file
            else Dict.get n two_files))
unfolding Dict.get
cas_replace-present_example =
    cas_replace-present digest "tmp" "a" new_file "old" none "old" (λ x. x) two_files tmp-ne-a refl
      refl

old-ne-other : digest "old" ≢ "other"
old-ne-other e = ground (arith, eq_iff "old" "other")

cas_replace-loses_example :
    let r =
      cas_replace digest true "tmp" "a"
        (some (present "other"))
        (record { disk = two_files; foreign = same ∷ Dict.put "a" (regular "later" none) ∷ [] }) in
    (r.0 ≡ ok (some changed))
    × ((n : String) → at n r.1 ≡ (if "tmp" == n then none else Dict.get n two_files))
unfolding Dict.get
cas_replace-loses_example =
    cas_replace-loses digest "tmp" "a" new_file "old" "later" none none "other" two_files tmp-ne-a
      old-ne-other refl refl

cas_delete_spares_example :
    let r = cas_delete digest true "tmp" "a" (some (present "other")) (calm only_a) in
    Deleted digest "other" old_file r ⊎ Spared "tmp" "a" old_file r
unfolding turn Dict.get
cas_delete_spares_example =
    cas_delete_spares digest "tmp" "a" old_file "other" (calm only_a) tt tmp-ne-a refl refl

private-ne-a : ◌≢◌ {A = String} ".p" "a"
private-ne-a e = ground (arith, eq_iff ".p" "a")

private-ne-b : ◌≢◌ {A = String} ".p" "b"
private-ne-b e = ground (arith, eq_iff ".p" "b")

private-ne-nil : ◌≢◌ {A = String} ".p" ""
private-ne-nil e = ground (arith, eq_iff ".p" "")

rename_protocol-Whereabouts_example : Whereabouts digest ".p" "a" "b" "old" none old_file (
    rename_protocol digest true "a" "b"
      (some (present "old"))
      (some (ok "attested"))
      ".p"
      none
      (calm only_a))
unfolding turn Dict.get
rename_protocol-Whereabouts_example =
    rename_protocol-Whereabouts digest ".p" "a" "b" "old" none old_file (some (ok "attested"))
      (calm only_a) private-ne-a private-ne-b private-ne-nil tt refl refl

renamed :
    (rename_protocol digest true "a" "b"
      (some (present "old"))
      (some (ok "attested"))
      ".p"
      none
      (calm only_a)).1.disk
    ≡ ("b", regular "old" (some "attested")) ∷ []
unfolding rename_protocol turn Dict.get Dict.put Dict.remove
renamed = refl

link_displaced :
    (cas_replace digest true "tmp" "a" (some (present "old")) (calm linked)).1.disk
    ≡ ("tmp", special) ∷ ("a", new_file) ∷ []
unfolding cas_replace turn Dict.get Dict.put Dict.remove
link_displaced = refl
