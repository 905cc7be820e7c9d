-- ===== src/Recovery/Calm.antt =====
-- What the recovery of a rename reads while no other process acts.
use darm_guard.Prelude.{
  true, false, String, ◌≡◌, refl, Option, none, some, string_eq, option_eq, ==-refl,
}
use darm_guard.Prelude.Dict
use darm_guard.Prelude.Dict.{Dict, get-put, get-remove}
use darm_guard.Prelude.Result.{ok}
use darm_guard.Intent.{present}
use darm_guard.Effect.{Node, regular, Disk, act, left, turn, kind_of, leaf_kind}
use darm_guard.Effect.Replace.{calm}
use darm_guard.Effect.Calls.{digest_at-regular, observed_node, leaf_state-calm}
use darm_guard.Host.{
  Host, slot, raw_attestation, attestation_of, as_text, read_attestation, observe, observed_of,
  observe_opened,
}
use darm_guard.Recovery.{digest_is, is_ours}

module _ (host : Host) where
  pub observe-calm :
      (path name : String) (n : Option Node) (d : Disk)
      → host.opened path ≡ slot name
      → Dict.get name d ≡ n
      → observe host path (calm d) ≡ (observed_node host.sha256 n, calm d)
  unfolding observe observe_opened observed_of
  observe-calm path name n d o g =
      rw (o, observe_opened) (rw (leaf_state-calm host.sha256 name n d g, observed_of) refl)

  pub is_ours-calm :
      (name : String) {c : String} {a : Option String} (d : Disk)
      → Dict.get name d ≡ some (regular c a)
      → is_ours host (some (present (host.sha256 c))) name (calm d) ≡ (ok true, calm d)
  unfolding is_ours digest_is leaf_kind kind_of turn act left
  is_ours-calm name {c} d g =
      rw g (rw (digest_at-regular host.sha256 name (calm d) g) (rw (==-refl (host.sha256 c)) refl))

  pub is_ours-gone :
      (name digest : String) (d : Disk)
      → Dict.get name d ≡ none
      → is_ours host (some (present digest)) name (calm d) ≡ (ok false, calm d)
  unfolding is_ours digest_is leaf_kind kind_of turn act left
  is_ours-gone name digest d g = rw g refl

  -- the bytes are text, where there are any
  abbrev pub IsText : Option String → Type 0
  IsText none = Unit {0}
  IsText (some bytes) = host.is_text bytes ≡ true

  pub read_attestation-calm :
      (name : String) {c : String} (a : Option String) (d : Disk)
      → Dict.get name d ≡ some (regular c a)
      → IsText a
      → read_attestation host name (calm d) ≡ (ok a, calm d)
  unfolding read_attestation raw_attestation attestation_of as_text turn act left
  read_attestation-calm name none d g t = rw g refl
  read_attestation-calm name (some bytes) d g t = rw g (rw t refl)
