-- ===== src/Host.antt =====
-- darm_guard/broker.py, `_observe` and `_read_attestation`: what the broker runs on, and the parts of
-- its code that act on the disk and may fail.
use darm_guard.Prelude.{Bool, true, false, String, Option, none, some, List, if◌then◌else◌}
use darm_guard.Prelude.Result.{Result, ok, err}
use darm_guard.Intent.{Observed, absent, unavailable}
use darm_guard.Attest.{Scheme, Raw, Keys}
use darm_guard.Journal.{Record}
use darm_guard.Effect.{
  Node, regular, special, Disk, World, Outcome, Errno, no_workspace, not_text, turn, at, leaf_state,
}

-- What `_open_parent` and, where it fails, `_path_problem` say of a path: the directory and the leaf
-- that it leads to, that a directory on it is missing, or why it is refused.
pub data Opened : Type 0 where
  slot : String → Opened
  missing_directory : Opened
  -- the workspace itself cannot be opened, and an `OSError` leaves `_open_parent`
  unopened : Opened
  refused : String → Opened

-- `_open_parent` raises
unfoldable pub raises : Opened → Bool
raises unopened = true
raises (slot name) = false
raises missing_directory = false
raises (refused why) = false

-- What the broker runs on. `decode` reads the bytes of an attestation, `beside` is a name in the
-- directory of a slot, `describe` is the text of an error. The walk leads to the same directories
-- whenever it is repeated. `is_link`, `has_other_names` and `listing` are what `stat` and `listdir` say
-- of a name, `is_text` whether the bytes of an attestation are UTF-8, `decode_text` what text mode
-- reads from a file's content, if it can be decoded, `can_close` whether a verdict can be appended
-- behind those that the start has appended, `keeps_attributes` whether the file system keeps a file's
-- attestation, and `encode` writes one as bytes.
pub record Host : Type 0 where
  pub scheme : Scheme
  pub hmac : String → String → String
  pub sha256 : String → String
  pub decode : String → Raw
  pub keys : Option Keys
  pub opened : String → Opened
  pub beside : String → String → String
  pub has_renameat2 : Bool
  pub describe : Errno → String
  pub is_link : String → Disk → Bool
  pub has_other_names : String → Disk → Bool
  pub is_text : String → Bool
  pub decode_text : String → Option String
  pub can_close : List Record → Bool
  pub keeps_attributes : Bool
  pub listing : String → Disk → Result Errno (List String)
  pub encode : Raw → String

-- a part of the code that acts on the disk, and that an error ends
abbrev pub Io : Type 0 → Type 0
Io A = World → Outcome A

abbrev pub followed : {A B : Type 0} → (A → Io B) → Outcome A → Outcome B
followed f (ok a, w) = f a w
followed f (err e, w) = (err e, w)

infixl 5 ◌>>=◌ ◌>>◌
abbrev pub ◌>>=◌ : {A B : Type 0} → Io A → (A → Io B) → Io B
◌>>=◌ m f w = followed f (m w)

abbrev pub ◌>>◌ : {B : Type 0} → Io (Unit {0}) → Io B → Io B
m >> k = m >>= λ _. k

abbrev pub give : {A : Type 0} → A → Io A
give a w = (ok a, w)

-- a call without errors
abbrev pub safe : {A : Type 0} → (World → A × World) → Io A
safe m w = let (a, w') = m w in (ok a, w')

unfoldable pub attestation_of : Option Node → Option String
attestation_of (some (regular c a)) = a
attestation_of (some special) = none
attestation_of none = none

-- the bytes of the attestation of a file, or `None` where it cannot be opened or has none
unfoldable pub raw_attestation : String → World → Option String × World
unfolding turn attestation_of
raw_attestation name w = (attestation_of (at name (turn w)), turn w)

abbrev pub or_empty : Option String → String
or_empty none = ""
or_empty (some s) = s

module _ (host : Host) where
  unfoldable pub as_text : Option String → World → Outcome (Option String)
  as_text none w = (ok none, w)
  as_text (some bytes) w = if host.is_text bytes then (ok (some bytes), w) else (err not_text, w)

  -- the attestation of a file as text, behind the walk of `_read_attestation`; only an `OSError` is
  -- caught there
  unfoldable pub read_attestation : String → Io (Option String)
  unfolding raw_attestation as_text
  read_attestation name w = let (bytes, w') = raw_attestation name w in as_text bytes w'

  unfoldable pub observed_of : Outcome Observed → Observed × World
  observed_of (ok o, w) = (o, w)
  observed_of (err e, w) = (unavailable (host.describe e), w)

  unfoldable pub observe_opened : Opened → World → Observed × World
  unfolding observed_of leaf_state
  observe_opened (slot name) w = observed_of (leaf_state host.sha256 name w)
  observe_opened missing_directory w = (absent, w)
  -- not reached: the callers raise before they observe
  observe_opened unopened w = (unavailable (host.describe no_workspace), w)
  observe_opened (refused why) w = (unavailable why, w)

  -- `_observe`
  unfoldable pub observe : String → World → Observed × World
  unfolding observe_opened
  observe path w = observe_opened (host.opened path) w
