-- ===== src/Lsblk/Command.antt =====
-- `LSBLK` and `runInto`: the command line and what is read of its output.
pub mod Laws
use topovgm.Prelude.{
  String, ◌<>◌, Bool, Option, none, some, List, [], ◌∷◌, ◌++◌, ◌==◌, string_eq, if◌then◌else◌,
}
use topovgm.Go.{
  ⊤, Error, message, text, join, fail, M, pure, lift, reading, wrapping, ◌>>=◌, as_value,
}
use topovgm.Lsblk.Device.{BlockDevice, Column}

-- `*map[string][]BlockDevice`
abbrev pub Document : Type 0
Document = List (String × List BlockDevice)

-- What `runInto` calls: `lvm2go.IsContainerized` and `lvm2go.StreamedCommand` (with LC_ALL=C), and
-- the reader of its output, a JSON decoder.
pub record Shell (W : Type 0) : Type 1 where
  pub Output : Type 0
  pub is_containerized : Bool
  pub streamed_command : String → List String → M W Output
  pub decode : Output → W → (Option Error × Document) × W
  pub close : Output → M W ⊤

-- `strings.Join`
abbrev pub join_columns : List String → String
join_columns [] = ""
join_columns (x ∷ []) = x
join_columns (x ∷ (y ∷ xs)) = x <> "," <> join_columns (y ∷ xs)

abbrev lsblk_command : String
lsblk_command = "/usr/bin/lsblk"

abbrev nsenter_command : String
nsenter_command = "/usr/bin/nsenter"

abbrev pub nsenter_args : List String
nsenter_args = "-m" ∷ "-u" ∷ "-i" ∷ "-n" ∷ "-p" ∷ "-t" ∷ "1" ∷ lsblk_command ∷ []

-- `blockDeviceMap["blockdevices"]`
unfoldable pub blockdevices : Document → List BlockDevice
blockdevices [] = []
blockdevices ((k, devs) ∷ doc) = if "blockdevices" == k then devs else blockdevices doc

-- `fmt.Errorf("failed to execute command: %v", err)`, which does not wrap.
abbrev pub not_executed : Error → Error
not_executed e = message ("failed to execute command: " <> text e)

abbrev pub or_fail : {W A : Type 0} → Option Error → A → M W A
or_fail none a = pure a
or_fail (some e) a = lift (fail e)

-- `args` of `LSBLK`.
abbrev pub lsblk_args : List Column → List String
lsblk_args columns = "--json" ∷ "--bytes" ∷ "-o" ∷ join_columns columns ∷ []

module _ {W : Type 0} (sh : Shell W) where
  -- The program and its arguments.
  abbrev pub command : List String → String × List String
  command args =
      if sh.is_containerized then (nsenter_command, nsenter_args ++ args) else (lsblk_command, args)

  -- `runInto`. The output is closed also when it could not be decoded.
  unfoldable pub run_into : List String → M W Document
  run_into args = do
    output ← wrapping not_executed (sh.streamed_command (command args).0 (command args).1)
    decoded ← reading (sh.decode output)
    closed ← as_value (sh.close output)
    or_fail (join (decoded.0 ∷ closed ∷ [])) decoded.1

  -- `LSBLK`
  unfoldable pub lsblk : List Column → M W (List BlockDevice)
  unfolding run_into blockdevices
  lsblk columns = do doc ← run_into (lsblk_args columns); pure (blockdevices doc)
