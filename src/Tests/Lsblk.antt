-- ===== src/Tests/Lsblk.antt =====
-- A run of `lsblk` in a container, whose output is a document already.
use topovgm.Prelude.{ℕ, ◌<>◌, ◌≡◌, refl, true, false, none, some, List, [], ◌∷◌}
use topovgm.Go.{⊤, Error, text, is_error, join, ok, fail, external}
use topovgm.Lsblk.{Column}
use topovgm.Lsblk.Command.{Document, Shell, lsblk}
use topovgm.Lsblk.Command.Laws.{or_devices, lsblk_reads, lsblk_hides_error}
use topovgm.Tests.Inputs.{loop_devices}

abbrev columns : List Column
columns = "PATH" ∷ "TYPE" ∷ []

abbrev document : Document
document = ("blockdevices", loop_devices) ∷ []

abbrev broken_pipe : Error
broken_pipe = external 4 "broken pipe"

-- A shell that runs `lsblk`, and whose reader reports an error when it is closed.
abbrev shell : Shell ⊤
shell = record {
  Output = Document;
  is_containerized = true;
  streamed_command = λ program args w. (ok document, w);
  decode = λ output w. ((none, output), w);
  close = λ output w. (fail broken_pipe, w);
}

abbrev no_shell : Shell ⊤
no_shell = record shell { streamed_command = λ program args w. (fail broken_pipe, w) }

lsblk_reads_example :
    lsblk shell columns tt ≡ (or_devices (join (none ∷ some broken_pipe ∷ [])) document, tt)
lsblk_reads_example = lsblk_reads shell columns tt none (some broken_pipe) refl refl refl

lsblk_hides_error_example :
    (err : Error) × (lsblk no_shell columns tt ≡ (fail err, tt))
    × (text err ≡ "failed to execute command: " <> text broken_pipe)
    × ((target : ℕ) → is_error err target ≡ false)
lsblk_hides_error_example = lsblk_hides_error no_shell columns tt refl
