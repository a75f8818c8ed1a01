-- ===== src/Lsblk/Command/Laws.antt =====
-- What a run of `lsblk` returns, by what the command, the decoder and the reader return.
use topovgm.Prelude.{ℕ, ◌<>◌, ◌≡◌, refl, ◌∙◌, ap, false, Option, none, some, List, [], ◌∷◌}
use topovgm.Go.{
  ⊤, Error, text, is_error, join, Outcome, ok, fail, M, returned, pure, lift, reading, wrapping,
  as_value, ◌>>=◌, >>=-ok, >>=-fail, wrapping-ok, wrapping-fail, as_value-ok, as_value-fail,
}
use topovgm.Lsblk.Device.{BlockDevice, Column}
use topovgm.Lsblk.Command.{
  Shell, Document, command, run_into, lsblk, lsblk_args, blockdevices, not_executed, or_fail,
}

-- A value of type `error`, nil or not, as what `LSBLK` returns with the devices of a document.
abbrev pub or_devices : Option Error → Document → Outcome (List BlockDevice)
or_devices none doc = ok (blockdevices doc)
or_devices (some e) doc = fail e

module _ {W : Type 0} (sh : Shell W) where
  abbrev started : List Column → M W sh.Output
  started columns =
      let args = lsblk_args columns in sh.streamed_command (command sh args).0 (command sh args).1

  -- The rest of `runInto`, for an output that is open.
  abbrev read_output : sh.Output → M W Document
  read_output output = reading (sh.decode output) >>= λ decoded.
      as_value (sh.close output) >>= λ closed. or_fail (join (decoded.0 ∷ closed ∷ [])) decoded.1

  returned_value :
      (err : Option Error) (m : M W ⊤) (w : W) {v : W}
      → m w ≡ (returned err, v)
      → as_value m w ≡ (ok err, v)
  returned_value none m w h = as_value-ok m w h
  returned_value (some e) m w h = as_value-fail m w h

  or_fail-or_devices :
      (err : Option Error) (doc : Document) (w : W)
      → (or_fail err doc >>= λ d. pure (blockdevices d)) w ≡ (or_devices err doc, w)
  or_fail-or_devices none doc w = refl
  or_fail-or_devices (some e) doc w = refl

  -- Once the command runs, its output is decoded and then closed, also when it could not be decoded,
  -- and both errors are joined: the devices of the document are returned exactly when neither the
  -- decoder nor the close returned an error.
  pub lsblk_reads :
      (columns : List Column) (w : W) (decoded closed : Option Error) {output : sh.Output}
      {doc : Document} {w1 w2 w3 : W}
      → started columns w ≡ (ok output, w1)
      → sh.decode output w1 ≡ ((decoded, doc), w2)
      → sh.close output w2 ≡ (returned closed, w3)
      → lsblk sh columns w ≡ (or_devices (join (decoded ∷ closed ∷ [])) doc, w3)
  unfolding lsblk run_into
  lsblk_reads columns w decoded closed {output} {doc} {w1} {w2} {w3} ran reads closes =
      let err = join (decoded ∷ closed ∷ []) in
      let close = λ (d : Option Error × Document).
        as_value (sh.close output) >>= λ closed. or_fail (join (d.0 ∷ closed ∷ [])) d.1 in
      let deliver = λ (o : Outcome Document × W).
        let k : M W (List BlockDevice) = (lift o.0 >>= λ doc. pure (blockdevices doc)) in k o.1 in
      ap deliver (
        >>=-ok (wrapping not_executed (started columns)) read_output w
          (wrapping-ok not_executed (started columns) w ran)
        ∙ >>=-ok (reading (sh.decode output)) close w1 (ap (λ o. (ok o.0, o.1)) reads)
        ∙ >>=-ok (as_value (sh.close output)) (λ closed. or_fail (join (decoded ∷ closed ∷ [])) doc)
            w2 (returned_value closed (sh.close output) w2 closes))
      ∙ or_fail-or_devices err doc w3

  -- If the command cannot be run, its error is returned as a text behind a prefix: `errors.Is`
  -- finds no error in it.
  pub lsblk_hides_error :
      (columns : List Column) (w : W) {e : Error} {w1 : W}
      → started columns w ≡ (fail e, w1)
      → (err : Error) × (lsblk sh columns w ≡ (fail err, w1))
        × (text err ≡ "failed to execute command: " <> text e)
        × ((target : ℕ) → is_error err target ≡ false)
  unfolding lsblk run_into text is_error
  lsblk_hides_error columns w {e} ran = (
    not_executed e,
    >>=-fail (run_into sh (lsblk_args columns)) (λ doc. pure (blockdevices doc)) w
        (>>=-fail (wrapping not_executed (started columns)) read_output w
          (wrapping-fail not_executed (started columns) w ran)),
    refl,
    λ target. refl,
  )
