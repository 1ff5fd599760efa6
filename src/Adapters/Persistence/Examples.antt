-- ===== src/Adapters/Persistence/Examples.antt =====
-- Runs of the state file on concrete inputs: a disk that is the text of one file.
use pm.Base.{◌≡◌, ◌↔◌, refl, sym, ap, ◌∙◌, [], ◌∷◌, Memᴰ, none, some, Text, codes, Result, ok}
use pm.Adapters.Persistence.{
  DumpDocument, StateDto, encode_states, encode_state, decode_state, decoded, checked,
}
use pm.Adapters.Persistence.RoundTrip.{decode_state_iff}
use pm.Adapters.Persistence.Store.{
  Files, Yaml, AppsFileError, load, load_read, save, read_document, read_optional, rejoin_each,
  rejoin, joined, collect, add_rejoined, write_atomically, write_private, fill, stranded_of,
}
use pm.Adapters.Persistence.Store.Restores.{IsDisk, load-save}
use pm.Adapters.Persistence.Store.Survives.{IsKept, load-IsKept}
use pm.Entities.Runtime.{validate_consistency}
use pm.Entities.Spec.{AppSpec}
use pm.Entities.Status.{parse, as_str}
use pm.Usecases.Ports.{DumpContents}
use pm.Usecases.Samples.{spec, running, table-IsTable}

abbrev disk : Files Text
disk = record {
  read_to_string = λ path w. (ok w, w);
  open_truncated = λ path w. (ok tt, w);
  write_all = λ path contents w. (ok tt, contents);
  flush = λ path w. (ok tt, w);
  rename = λ from to w. (ok tt, w);
}

-- The format of one document.
abbrev format : DumpDocument → Yaml
format document = record { to_string = λ d. codes "saved"; from_str = λ raw. ok document }

abbrev saved : DumpDocument
saved = encode_states (running ∷ []) (some (codes "boot"))

abbrev resolve : Text → Text → Result AppSpec AppsFileError × Text
resolve name w = (ok spec, w)

disk-IsDisk : IsDisk disk
disk-IsDisk = record {
  gives_back = λ staged path contents w w1 w2 w3 w4 opened wrote flushed renamed.
      let same = ap (λ p. p.1) wrote ∙ ap (λ p. p.1) flushed ∙ ap (λ p. p.1) renamed in
      ap (λ t. (ok t, w4)) (sym same);
}

load-save_example :
    (load resolve (codes "/state") disk (format saved) (codes "saved")).0
    ≡ ok (record { records = running ∷ []; stranded = []; boot = some (codes "boot") })
unfolding save write_atomically write_private fill
load-save_example =
    load-save disk (format saved) disk-IsDisk resolve (codes "/state") (running ∷ [])
      (some (codes "boot")) [] (codes "saved") table-IsTable.sound ((λ w. refl), tt) refl refl

-- A stored service of a status that is not known.
abbrev unknown : StateDto
unknown = record (encode_state running) {
  runtime = record (encode_state running).runtime { status = codes "lost" };
}

abbrev mixed : DumpDocument
mixed = record { services = encode_state running ∷ unknown ∷ []; boot = none }

abbrev contents : DumpContents
contents = record { records = running ∷ []; stranded = stranded_of unknown ∷ []; boot = none }

load-IsKept_example : IsKept unknown contents
unfolding load load_read read_document read_optional rejoin_each rejoin joined collect add_rejoined
    decode_state decoded checked encode_state parse as_str validate_consistency
load-IsKept_example =
    load-IsKept resolve (codes "/state") disk (format mixed) [] [] [] mixed contents unknown refl
      refl (Memᴰ.tail (Memᴰ.head refl))

decode_state_iff_example : (decode_state (encode_state running) ≡ ok running.runtime) ↔ (
    (encode_state running ≡ encode_state running) × (validate_consistency running.runtime ≡ ok tt))
decode_state_iff_example = decode_state_iff spec (encode_state running) running.runtime
