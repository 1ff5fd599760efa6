-- ===== src/Adapters/Persistence/Store.antt =====
-- adapters/src/persistence/yaml_store.rs, with the helpers of fs_util.rs and private_file.rs that it
-- calls. The file system, the YAML of a document and the resolver of declarations are parameters.
-- What `join_all` runs at once is run in the order of the list, and warnings are left out.
pub mod Survives
pub mod Restores
use pm.Base.{Option, none, some, List, [], ◌∷◌, ◌++◌, map, Text, codes, Result, ok, err, map_err}
use pm.Adapters.Persistence.{StateDto, DumpDocument, IdentityDto, decode_state, encode_states}
use pm.Entities.Runtime.{ProcessRuntime}
use pm.Entities.Spec.{AppSpec}
use pm.Usecases.Handover.{ServiceSnapshot}
use pm.Usecases.Ports.{
  DumpContents, DumpError, read_failed, write_failed, unreadable_state, StrandedProcess,
}
use pm.Usecases.Record.{ProcessRecord}

-- An error of the file system: that there is no such file, or another, with its text.
pub data IoError : Type 0 where
  not_found other_error : (reason : Text) → IoError

abbrev pub io_message : IoError → Text
io_message (not_found reason) = reason
io_message (other_error reason) = reason

-- An error of the declarations: a part of them is encrypted and cannot be read, or another. These
-- are the cases that `rejoin` tells apart.
pub data AppsFileError : Type 0 where
  enc_file other_failure : (reason : Text) → AppsFileError

pub record Files (W : Type 0) : Type 0 where
  pub read_to_string : Text → W → Result Text IoError × W
  pub open_truncated : Text → W → Result (Unit {0}) IoError × W
  pub write_all : (path contents : Text) → W → Result (Unit {0}) IoError × W
  pub flush : Text → W → Result (Unit {0}) IoError × W
  pub rename : (from to : Text) → W → Result (Unit {0}) IoError × W

pub record Yaml : Type 0 where
  pub to_string : DumpDocument → Text
  pub from_str : Text → Result DumpDocument Text

unfoldable pub with_suffix : Text → Text → Text
with_suffix path suffix = path ++ suffix

abbrev pub tmp_suffix : Text
tmp_suffix = codes ".tmp"

unfoldable pub staging_path : Text → Text
unfolding with_suffix
staging_path path = with_suffix path tmp_suffix

abbrev pub token_of : Option IdentityDto → Option Text
token_of none = none
token_of (some identity) = some identity.token

unfoldable pub stranded_of : StateDto → StrandedProcess
stranded_of state = record {
  name = state.name;
  pid = state.runtime.pid;
  token = token_of state.runtime.identity;
}

unfoldable pub snapshot_of : StateDto → ServiceSnapshot
snapshot_of state = record { name = state.name; pid = state.runtime.pid }

pub data Rejoined : Type 0 where
  rejoined : ProcessRecord → Rejoined
  stranded : StrandedProcess → Rejoined

-- A record or an orphan, added to what stands behind it.
unfoldable pub add_rejoined : Rejoined → DumpContents → DumpContents
add_rejoined (rejoined r) contents = record contents { records = r ∷ contents.records }
add_rejoined (stranded orphan) contents = record contents { stranded = orphan ∷ contents.stranded }

-- The loop over the outcomes, which the first error ends.
unfoldable pub collect :
    List (Result Rejoined DumpError) → (boot : Option Text) → Result DumpContents DumpError
unfolding add_rejoined
collect [] boot = ok (record { records = []; stranded = []; boot = boot })
collect (err e ∷ outcomes) boot = err e
collect (ok outcome ∷ outcomes) boot = elim (collect outcomes boot) [
  | err e ↦ err e
  | ok contents ↦ ok (add_rejoined outcome contents)
]

module _ {W : Type 0} (files : Files W) where
  unfoldable pub read_optional : Text → W → Result (Option Text) IoError × W
  read_optional path w =
      let (read, w') = files.read_to_string path w in
      (
        (elim read [
          | ok text ↦ ok (some text)
          | err (not_found reason) ↦ ok none
          | err (other_error reason) ↦ err (other_error reason)
        ]),
        w',
      )

  -- `fill`: the file is flushed also after a write that failed, whose error comes first.
  unfoldable pub fill : Text → Text → W → Result (Unit {0}) IoError × W
  fill path contents w =
      let (written, w') = files.write_all path contents w in
      let (flushed, w'') = files.flush path w' in
      ((elim written [ err e ↦ err e | ok _ ↦ flushed ]), w'')

  unfoldable pub write_private : Text → Text → W → Result (Unit {0}) IoError × W
  unfolding fill
  write_private path contents w =
      let (opened, w') = files.open_truncated path w in
      elim opened [ err e ↦ (err e, w') | ok _ ↦ fill path contents w' ]

  unfoldable pub write_atomically : Text → Text → W → Result (Unit {0}) DumpError × W
  unfolding write_private staging_path
  write_atomically path contents w =
      let staged = staging_path path in
      let (written, w') = write_private staged contents w in
      let (renamed, w'') = files.rename staged path w' in
      elim written [
        | err e ↦ (err (write_failed staged (io_message e)), w')
        | ok _ ↦ (map_err (λ e. write_failed path (io_message e)) renamed, w'')
      ]

module _ {W : Type 0} (files : Files W) (yaml : Yaml) where
  -- `None` is a file that is not there.
  unfoldable pub read_document : Text → W → Result (Option DumpDocument) DumpError × W
  unfolding read_optional
  read_document path w =
      let (read, w') = read_optional files path w in
      (
        (elim read [
          | err e ↦ err (read_failed path (io_message e))
          | ok none ↦ ok none
          | ok (some raw) ↦ elim (yaml.from_str raw) [
            | err reason ↦ err (read_failed path reason)
            | ok document ↦ ok (some document)
          ]
        ]),
        w',
      )

  unfoldable pub dump_snapshot : Text → W → Result (List ServiceSnapshot) DumpError × W
  unfolding read_document
  dump_snapshot path w =
      let (read, w') = read_document path w in
      (
        (elim read [
          | err e ↦ err e
          | ok none ↦ ok []
          | ok (some document) ↦ ok (map snapshot_of document.services)
        ]),
        w',
      )

  unfoldable pub save :
      Text → List ProcessRecord → Option Text → W → Result (Unit {0}) DumpError × W
  unfolding write_atomically
  save path records boot w =
      write_atomically files path (yaml.to_string (encode_states records boot)) w

-- The match of `rejoin` on what the resolver answers.
unfoldable pub joined :
    Text → StateDto → ProcessRuntime → Result AppSpec AppsFileError → Result Rejoined DumpError
joined path state runtime (ok spec) = ok (rejoined (record { spec = spec; runtime = runtime }))
joined path state runtime (err (enc_file reason)) = err (unreadable_state path reason)
joined path state runtime (err (other_failure reason)) = ok (stranded (stranded_of state))

module _ {W : Type 0} (resolve_service : Text → W → Result AppSpec AppsFileError × W)
    (path : Text) where
  unfoldable pub rejoin : StateDto → W → Result Rejoined DumpError × W
  unfolding joined
  rejoin state w = elim (decode_state state) [
    | err e ↦ (ok (stranded (stranded_of state)), w)
    | ok runtime ↦
        let (resolved, w') = resolve_service runtime.name w in
        (joined path state runtime resolved, w')
  ]

  unfoldable pub rejoin_each : List StateDto → W → List (Result Rejoined DumpError) × W
  unfolding rejoin
  rejoin_each [] w = ([], w)
  rejoin_each (state ∷ states) w =
      let (outcome, w') = rejoin state w in
      let (outcomes, w'') = rejoin_each states w' in (outcome ∷ outcomes, w'')

  -- `load` on what the file holds.
  unfoldable pub load_read :
      Result (Option DumpDocument) DumpError × W → Result DumpContents DumpError × W
  load_read (err e, w) = (err e, w)
  load_read (ok none, w) = (ok (record { records = []; stranded = []; boot = none }), w)
  load_read (ok (some document), w) =
      let (outcomes, w') = rejoin_each document.services w in (collect outcomes document.boot, w')

  unfoldable pub load : Files W → Yaml → W → Result DumpContents DumpError × W
  load files yaml w = load_read (read_document files yaml path w)
