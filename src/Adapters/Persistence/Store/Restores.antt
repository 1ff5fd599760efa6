-- ===== src/Adapters/Persistence/Store/Restores.antt =====
-- What is saved is loaded, as long as the file system and the format give back what they were given.
use pm.Base.{
  ◌≡◌, refl, ap, ◌∙◌, List, [], ◌∷◌, All, true, false, Result-cases, inl, inr, map_err, some,
  Option, Text, Result, ok, err, map, arith,
}
use pm.Adapters.Persistence.{DumpDocument, encode_state, encode_states}
use pm.Adapters.Persistence.RoundTrip.{decode_state-encode_state}
use pm.Adapters.Persistence.Store.{
  Files, Yaml, AppsFileError, IoError, io_message, rejoined, add_rejoined, collect, joined, rejoin,
  rejoin_each, read_optional, read_document, load_read, fill, write_private, write_atomically,
  staging_path, save, load,
}
use pm.Entities.Runtime.{validate_consistency}
use pm.Entities.Spec.{AppSpec}
use pm.Entities.Status.{
  ProcessStatus, launching, online, stopping, stopped, errored, is_settled, is_running,
}
use pm.Usecases.Ports.{DumpError, write_failed}
use pm.Usecases.Record.{ProcessRecord}
use pm.Usecases.Table.Invariant.{IsSound}

running-settled : (s : ProcessStatus) → is_running s ≡ true → is_settled s ≡ false
running-settled launching h = refl
running-settled online h = refl
running-settled stopping h = ground arith
running-settled stopped h = ground arith
running-settled errored h = ground arith

consistent : (r : ProcessRecord) → IsSound r → validate_consistency r.runtime ≡ ok tt
unfolding validate_consistency
consistent r sound = let pid = sound.0.pid in ground (arith, running-settled r.runtime.status, pid)

module _ {W : Type 0} (resolve_service : Text → W → Result AppSpec AppsFileError × W)
    (path : Text) where
  -- The declaration of the record is still what the resolver answers.
  abbrev pub IsDeclared : ProcessRecord → Type 0
  IsDeclared r = (w : W) → resolve_service r.runtime.name w ≡ (ok r.spec, w)

  rejoin-encode :
      (r : ProcessRecord) (w : W)
      → IsSound r
      → IsDeclared r
      → rejoin resolve_service path (encode_state r) w ≡ (ok (rejoined r), w)
  unfolding rejoin joined
  rejoin-encode r w sound declared =
      rw (decode_state-encode_state r (consistent r sound), rejoin, declared w) refl

  collect-encode :
      (records : List ProcessRecord) (boot : Option Text) (w : W)
      → All IsSound records
      → All IsDeclared records
      → collect (rejoin_each resolve_service path (map encode_state records) w).0 boot
        ≡ ok (record { records = records; stranded = []; boot = boot })
  unfolding rejoin_each collect add_rejoined
  collect-encode [] boot w sound declared = refl
  collect-encode (r ∷ records) boot w sound declared =
      rw
        (
          rejoin-encode r w sound.0 declared.0,
          rejoin_each,
          collect-encode records boot w sound.1 declared.1,
          collect,
        )
        refl

-- What a file system does: after a file is written, flushed and renamed, its new name reads back
-- what was written.
pub record IsDisk {W : Type 0} (files : Files W) : Type 0 where
  pub gives_back :
      (staged path contents : Text) (w w1 w2 w3 w4 : W)
      → files.open_truncated staged w ≡ (ok tt, w1)
      → files.write_all staged contents w1 ≡ (ok tt, w2)
      → files.flush staged w2 ≡ (ok tt, w3)
      → files.rename staged path w3 ≡ (ok tt, w4)
      → files.read_to_string path w4 ≡ (ok contents, w4)

module _ {W : Type 0} (files : Files W) where
  fill-ok :
      (path contents : Text) (w w' : W)
      → fill files path contents w ≡ (ok tt, w')
      → (w1 : W) × (files.write_all path contents w ≡ (ok tt, w1))
        × (files.flush path w1 ≡ (ok tt, w'))
  unfolding fill
  fill-ok path contents w w' h =
      let w1 = (files.write_all path contents w).1 in
      elim (Result-cases (files.write_all path contents w).0) [
        | inl (_, e) ↦
            let h' : files.flush path w1 ≡ (ok tt, w') = rw (e, fill) at h in
            (w1, ap (λ r. (r, w1)) e, h')
        | inr (reason, e) ↦
            let h' : Path (Result (Unit {0}) IoError × W) (err reason, (files.flush path w1).1)
                (ok tt, w') =
              rw (e, fill) at h in
            ground (arith, h')
      ]

  write_private-ok :
      (path contents : Text) (w w' : W)
      → write_private files path contents w ≡ (ok tt, w')
      → (w1 : W) × (files.open_truncated path w ≡ (ok tt, w1))
        × (fill files path contents w1 ≡ (ok tt, w'))
  unfolding write_private
  write_private-ok path contents w w' h =
      let w1 = (files.open_truncated path w).1 in
      elim (Result-cases (files.open_truncated path w).0) [
        | inl (_, e) ↦
            let h' : fill files path contents w1 ≡ (ok tt, w') = rw (e, write_private) at h in
            (w1, ap (λ r. (r, w1)) e, h')
        | inr (reason, e) ↦
            let h' : Path (Result (Unit {0}) IoError × W) (err reason, w1) (ok tt, w') =
              rw (e, write_private) at h in
            ground (arith, h')
      ]

  renamed-ok :
      (path : Text) (renamed : Result (Unit {0}) IoError)
      → map_err (λ e. write_failed path (io_message e)) renamed ≡ ok tt
      → renamed ≡ ok tt
  renamed-ok path (ok _) h = refl
  renamed-ok path (err e) h = ground (arith, h)

  write_atomically-ok :
      (path contents : Text) (w w' : W)
      → write_atomically files path contents w ≡ (ok tt, w')
      → (w1 : W) × (write_private files (staging_path path) contents w ≡ (ok tt, w1))
        × (files.rename (staging_path path) path w1 ≡ (ok tt, w'))
  unfolding write_atomically
  write_atomically-ok path contents w w' h =
      let staged = staging_path path in
      let w1 = (write_private files staged contents w).1 in
      elim (Result-cases (write_private files staged contents w).0) [
        | inl (_, e) ↦
            let (renamed, w2) = files.rename staged path w1 in
            let h' : Path (Result (Unit {0}) DumpError × W)
                (map_err (λ e. write_failed path (io_message e)) renamed, w2) (ok tt, w') =
              rw (e, write_atomically) at h in
            let done = renamed-ok path renamed (ap (λ r. r.0) h') in
            (w1, ap (λ r. (r, w1)) e, ap (λ r. (r, w2)) done ∙ ap (λ r. (ok tt, r.1)) h')
        | inr (reason, e) ↦
            let h' : Path (Result (Unit {0}) DumpError × W)
                (err (write_failed staged (io_message reason)), w1) (ok tt, w') =
              rw (e, write_atomically) at h in
            ground (arith, h')
      ]

  write_atomically-read :
      (disk : IsDisk files) (path contents : Text) (w w' : W)
      → write_atomically files path contents w ≡ (ok tt, w')
      → files.read_to_string path w' ≡ (ok contents, w')
  write_atomically-read disk path contents w w' h =
      let (w3, written, renamed) = write_atomically-ok path contents w w' h in
      let (w1, opened, filled) = write_private-ok (staging_path path) contents w w3 written in
      let (w2, wrote, flushed) = fill-ok (staging_path path) contents w1 w3 filled in
      disk.gives_back (staging_path path) path contents w w1 w2 w3 w' opened wrote flushed renamed

module _ {W : Type 0} (files : Files W) (yaml : Yaml) (disk : IsDisk files)
    (resolve_service : Text → W → Result AppSpec AppsFileError × W) (path : Text) where
  read_document-saved :
      (document : DumpDocument) (w : W)
      → yaml.from_str (yaml.to_string document) ≡ ok document
      → files.read_to_string path w ≡ (ok (yaml.to_string document), w)
      → read_document files yaml path w ≡ (ok (some document), w)
  unfolding read_document read_optional
  read_document-saved document w parsed read = rw (read, read_document, parsed) refl

  -- On a file system that gives back what is written, with a format that reads back this document,
  -- records that are saved are loaded again with the boot token and no stranded process, as long as
  -- each is sound and its declaration is what the resolver answers.
  pub load-save :
      (records : List ProcessRecord) (boot : Option Text) (w w' : W)
      → All IsSound records
      → All (IsDeclared resolve_service path) records
      → yaml.from_str (yaml.to_string (encode_states records boot))
        ≡ ok (encode_states records boot)
      → save files yaml path records boot w ≡ (ok tt, w')
      → (load resolve_service path files yaml w').0
        ≡ ok (record { records = records; stranded = []; boot = boot })
  unfolding load save load_read encode_states
  load-save records boot w w' sound declared parsed saved =
      let document = encode_states records boot in
      let read = write_atomically-read files disk path (yaml.to_string document) w w' saved in
      ap (λ r. (load_read resolve_service path r).0) (read_document-saved document w' parsed read)
      ∙ collect-encode resolve_service path records boot w' sound declared
