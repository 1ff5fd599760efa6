-- ===== src/Adapters/Persistence/Store/Survives.antt =====
-- No service of the state file is lost when it is loaded.
use pm.Base.{
  ◌≡◌, refl, sym, ap, ◌∙◌, ◌⊎◌, inl, inr, List, [], ◌∷◌, Memᴰ, some, Option, Text, Result, ok, err,
  Result-cases, subst, arith,
}
use pm.Adapters.Persistence.{StateDto, DumpDocument, decode_state}
use pm.Adapters.Persistence.Store.{
  Files, Yaml, AppsFileError, enc_file, other_failure, Rejoined, rejoined, stranded, stranded_of,
  add_rejoined, collect, joined, rejoin, rejoin_each, read_document, load_read, load,
}
use pm.Entities.Runtime.{ProcessRuntime}
use pm.Entities.Spec.{AppSpec}
use pm.Usecases.Ports.{DumpContents, DumpError}
use pm.Usecases.Record.{ProcessRecord}

-- The stored service is a record with the state that it decodes to, or a stranded process.
abbrev pub IsKept : StateDto → DumpContents → Type 0
IsKept state contents =
    Memᴰ (stranded_of state) contents.stranded
    ⊎ ((r : ProcessRecord) × Memᴰ r contents.records × (decode_state state ≡ ok r.runtime))

abbrev Tells : StateDto → Rejoined → Type 0
Tells state (rejoined r) = decode_state state ≡ ok r.runtime
Tells state (stranded orphan) = orphan ≡ stranded_of state

add_rejoined-IsKept :
    (state : StateDto) (outcome : Rejoined) (contents : DumpContents)
    → Tells state outcome
    → IsKept state (add_rejoined outcome contents)
unfolding add_rejoined
add_rejoined-IsKept state (rejoined r) contents h = inr (r, Memᴰ.head refl, h)
add_rejoined-IsKept state (stranded orphan) contents h = inl (Memᴰ.head (sym h))

add_rejoined-still :
    (state : StateDto) (outcome : Rejoined) (contents : DumpContents)
    → IsKept state contents
    → IsKept state (add_rejoined outcome contents)
unfolding add_rejoined
add_rejoined-still state (rejoined r) contents (inl m) = inl m
add_rejoined-still state (rejoined r) contents (inr (r', m, h)) = inr (r', Memᴰ.tail m, h)
add_rejoined-still state (stranded orphan) contents (inl m) = inl (Memᴰ.tail m)
add_rejoined-still state (stranded orphan) contents (inr k) = inr k

joined-Tells :
    (path : Text) (state : StateDto) (runtime : ProcessRuntime)
    (resolved : Result AppSpec AppsFileError) (outcome : Rejoined)
    → decode_state state ≡ ok runtime
    → joined path state runtime resolved ≡ ok outcome
    → Tells state outcome
unfolding joined
joined-Tells path state runtime (ok spec) (rejoined r) e h = ground (arith, e, h)
joined-Tells path state runtime (ok spec) (stranded o) e h = ground (arith, h)
joined-Tells path state runtime (err (enc_file reason)) outcome e h = ground (arith, h)
joined-Tells path state runtime (err (other_failure reason)) (rejoined r) e h = ground (arith, h)
joined-Tells path state runtime (err (other_failure reason)) (stranded o) e h = ground (arith, h)

stranded-Tells :
    (state : StateDto) (outcome : Rejoined)
    → Path (Result Rejoined DumpError) (ok (stranded (stranded_of state))) (ok outcome)
    → Tells state outcome
stranded-Tells state (rejoined r) h = ground (arith, h)
stranded-Tells state (stranded o) h = ground (arith, h)

collect-cons :
    (o : Result Rejoined DumpError) (os : List (Result Rejoined DumpError)) (boot : Option Text)
    {contents : DumpContents}
    → collect (o ∷ os) boot ≡ ok contents
    → (outcome : Rejoined) × (rest : DumpContents) × (o ≡ ok outcome)
      × (collect os boot ≡ ok rest)
      × (contents ≡ add_rejoined outcome rest)
unfolding collect
collect-cons (err e) os boot h = ground (arith, h)
collect-cons (ok outcome) os boot {contents} h = elim (Result-cases (collect os boot)) [
  | inl (rest, e) ↦
      let h' : Path (Result DumpContents DumpError) (ok (add_rejoined outcome rest)) (ok contents) =
        rw (e, collect) at h in
      (outcome, rest, refl, e, ground (arith, h'))
  | inr (_, e) ↦ ground (arith, h, e)
]

module _ {W : Type 0} (resolve_service : Text → W → Result AppSpec AppsFileError × W)
    (path : Text) where
  rejoin-Tells :
      (state : StateDto) (w : W) (outcome : Rejoined)
      → (rejoin resolve_service path state w).0 ≡ ok outcome
      → Tells state outcome
  unfolding rejoin
  rejoin-Tells state w outcome h = elim (Result-cases (decode_state state)) [
    | inl (runtime, e) ↦
        let h' : joined path state runtime (resolve_service runtime.name w).0 ≡ ok outcome =
          rw (e, rejoin) at h in
        joined-Tells path state runtime (resolve_service runtime.name w).0 outcome e h'
    | inr (_, e) ↦
        let h' : Path (Result Rejoined DumpError) (ok (stranded (stranded_of state))) (ok outcome) =
          rw (e, rejoin) at h in
        stranded-Tells state outcome h'
  ]

  collect-IsKept :
      (state : StateDto) (states : List StateDto) (boot : Option Text) (w : W)
      (contents : DumpContents)
      → collect (rejoin_each resolve_service path states w).0 boot ≡ ok contents
      → Memᴰ state states
      → IsKept state contents
  unfolding rejoin_each
  collect-IsKept state [] boot w contents h m = elim m [ ]
  collect-IsKept state (s ∷ states) boot w contents h m =
      let w' = (rejoin resolve_service path s w).1 in
      let (outcome, rest, told, h', e) =
        collect-cons (rejoin resolve_service path s w).0
          (rejoin_each resolve_service path states w').0 boot h in
      subst (IsKept state) (sym e) (elim m [
        | Memᴰ.head same ↦
            add_rejoined-IsKept state outcome rest
              (subst (λ q. Tells q outcome) (sym same) (rejoin-Tells s w outcome told))
        | Memᴰ.tail m' ↦
            add_rejoined-still state outcome rest (collect-IsKept state states boot w' rest h' m')
      ])

  -- When the state file is read and loading it succeeds, each service that it holds is in the
  -- contents: as a record with the state that it decodes to, or as a stranded process.
  pub load-IsKept :
      (files : Files W) (yaml : Yaml) (w w1 w2 : W) (document : DumpDocument)
      (contents : DumpContents) (state : StateDto)
      → read_document files yaml path w ≡ (ok (some document), w1)
      → load resolve_service path files yaml w ≡ (ok contents, w2)
      → Memᴰ state document.services
      → IsKept state contents
  unfolding load load_read
  load-IsKept files yaml w w1 w2 document contents state r h m =
      let step : load resolve_service path files yaml w ≡ (
        collect (rejoin_each resolve_service path document.services w1).0 document.boot,
        (rejoin_each resolve_service path document.services w1).1,
      ) =
        ap (load_read resolve_service path) r in
      collect-IsKept state document.services document.boot w1 contents
        (ap (λ p. p.0) (sym step ∙ h)) m
