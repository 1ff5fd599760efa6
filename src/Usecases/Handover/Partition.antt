-- ===== src/Usecases/Handover/Partition.antt =====
-- handover.rs: which services the comparison calls adopted.
use pm.Base.{
  ℕ, ◌≡◌, refl, ap, ◌↔◌, Option, none, some, List, [], ◌∷◌, Memᴰ, Text, ==_iff, Option-cases, inl,
  inr, ◌⊎◌, arith, subst,
}
use pm.Usecases.Handover.{
  ServiceSnapshot, HandoverComparison, HandoverChange, adopted, restarted, lost, idle, change_of,
  classify_handover, survivor_of, note_change, compare_handover,
}

change_of-adopted :
    (before after : Option ℕ)
    → change_of before after ≡ adopted
    → (pid : ℕ) × (before ≡ some pid) × (after ≡ some pid)
change_of-adopted (some had) (some has) h = (had, refl, ground (arith, ==_iff had has))
change_of-adopted none (some has) h = cc
change_of-adopted (some had) none h = cc
change_of-adopted none none h = cc

-- A service kept its process: the first row of its name afterwards has the same process id.
pub record KeptProcess (after : List ServiceSnapshot) (row : ServiceSnapshot) : Type 0 where
  pub pid : ℕ
  pub had : row.pid ≡ some pid
  pub survivor : ServiceSnapshot
  pub found : survivor_of after row ≡ some survivor
  pub has : survivor.pid ≡ some pid

classify_handover-adopted :
    (after : List ServiceSnapshot) (row : ServiceSnapshot)
    → classify_handover row.pid (survivor_of after row) ≡ adopted
    → KeptProcess after row
unfolding classify_handover
classify_handover-adopted after row h = elim (Option-cases (survivor_of after row)) [
  | inl e ↦ let h' = rw (e, classify_handover) at h in cc
  | inr (s, e) ↦
      let (pid, had, has) = change_of-adopted row.pid s.pid (rw (e, classify_handover) at h) in
      record { pid = pid; had = had; survivor = s; found = e; has = has }
]

KeptProcess-adopted :
    (after : List ServiceSnapshot) (row : ServiceSnapshot)
    → KeptProcess after row
    → classify_handover row.pid (survivor_of after row) ≡ adopted
unfolding classify_handover
KeptProcess-adopted after row k =
    rw (k.found, classify_handover) (rw k.had (rw k.has (ground arith)))

-- A name that the loop adds to the adopted ones.
noted :
    (change : HandoverChange) (name : Text) (c : HandoverComparison) {n : Text}
    → Memᴰ n (note_change change name c).adopted
    → ((change ≡ adopted) × (n ≡ name)) ⊎ Memᴰ n c.adopted
unfolding note_change
noted adopted name c (Memᴰ.head e) = inl (refl, e)
noted adopted name c (Memᴰ.tail m) = inr m
noted restarted name c m = inr m
noted lost name c m = inr m
noted idle name c m = inr m

noted_of_mem :
    (change : HandoverChange) (name : Text) (c : HandoverComparison) {n : Text}
    → Memᴰ n c.adopted
    → Memᴰ n (note_change change name c).adopted
unfolding note_change
noted_of_mem adopted name c m = Memᴰ.tail m
noted_of_mem restarted name c m = m
noted_of_mem lost name c m = m
noted_of_mem idle name c m = m

adopted-mem :
    (before after : List ServiceSnapshot) {n : Text}
    → Memᴰ n (compare_handover before after).adopted
    → (row : ServiceSnapshot) × Memᴰ row before × (n ≡ row.name) × KeptProcess after row
unfolding compare_handover
adopted-mem [] after m = elim m [ ]
adopted-mem (row ∷ before) after m =
    elim (noted (classify_handover row.pid (survivor_of after row)) row.name
      (compare_handover before after) m) [
        | inl (change, e) ↦ (row, Memᴰ.head refl, e, classify_handover-adopted after row change)
        | inr later ↦
            let (r, k, e, kept) = adopted-mem before after later in (r, Memᴰ.tail k, e, kept)
      ]

mem-adopted :
    (before after : List ServiceSnapshot) (row : ServiceSnapshot)
    → Memᴰ row before
    → KeptProcess after row
    → Memᴰ row.name (compare_handover before after).adopted
unfolding compare_handover note_change
mem-adopted [] after row m kept = elim m [ ]
mem-adopted (r ∷ before) after row (Memᴰ.head e) kept =
    let here : classify_handover r.pid (survivor_of after r) ≡ adopted =
      KeptProcess-adopted after r (subst (KeptProcess after) e kept) in
    rw (here, note_change) (Memᴰ.head (ap (λ x. x.name) e))
mem-adopted (r ∷ before) after row (Memᴰ.tail m) kept =
    noted_of_mem (classify_handover r.pid (survivor_of after r)) r.name
      (compare_handover before after) (mem-adopted before after row m kept)

-- The comparison calls a name adopted exactly if a row before the handover of this name had a
-- process id, and the first row after it of the same name has that very process id.
pub compare_handover-adopted :
    (before after : List ServiceSnapshot) (name : Text)
    → Memᴰ name (compare_handover before after).adopted
      ↔ (row : ServiceSnapshot) × Memᴰ row before × (name ≡ row.name) × KeptProcess after row
compare_handover-adopted before after name = (
  λ m. adopted-mem before after m,
  λ h. let (row, m, e, kept) = h in rw e (mem-adopted before after row m kept),
)
