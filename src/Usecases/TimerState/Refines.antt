-- ===== src/Usecases/TimerState/Refines.antt =====
-- timer_state.rs against functions: what each operation does to what can be asked of the timers.
use pm.Base.{
  ℕ, ◌≡◌, refl, ◌∙◌, subst, Bool, true, false, not, ◌||◌, Option, none, some, List, [], ◌∷◌, filter,
  Text, text_eq, text_eq_iff, contains_text, saturating_add, max_u64, if◌then◌else◌, Bool-cases,
  inl, inr, arith,
}
use pm.Usecases.TimerState.{
  TimerState, get, next_fire_of, arm, disarm, disarm_all, queue_restart, claim_restart,
  cancel_all_restarts, bump, current_generation,
}
use pm.Usecases.TimerState.Generations.{get-insert, get-delete}

-- What can be asked of the timers, as functions of a name, and the counter of the generations.
pub record Abstract : Type 0 where
  pub fire : Text → Option ℕ
  pub queued : Text → Bool
  pub generation : Text → ℕ
  pub counter : ℕ

pub data Operation : Type 0 where
  arming : (name : Text) (fire_at_ms : ℕ) → Operation
  disarming queueing claiming watching : (name : Text) → Operation
  disarming_all cancelling_all : Operation

abbrev pub update {ℓ} : {A : Type ℓ} → Text → A → (Text → A) → Text → A
update name a f n = if text_eq name n then a else f n

-- The operations on the functions.
pub specified : Operation → Abstract → Abstract
specified (arming name fire_at_ms) a = record a { fire = update name (some fire_at_ms) a.fire }
specified (disarming name) a = record a { fire = update name none a.fire }
specified disarming_all a = record a { fire = λ n. none }
specified (queueing name) a = record a { queued = update name true a.queued }
specified (claiming name) a = record a { queued = update name false a.queued }
specified cancelling_all a = record a { queued = λ n. false }
specified (watching name) a =
    let next = saturating_add max_u64 a.counter 1 in
    record a { generation = update name next a.generation; counter = next }

-- The operations of the source.
pub implemented : Operation → TimerState → TimerState
implemented (arming name fire_at_ms) t = arm name fire_at_ms t
implemented (disarming name) t = disarm name t
implemented disarming_all t = (disarm_all t).0
implemented (queueing name) t = queue_restart name t
implemented (claiming name) t = (claim_restart name t).0
implemented cancelling_all t = (cancel_all_restarts t).0
implemented (watching name) t = (bump name t).0

-- The timers answer every question as the functions do.
pub record Represents (a : Abstract) (t : TimerState) : Type 0 where
  pub fires : (n : Text) → next_fire_of n t ≡ a.fire n
  pub queues : (n : Text) → contains_text t.restarts n ≡ a.queued n
  pub generations : (n : Text) → current_generation n t ≡ a.generation n
  pub counts : t.next_generation ≡ a.counter

contains-cons :
    (name n : Text) (ns : List Text)
    → contains_text (name ∷ ns) n ≡ (text_eq name n || contains_text ns n)
unfolding contains_text
contains-cons name n ns = refl

contains-without :
    (name n : Text) (ns : List Text)
    → contains_text (filter (λ m. not (text_eq m name)) ns) n
      ≡ (if text_eq name n then false else contains_text ns n)
unfolding contains_text
contains-without name n [] = ground arith
contains-without name n (m ∷ ns) =
    ground
      (arith, contains-without name n ns, text_eq_iff m name, text_eq_iff name n, text_eq_iff m n)

queue-contains :
    (name n : Text) (ns : List Text)
    → contains_text (if contains_text ns name then ns else name ∷ ns) n
      ≡ (if text_eq name n then true else contains_text ns n)
queue-contains name n ns = elim (Bool-cases (text_eq name n)) [
  | inl e ↦
      let same = (text_eq_iff name n).0 e in
      elim (Bool-cases (contains_text ns name)) [
        | inl q ↦ rw q (rw e (subst (λ m. contains_text ns m ≡ true) same q))
        | inr q ↦ rw q (contains-cons name n ns ∙ (rw e refl))
      ]
  | inr e ↦ elim (Bool-cases (contains_text ns name)) [
    | inl q ↦ rw q (rw e refl)
    | inr q ↦ rw q (contains-cons name n ns ∙ (rw e refl))
  ]
]

implemented-Represents :
    (op : Operation) (a : Abstract) (t : TimerState)
    → Represents a t
    → Represents (specified op a) (implemented op t)
unfolding specified implemented next_fire_of arm disarm disarm_all queue_restart claim_restart
    cancel_all_restarts bump current_generation contains_text get
implemented-Represents (arming name at) a t r = record {
  fires = λ n. ground (arith, get-insert name n at t.fires, r.fires n);
  queues = r.queues;
  generations = r.generations;
  counts = r.counts;
}
implemented-Represents (disarming name) a t r = record {
  fires = λ n. ground (arith, get-delete name n t.fires, r.fires n);
  queues = r.queues;
  generations = r.generations;
  counts = r.counts;
}
implemented-Represents disarming_all a t r = record {
  fires = λ n. refl;
  queues = r.queues;
  generations = r.generations;
  counts = r.counts;
}
implemented-Represents (queueing name) a t r = record {
  fires = r.fires;
  queues = λ n. queue-contains name n t.restarts ∙ rw (r.queues n) refl;
  generations = r.generations;
  counts = r.counts;
}
implemented-Represents (claiming name) a t r = record {
  fires = r.fires;
  queues = λ n. contains-without name n t.restarts ∙ rw (r.queues n) refl;
  generations = r.generations;
  counts = r.counts;
}
implemented-Represents cancelling_all a t r = record {
  fires = r.fires;
  queues = λ n. refl;
  generations = r.generations;
  counts = r.counts;
}
implemented-Represents (watching name) a t r = record {
  fires = r.fires;
  queues = r.queues;
  generations = λ n. ground (
    arith,
    get-insert name n (saturating_add max_u64 t.next_generation 1) t.generations,
    r.generations n,
    r.counts,
  );
  counts = ground (arith, r.counts);
}

pub specified_all : List Operation → Abstract → Abstract
specified_all [] a = a
specified_all (op ∷ ops) a = specified_all ops (specified op a)

pub implemented_all : List Operation → TimerState → TimerState
implemented_all [] t = t
implemented_all (op ∷ ops) t = implemented_all ops (implemented op t)

-- The timer state refines its specification by functions: if it answers when a timer fires, whether a
-- restart is queued and which generation is current as the functions do, for every name, then so it
-- does after any series of armings, disarmings, queued, claimed and cancelled restarts and newly
-- watched processes.
pub implemented_all-Represents :
    (ops : List Operation) (a : Abstract) (t : TimerState)
    → Represents a t
    → Represents (specified_all ops a) (implemented_all ops t)
unfolding specified_all implemented_all
implemented_all-Represents [] a t r = r
implemented_all-Represents (op ∷ ops) a t r =
    implemented_all-Represents ops (specified op a) (implemented op t)
      (implemented-Represents op a t r)
