-- ===== src/Lifecycle/Store/Snapshots.antt =====
-- `LifecycleStore.snapshot` and `restore`.
pub mod Checks
use iicp_client_python.Prelude.{
  ℕ, suc, ◌+◌, String, ◌≡◌, refl, ap, ◌∙◌, ◌⊎◌, inl, inr, Bool, true, false, Option, none, some,
  List, [], ◌∷◌, ◌++◌, arith, str_eq, eq_iff, str_eq_refl, ◌==◌, if◌then◌else◌, Bool-cases,
}
use mathlib.Core.List.{append-nil, append_assoc}
use iicp_client_python.Prelude.Exec.{Result, ok, err}
use iicp_client_python.Prelude.Dict
use iicp_client_python.Prelude.Dict.{Dict}
use iicp_client_python.Lifecycle.Store.{
  LifecycleEvent, LifecycleRecord, LifecycleStore, LifecycleError, lifecycle_conflict, key_error,
  type_error, Method,
}
use iicp_client_python.Lifecycle.States.{State}
use iicp_client_python.Lifecycle.Store.Events.{Follows, History}
use iicp_client_python.Lifecycle.Store.Invariant.{StoreValid}

abbrev pub profile : String
profile = "urn:iicp:profile:service-lifecycle:v1"

-- An event as a dictionary: each key is there or not, and a value has its field's type.
pub record RawEvent : Type 0 where
  pub task_id : Option String
  pub sequence : Option ℕ
  pub state : Option State
  pub is_final : Option Bool
  pub observed_at : Option ℕ
  pub detail : Option (Dict String)
  pub has_other_keys : Bool

-- A record as a dictionary; further keys are not looked at.
pub record RawRecord : Type 0 where
  pub task_id : Option String
  pub idempotency_key : Option String
  pub request_digest : Option String
  pub state : Option State
  pub events : Option (List RawEvent)
  pub updated_at : Option ℕ

pub record Snapshot : Type 0 where
  pub profile_name : Option String
  pub raw_records : Option (List RawRecord)

-- `asdict`, of an event, of the events of a record, of a record and of the records
unfoldable pub event_asdict : LifecycleEvent → RawEvent
event_asdict e = record {
  task_id = some e.task_id;
  sequence = some e.sequence;
  state = some e.state;
  is_final = some e.is_final;
  observed_at = some e.observed_at;
  detail = some e.detail;
  has_other_keys = false;
}

unfoldable pub events_asdict : List LifecycleEvent → List RawEvent
events_asdict [] = []
events_asdict (e ∷ es) = event_asdict e ∷ events_asdict es

unfoldable pub record_asdict : LifecycleRecord → RawRecord
record_asdict r = record {
  task_id = some r.task_id;
  idempotency_key = some r.idempotency_key;
  request_digest = some r.request_digest;
  state = some r.state;
  events = some (events_asdict r.events);
  updated_at = some r.updated_at;
}

unfoldable pub records_asdict : List LifecycleRecord → List RawRecord
records_asdict [] = []
records_asdict (r ∷ rs) = record_asdict r ∷ records_asdict rs

unfoldable pub snapshot : LifecycleStore → Snapshot
snapshot s = record {
  profile_name = some profile;
  raw_records = some (records_asdict (Dict.values s.records));
}

abbrev pub and_then :
    {A B : Type 0}
    → Result LifecycleError A
    → (A → Result LifecycleError B)
    → Result LifecycleError B
and_then (ok a) f = f a
and_then (err e) f = err e

-- the value under a key, or the error for its absence
abbrev pub at_key : {A : Type 0} → LifecycleError → Option A → Result LifecycleError A
at_key e none = err e
at_key e (some a) = ok a

abbrev pub detail_or_empty : Option (Dict String) → Dict String
detail_or_empty none = []
detail_or_empty (some detail) = detail

-- `LifecycleEvent(**event)`
unfoldable pub event_from : RawEvent → Result LifecycleError LifecycleEvent
event_from raw =
    if raw.has_other_keys
    then err type_error
    else and_then (at_key type_error raw.task_id) λ task_id.
      and_then (at_key type_error raw.sequence) λ sequence.
        and_then (at_key type_error raw.state) λ state.
          and_then (at_key type_error raw.is_final) λ is_final.
            and_then (at_key type_error raw.observed_at) λ observed_at. ok (record {
              task_id = task_id;
              sequence = sequence;
              state = state;
              is_final = is_final;
              observed_at = observed_at;
              detail = detail_or_empty raw.detail;
            })

unfoldable pub events_from : List RawEvent → Result LifecycleError (List LifecycleEvent)
events_from [] = ok []
events_from (raw ∷ raws) =
    and_then (event_from raw) λ e. and_then (events_from raws) λ es. ok (e ∷ es)

-- each event has the sequence number `base + index`, counted from `index` on
unfoldable pub in_sequence : ℕ → ℕ → List LifecycleEvent → Bool
in_sequence base index [] = true
in_sequence base index (e ∷ es) =
    let rest = in_sequence base (suc index) es in if e.sequence == base + index then rest else false

-- `not events or any(event.sequence != events[0].sequence + index ...)` is false
unfoldable pub well_sequenced : List LifecycleEvent → Bool
unfolding in_sequence
well_sequenced [] = false
well_sequenced (e ∷ es) = in_sequence e.sequence 0 (e ∷ es)

-- the record of checked events
unfoldable pub build_record :
    RawRecord → List LifecycleEvent → Result LifecycleError LifecycleRecord
build_record raw events = and_then (at_key key_error raw.task_id) λ task_id.
    and_then (at_key key_error raw.idempotency_key) λ idempotency_key.
      and_then (at_key key_error raw.request_digest) λ request_digest.
        and_then (at_key key_error raw.state) λ state.
          and_then (at_key key_error raw.updated_at) λ updated_at. ok (record {
            task_id = task_id;
            idempotency_key = idempotency_key;
            request_digest = request_digest;
            state = state;
            events = events;
            updated_at = updated_at;
          })

abbrev pub checked_record : RawRecord → List LifecycleEvent → Result LifecycleError LifecycleRecord
checked_record raw events =
    if well_sequenced events then build_record raw events else err lifecycle_conflict

-- one round of the loop of `restore`
unfoldable pub record_from : RawRecord → Result LifecycleError LifecycleRecord
record_from raw =
    and_then (at_key key_error raw.events)
      λ raws. and_then (events_from raws) λ events. checked_record raw events

unfoldable pub restore_records :
    List RawRecord → Dict LifecycleRecord → Result LifecycleError (Dict LifecycleRecord)
restore_records [] restored = ok restored
restore_records (raw ∷ raws) restored =
    and_then (record_from raw) λ r. restore_records raws (Dict.put restored r.task_id r)

-- `snapshot.get("profile") != PROFILE` is false
abbrev pub has_profile : Option String → Bool
has_profile none = false
has_profile (some name) = str_eq name profile

-- `snapshot.get("records", [])`
abbrev pub records_or_empty : Option (List RawRecord) → List RawRecord
records_or_empty none = []
records_or_empty (some raws) = raws

abbrev pub install :
    LifecycleStore
    → Result LifecycleError (Dict LifecycleRecord)
    → Result LifecycleError (Unit {0}) × LifecycleStore
install s (ok restored) = (ok tt, record s { records = restored })
install s (err e) = (err e, s)

unfoldable pub restore : Snapshot → Method (Unit {0})
restore snap s =
    if has_profile snap.profile_name
    then install s (restore_records (records_or_empty snap.raw_records) [])
    else (err lifecycle_conflict, s)

event_from-asdict : (e : LifecycleEvent) → event_from (event_asdict e) ≡ ok e
unfolding event_from event_asdict
event_from-asdict e = refl

events_from-asdict : (es : List LifecycleEvent) → events_from (events_asdict es) ≡ ok es
unfolding events_from events_asdict
events_from-asdict [] = refl
events_from-asdict (e ∷ es) = rw (event_from-asdict e, events_from-asdict es) refl

record_from-asdict :
    (r : LifecycleRecord) → well_sequenced r.events ≡ true → record_from (record_asdict r) ≡ ok r
unfolding record_from record_asdict build_record
record_from-asdict r h = rw (events_from-asdict r.events, h) refl

in_sequence-Follows :
    (base index : ℕ) (e : LifecycleEvent) (es : List LifecycleEvent)
    → Follows e es
    → e.sequence ≡ base + index
    → in_sequence base index (e ∷ es) ≡ true
unfolding in_sequence
in_sequence-Follows base index e [] h p = ground arith
in_sequence-Follows base index e (f ∷ es) h p =
    ground (arith, in_sequence-Follows base (suc index) f es h.1 (omega (arith, h.0.consecutive)))

well_sequenced-History : (es : List LifecycleEvent) → History es → well_sequenced es ≡ true
unfolding well_sequenced
well_sequenced-History [] h = absurd h
well_sequenced-History (e ∷ es) h = in_sequence-Follows e.sequence 0 e es h (omega arith)

-- What a store that is valid has at each place of its dictionary.
abbrev Stored : Dict LifecycleRecord → Type 0
Stored [] = Unit
Stored ((k, r) ∷ d) = (r.task_id ≡ k) × History r.events × Stored d

-- no key of the second dictionary stands in the first
abbrev Apart : Dict LifecycleRecord → Dict LifecycleRecord → Type 0
Apart d [] = Unit
Apart d ((k, r) ∷ e) = (Dict.get d k ≡ none) × Apart d e

put-fresh :
    (d : Dict LifecycleRecord) (k : String) (r : LifecycleRecord)
    → Dict.get d k ≡ none
    → Dict.put d k r ≡ d ++ (k, r) ∷ []
unfolding Dict.get Dict.put
put-fresh [] k r h = refl
put-fresh ((j, a) ∷ d) k r h = ground (arith, put-fresh d k r)

Apart-put :
    (d e : Dict LifecycleRecord) (k : String) (r : LifecycleRecord)
    → Apart d e
    → Dict.get e k ≡ none
    → Apart (Dict.put d k r) e
unfolding Dict.get
Apart-put d [] k r h p = tt
Apart-put d ((j, a) ∷ e) k r h p =
    ground (arith, Dict.get-put d k j r, eq_iff k j, eq_iff j k, Apart-put d e k r h.1)

restore_records-step :
    (d : Dict LifecycleRecord) (r : LifecycleRecord) (raws : List RawRecord)
    → History r.events
    → restore_records (record_asdict r ∷ raws) d ≡ restore_records raws (Dict.put d r.task_id r)
unfolding restore_records
restore_records-step d r raws h = rw (record_from-asdict r (well_sequenced-History r.events h)) refl

restore_records-values :
    (d e : Dict LifecycleRecord)
    → Stored e
    → Dict.Unique e
    → Apart d e
    → restore_records (records_asdict (Dict.values e)) d ≡ ok (d ++ e)
unfolding restore_records Dict.values records_asdict
restore_records-values d [] h u a = rw append-nil refl
restore_records-values d ((k, r) ∷ e) h u a =
    restore_records-step d r (records_asdict (Dict.values e)) h.1
    ∙ ap (λ j. restore_records (records_asdict (Dict.values e)) (Dict.put d j r)) h.0
    ∙ restore_records-values (Dict.put d k r) e h.2 u.1 (Apart-put d e k r a.1 u.0)
    ∙ rw (put-fresh d k r a.0) (ap ok (append_assoc d ((k, r) ∷ []) e))

Stored-of :
    (d : Dict LifecycleRecord)
    → Dict.Unique d
    → ((k : String) (r : LifecycleRecord)
        → Dict.get d k ≡ some r
        → History r.events × (r.task_id ≡ k))
    → Stored d
unfolding Dict.get
Stored-of [] u h = tt
Stored-of ((j, a) ∷ d) u h =
    let (past, same) = h j a (rw (str_eq_refl j) refl) in
    (same, past, Stored-of d u.1 λ k r p. h k r (ground (arith, eq_iff j k)))

Apart-nil : (d : Dict LifecycleRecord) → Apart [] d
unfolding Dict.get
Apart-nil [] = tt
Apart-nil ((j, a) ∷ d) = (refl, Apart-nil d)

-- A restart loses nothing: the snapshot of a store that satisfies `StoreValid`, which has every record
-- and event taken apart into the entries of dictionaries, is accepted by any store and gives it exactly
-- the records of the first store.
pub restore-snapshot :
    (s fresh : LifecycleStore)
    → StoreValid s
    → restore (snapshot s) fresh ≡ (ok tt, record fresh { records = s.records })
unfolding restore snapshot
restore-snapshot s fresh v =
    rw
      (restore_records-values [] s.records
        (Stored-of s.records v.unique (λ k r p. ((v.entry k r p).0.history, (v.entry k r p).1)))
        v.unique (Apart-nil s.records))
      refl
