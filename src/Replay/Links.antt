-- ===== src/Replay/Links.antt =====
-- `validate_event_chain` against a description of the streams that it accepts.
use ovca_core.Prelude.{
  ℕ, ◌+◌, ◌≤◌, true, false, ◌≡◌, ◌≢◌, ◌↔◌, inl, inr, refl, sym, ◌∙◌, subst, ap, Option, none, some,
  List, [], ◌∷◌, map, ok, arith, not, ◌==◌, is_some, Bool-cases, Option-cases,
}
use ovca_core.Collections.Order.{◌=?◌, string_ord, =?_iff, =?_refl}
use ovca_core.Collections.BTreeMap.{BTreeMap, get, insert, get-insert}
use ovca_core.Collections.BTreeSet.{contains}
use ovca_core.Collections.BTreeSet.Count.{count, contains_of_count, count_of_contains}
use ovca_core.Collections.Equality.{same_option, same_option-Decides, ord-Decides}
use ovca_core.Goal.Ids.{EventId, RunId, goal_runtime_contract_version}
use ovca_core.Goal.Run.{RunEvent}
use ovca_core.Replay.Chain.{is_run_created, check_event, chain_from, validate_event_chain}

module _ {Value : Type 0} where
  -- An event at its place in the stream of a run.
  pub record IsPlaced (run_id : RunId) (index : ℕ) (previous : Option EventId)
      (event : RunEvent Value) : Type 0 where
    pub versioned : event.contract_version ≡ goal_runtime_contract_version
    pub of_run : event.run_id ≡ run_id
    pub numbered : event.sequence ≡ index
    pub created_first : is_run_created event.payload ≡ (index == 0)
    pub linked : event.previous_event_id ≡ previous

  abbrev pub ArePlaced : RunId → ℕ → Option EventId → List (RunEvent Value) → Type 0
  ArePlaced run_id index previous [] = Unit
  ArePlaced run_id index previous (event ∷ events) =
      IsPlaced run_id index previous event × ArePlaced run_id (index + 1) (some event.id) events

  abbrev pub ids_of : List (RunEvent Value) → List EventId
  ids_of = map (λ e. e.id)

  check_event-IsPlaced :
      (run_id : RunId) (index : ℕ) (previous : Option EventId) (seen : BTreeMap EventId ℕ)
      (event : RunEvent Value)
      → is_some previous ≡ not (index == 0)
      → check_event run_id index previous seen event ≡ ok tt
      → IsPlaced run_id index previous event × (get event.id seen ≡ none)
  unfolding check_event
  check_event-IsPlaced run_id index previous seen event start h = elim (Option-cases previous) [
    | inl e ↦ (
      record {
        versioned = ground arith;
        of_run = (=?_iff event.run_id run_id).0 (ground arith);
        numbered = ground arith;
        created_first = ground arith;
        linked = ground arith;
      },
      ground arith,
    )
    | inr (id, e) ↦
        let link : same_option ◌=?◌ event.previous_event_id (some id) ≡ true = ground arith in
        (
          record {
            versioned = ground arith;
            of_run = (=?_iff event.run_id run_id).0 (ground arith);
            numbered = ground arith;
            created_first = ground arith;
            linked =
                (same_option-Decides ◌=?◌ ord-Decides event.previous_event_id (some id)).0 link
                ∙ sym e;
          },
          ground arith,
        )
  ]

  IsPlaced-check_event :
      (run_id : RunId) (index : ℕ) (previous : Option EventId) (seen : BTreeMap EventId ℕ)
      (event : RunEvent Value)
      → is_some previous ≡ not (index == 0)
      → IsPlaced run_id index previous event
      → get event.id seen ≡ none
      → check_event run_id index previous seen event ≡ ok tt
  unfolding check_event
  IsPlaced-check_event run_id index previous seen event start p new = elim (Option-cases previous) [
    | inl e ↦ ground (
      arith,
      p.versioned,
      p.numbered,
      p.created_first,
      p.linked,
      (=?_iff event.run_id run_id).1 p.of_run,
    )
    | inr (id, e) ↦ ground (
      arith,
      p.versioned,
      p.numbered,
      p.created_first,
      (=?_iff event.run_id run_id).1 p.of_run,
      (same_option-Decides ◌=?◌ ord-Decides event.previous_event_id (some id)).1 (p.linked ∙ e),
    )
  ]

  -- Identifiers that are new, each once.
  record AreNew (seen : BTreeMap EventId ℕ) (events : List (RunEvent Value)) : Type 0 where
    pub each_once : (id : EventId) → count id (ids_of events) ≤ 1
    pub unseen : (id : EventId) → contains id (ids_of events) ≡ true → get id seen ≡ none

  chain_from-ArePlaced :
      (run_id : RunId) (index : ℕ) (previous : Option EventId) (seen : BTreeMap EventId ℕ)
      (events : List (RunEvent Value))
      → is_some previous ≡ not (index == 0)
      → chain_from run_id index previous seen events ≡ ok tt
      → ArePlaced run_id index previous events × AreNew seen events
  unfolding chain_from contains
  chain_from-ArePlaced run_id index previous seen [] start h =
      (tt, record { each_once = λ id. omega arith; unseen = λ id c. absurd (cc c) })
  chain_from-ArePlaced run_id index previous seen (x ∷ events) start h =
      let passed : check_event run_id index previous seen x ≡ ok tt = ground arith in
      let (here, new) = check_event-IsPlaced run_id index previous seen x start passed in
      let (rest, others) =
        chain_from-ArePlaced run_id (index + 1) (some x.id) (insert x.id x.sequence seen) events
          (ground arith) (ground arith) in
      let alone : contains x.id (ids_of events) ≡ false =
        elim (Bool-cases (contains x.id (ids_of events))) [
          | inr absent ↦ absent
          | inl again ↦ absurd (
              ground (
                arith,
                others.unseen x.id again,
                get-insert x.id x.id x.sequence seen,
                =?_refl x.id,
              ))
        ] in
      (
        (here, rest),
        record {
          each_once = λ id. elim (Bool-cases (id =? x.id)) [
            | inl same ↦
                let e : x.id ≡ id = sym ((=?_iff id x.id).0 same) in
                let alone' : contains id (ids_of events) ≡ false =
                  subst (λ y. contains y (ids_of events) ≡ false) e alone in
                ground (arith, alone', contains_of_count id (ids_of events))
            | inr other ↦ ground (arith, others.each_once id)
          ];
          unseen = λ id c. elim (Bool-cases (id =? x.id)) [
            | inl same ↦ rw ((=?_iff id x.id).0 same) new
            | inr other ↦
                ground (arith, others.unseen id (ground arith), get-insert id x.id x.sequence seen)
          ];
        },
      )

  ArePlaced-chain_from :
      (run_id : RunId) (index : ℕ) (previous : Option EventId) (seen : BTreeMap EventId ℕ)
      (events : List (RunEvent Value))
      → is_some previous ≡ not (index == 0)
      → ArePlaced run_id index previous events
      → AreNew seen events
      → chain_from run_id index previous seen events ≡ ok tt
  unfolding chain_from contains
  ArePlaced-chain_from run_id index previous seen [] start p new = refl
  ArePlaced-chain_from run_id index previous seen (x ∷ events) start p new =
      let unseen : get x.id seen ≡ none = new.unseen x.id (ground (arith, =?_refl x.id)) in
      let here = IsPlaced-check_event run_id index previous seen x start p.0 unseen in
      let alone : contains x.id (ids_of events) ≡ false =
        ground (arith, new.each_once x.id, count_of_contains x.id (ids_of events), =?_refl x.id) in
      let rest =
        ArePlaced-chain_from run_id (index + 1) (some x.id) (insert x.id x.sequence seen) events
          (ground arith) p.1
          (record {
            each_once = λ id. ground (arith, new.each_once id);
            unseen = λ id c. elim (Bool-cases (id =? x.id)) [
              | inl same ↦ let e : id ≡ x.id = (=?_iff id x.id).0 same in absurd (cc (c, alone, e))
              | inr other ↦
                  ground (arith, new.unseen id (ground arith), get-insert id x.id x.sequence seen)
            ];
          }) in
      rw (here, rest) refl

  -- A stream of one run: its events are in their places, no identifier is there twice, and there is
  -- an event.
  pub record IsStream (run_id : RunId) (events : List (RunEvent Value)) : Type 0 where
    pub inhabited : events ≢ []
    pub placed : ArePlaced run_id 0 none events
    pub unique : (id : EventId) → count id (ids_of events) ≤ 1

-- Exactly the streams of one run are validated: not empty, created by the first event and no other,
-- in the current version, numbered from 0, each event with its predecessor's identifier, and none
-- with an identifier that is there twice.
pub validate_event_chain_iff :
    {Value : Type 0} (events : List (RunEvent Value)) (run_id : RunId)
    → (validate_event_chain events ≡ ok run_id) ↔ IsStream run_id events
unfolding validate_event_chain get
validate_event_chain_iff [] run_id = (λ h. absurd (cc h), λ s. absurd (s.inhabited refl))
validate_event_chain_iff (first ∷ events) run_id = (
  λ h.
      let passed : chain_from first.run_id 0 none [] (first ∷ events) ≡ ok tt = ground arith in
      let e : first.run_id ≡ run_id = ground arith in
      let (placed, new) =
        chain_from-ArePlaced first.run_id 0 none [] (first ∷ events) refl passed in
      record {
        inhabited = λ n. cc n;
        placed = subst (λ r. ArePlaced r 0 none (first ∷ events)) e placed;
        unique = new.each_once;
      },
  λ s.
      let e : first.run_id ≡ run_id = s.placed.0.of_run in
      let passed =
        ArePlaced-chain_from run_id 0 none [] (first ∷ events) refl s.placed
          (record { each_once = s.unique; unseen = λ id c. refl }) in
      let passed' : chain_from first.run_id 0 none [] (first ∷ events) ≡ ok tt =
        subst (λ r. chain_from r 0 none [] (first ∷ events) ≡ ok tt) (sym e) passed in
      rw passed' (ap ok e),
)
