-- ===== src/Store/Telemetry/Delivered.antt =====
-- What the timer hands on is the last message of each run.
use vidhi_trading_platform.Prelude.{
  true, false, String, str_eq, eq_iff, eq_refl, List, [], ◌∷◌, Option, none, some, if◌then◌else◌,
  ◌≡◌, refl, Bool-cases, inl, inr, sym, ◌∙◌, ap, subst, arith,
}
use vidhi_trading_platform.Store.Types.{State, Store, Browser}
use vidhi_trading_platform.Store.Telemetry.{
  TickMessage, put_run, get_run, spread_over, on_message, on_messages, on_timer,
}

get_run-put_run : (k v : String) (o : List (String × String)) → get_run k (put_run k v o) ≡ some v
unfolding get_run put_run
get_run-put_run k v [] = rw (eq_refl k) refl
get_run-put_run k v ((i, w) ∷ o) = elim (Bool-cases (str_eq i k)) [
  | inl e ↦ rw (e, e) refl
  | inr e ↦ rw (e, e) (get_run-put_run k v o)
]

get_run-put_run_other :
    (k j v : String) (o : List (String × String))
    → str_eq k j ≡ false
    → get_run j (put_run k v o) ≡ get_run j o
unfolding get_run put_run
get_run-put_run_other k j v [] h = rw h refl
get_run-put_run_other k j v ((i, w) ∷ o) h = elim (Bool-cases (str_eq i k)) [
  | inl e ↦
      let same : i ≡ k = (eq_iff i k).0 e in
      let apart : str_eq i j ≡ false = rw same h in rw (e, apart) refl
  | inr e ↦ rw e (ap (λ x. if str_eq i j then some w else x) (get_run-put_run_other k j v o h))
]

-- What `b` says, or `a` where it says nothing.
abbrev pub or_before : Option String → Option String → Option String
or_before none a = a
or_before (some v) a = some v

-- The last payload of a run among messages of telemetry.
unfoldable pub last_payload : String → List TickMessage → Option String
last_payload k [] = none
last_payload k (m ∷ ms) = or_before (last_payload k ms) (
    if str_eq m.kind "TICK_TELEMETRY"
    then (if str_eq m.run_id "" then none else (if str_eq m.run_id k then some m.payload else none))
    else none)

-- An object with no key twice.
abbrev pub Lacks : String → List (String × String) → Type 0
Lacks k o = get_run k o ≡ none

abbrev pub HasOwnKeys : List (String × String) → Type 0
HasOwnKeys [] = Unit
HasOwnKeys ((k, v) ∷ o) = Lacks k o × HasOwnKeys o

apart_sym : (i j : String) → str_eq i j ≡ false → str_eq j i ≡ false
apart_sym i j h = elim (Bool-cases (str_eq j i)) [
  | inr e ↦ e
  | inl e ↦
      let same : j ≡ i = (eq_iff j i).0 e in
      let w : str_eq i i ≡ false = rw same at h in
      let v : true ≡ false = rw (eq_refl i) at w in absurd (ground arith)
]

put_run-Lacks :
    (i k v : String) (o : List (String × String))
    → str_eq k i ≡ false
    → Lacks i o
    → Lacks i (put_run k v o)
put_run-Lacks i k v o h lacks = get_run-put_run_other k i v o h ∙ lacks

put_run-HasOwnKeys :
    (k v : String) (o : List (String × String)) → HasOwnKeys o → HasOwnKeys (put_run k v o)
unfolding put_run get_run
put_run-HasOwnKeys k v [] h = (refl, tt)
put_run-HasOwnKeys k v ((i, w) ∷ o) h = elim (Bool-cases (str_eq i k)) [
  | inl e ↦ rw e h
  | inr e ↦ rw e (put_run-Lacks i k v o (apart_sym i k e) h.0, put_run-HasOwnKeys k v o h.1)
]

get_run-spread_over :
    (k : String) (o p : List (String × String))
    → HasOwnKeys p
    → get_run k (spread_over o p) ≡ or_before (get_run k p) (get_run k o)
unfolding spread_over get_run
get_run-spread_over k o [] h = refl
get_run-spread_over k o ((j, v) ∷ p) h =
    get_run-spread_over k (put_run j v o) p h.1 ∙ elim (Bool-cases (str_eq j k)) [
      | inl e ↦
          let same : j ≡ k = (eq_iff j k).0 e in
          let lacks : get_run k p ≡ none = subst (λ i. get_run i p ≡ none) same h.0 in
          rw (e, lacks)
            (subst (λ i. get_run k (put_run i v o) ≡ some v) (sym same) (get_run-put_run k v o))
      | inr e ↦ rw (e, get_run-put_run_other j k v o e) refl
    ]

-- A message that is none of telemetry, or has no run, is dropped; any other is put into the buffer.
on_message_dropped :
    (m : TickMessage) (st : Store) → str_eq m.kind "TICK_TELEMETRY" ≡ false → on_message m st ≡ st
unfolding on_message
on_message_dropped m st e = rw e refl

on_message_nameless :
    (m : TickMessage) (st : Store)
    → str_eq m.kind "TICK_TELEMETRY" ≡ true
    → str_eq m.run_id "" ≡ true
    → on_message m st ≡ st
unfolding on_message
on_message_nameless m st e d = rw (e, d) refl

on_message_put :
    (m : TickMessage) (st : Store)
    → str_eq m.kind "TICK_TELEMETRY" ≡ true
    → str_eq m.run_id "" ≡ false
    → on_message m st ≡ record st {
      telemetry_buffer = put_run m.run_id m.payload st.telemetry_buffer;
      timer_set = true;
    }
unfolding on_message
on_message_put m st e d = rw (e, d) refl

-- What is to be shown of the buffer after messages: its runs, each once, and the last payloads.
abbrev IsBuffered : String → List TickMessage → Store → Store → Type 0
IsBuffered k ms st st' =
    HasOwnKeys st'.telemetry_buffer
    × (get_run k st'.telemetry_buffer
        ≡ or_before (last_payload k ms) (get_run k st.telemetry_buffer))
    × (st'.state ≡ st.state)

or_before_assoc :
    (a b c : Option String) → or_before a (or_before b c) ≡ or_before (or_before a b) c
or_before_assoc none b c = refl
or_before_assoc (some v) b c = refl

get_run-put_run_cases :
    (k j v : String) (o : List (String × String))
    → get_run k (put_run j v o) ≡ or_before (if str_eq j k then some v else none) (get_run k o)
get_run-put_run_cases k j v o = elim (Bool-cases (str_eq j k)) [
  | inr e ↦ rw (e, get_run-put_run_other j k v o e) refl
  | inl e ↦ rw e (
      subst (λ i. get_run k (put_run i v o) ≡ some v) (sym ((eq_iff j k).0 e))
        (get_run-put_run k v o))
]

or_before-none : (a : Option String) → or_before a none ≡ a
or_before-none none = refl
or_before-none (some v) = refl

on_messages-IsBuffered :
    (k : String) (ms : List TickMessage) (st : Store)
    → HasOwnKeys st.telemetry_buffer
    → IsBuffered k ms st (on_messages ms st)
unfolding on_messages last_payload
on_messages-IsBuffered k [] st h = (h, refl, refl)
on_messages-IsBuffered k (m ∷ ms) st h = elim (Bool-cases (str_eq m.kind "TICK_TELEMETRY")) [
  | inr e ↦
      subst (λ t. IsBuffered k (m ∷ ms) st (on_messages ms t)) (sym (on_message_dropped m st e))
        (rw (e, or_before-none (last_payload k ms)) (on_messages-IsBuffered k ms st h))
  | inl e ↦ elim (Bool-cases (str_eq m.run_id "")) [
    | inl d ↦
        subst (λ t. IsBuffered k (m ∷ ms) st (on_messages ms t))
          (sym (on_message_nameless m st e d))
          (rw (e, d, or_before-none (last_payload k ms)) (on_messages-IsBuffered k ms st h))
    | inr d ↦
        let next : Store = record st {
          telemetry_buffer = put_run m.run_id m.payload st.telemetry_buffer;
          timer_set = true;
        } in
        let (own, last, same) =
          on_messages-IsBuffered k ms next
            (put_run-HasOwnKeys m.run_id m.payload st.telemetry_buffer h) in
        subst (λ t. IsBuffered k (m ∷ ms) st (on_messages ms t)) (sym (on_message_put m st e d))
          (rw (e, d)
            (
              own,
              last
                  ∙ ap (or_before (last_payload k ms))
                      (get_run-put_run_cases k m.run_id m.payload st.telemetry_buffer)
                  ∙ or_before_assoc (last_payload k ms) _ (get_run k st.telemetry_buffer),
              same,
            ))
  ]
]

-- Once the timer fires after any messages, the pages find for each run the payload of its last
-- message, or what was buffered before, or the payload that they had already; the buffer is empty
-- and the timer can be set again.
pub on_timer_delivers :
    (b : Browser) (k : String) (ms : List TickMessage) (st : Store)
    → HasOwnKeys st.telemetry_buffer
    → let st' = on_timer b (on_messages ms st) in
      (get_run k st'.state.telemetry.data_by_run
        ≡ or_before
            (or_before (last_payload k ms) (get_run k st.telemetry_buffer))
            (get_run k st.state.telemetry.data_by_run))
      × (st'.telemetry_buffer ≡ [])
      × (st'.timer_set ≡ false)
unfolding on_timer
on_timer_delivers b k ms st h =
    let st1 = on_messages ms st in
    let (own, last, same) = on_messages-IsBuffered k ms st h in
    (
      get_run-spread_over k st1.state.telemetry.data_by_run st1.telemetry_buffer own
          ∙ ap (λ x. or_before x (get_run k st1.state.telemetry.data_by_run)) last
          ∙ ap
              (λ (s : State).
                or_before (or_before (last_payload k ms) (get_run k st.telemetry_buffer))
                  (get_run k s.telemetry.data_by_run))
              same,
      refl,
      refl,
    )
