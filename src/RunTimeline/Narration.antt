-- ===== src/RunTimeline/Narration.antt =====
-- What the timeline of digital_fte/run_timeline.py tells of a result.
use digital_fte_agent.Prelude.{
  ℕ, suc, ◌+◌, String, ◌≡◌, refl, sym, ap, subst, ◌∙◌, ◌⊎◌, inl, inr, true, false, Option, none,
  some, List, [], ◌∷◌, ◌++◌, append-nil, append_assoc, arith, if◌then◌else◌, Bool-cases, length,
  length-append,
}
use digital_fte_agent.Prelude.Values.{Result, ok, and_then, text_equal}
use digital_fte_agent.Loop.{LoopEvent, LoopResult, completed, failed}
use digital_fte_agent.RunTimeline.{
  TimelineKind, run_started, iteration_started, agent_acted, iteration_completed, run_completed,
  run_failed, TimelineEvent, post_init, Builder, emit, marker, action, end_iteration, is_other,
  begin_iteration, narrate, first_iteration, initial_state, or_first, build, build_timeline,
}

-- The sequence numbers count from `n` on.
abbrev pub Numbered : ℕ → List TimelineEvent → Type 0
Numbered n [] = Unit
Numbered n (e ∷ events) = (e.sequence ≡ n) × Numbered (suc n) events

-- The agents' turns that the entries tell of.
abbrev pub turn_of :
    TimelineKind → Option String → Option String → Option String → ℕ → List LoopEvent
turn_of agent_acted (some a) (some s) (some t) i =
    record { agent = a; iteration = i; input_state = s; output_state = t } ∷ []
turn_of _ agent from_state to_state i = []

abbrev pub turns : List TimelineEvent → List LoopEvent
turns [] = []
turns (e ∷ events) = turn_of e.kind e.agent e.from_state e.to_state e.iteration ++ turns events

turns-append : (es es' : List TimelineEvent) → turns (es ++ es') ≡ turns es ++ turns es'
turns-append [] es' = refl
turns-append (e ∷ es) es' = rw (turns-append es es') (
    sym (
      append_assoc (turn_of e.kind e.agent e.from_state e.to_state e.iteration) (turns es)
        (turns es')))

Numbered-append :
    (n : ℕ) (es : List TimelineEvent) (e : TimelineEvent)
    → Numbered n es
    → e.sequence ≡ n + length es
    → Numbered n (es ++ e ∷ [])
Numbered-append n [] e h k = (omega arith, tt)
Numbered-append n (x ∷ es) e h k = (h.0, Numbered-append (suc n) es e h.1 (omega arith))

-- Every entry passes the checks of its constructor.
abbrev pub AllChecked : List TimelineEvent → Type 0
AllChecked [] = Unit
AllChecked (e ∷ events) = (post_init e ≡ ok e) × AllChecked events

AllChecked-append :
    (es : List TimelineEvent) (e : TimelineEvent)
    → AllChecked es
    → post_init e ≡ ok e
    → AllChecked (es ++ e ∷ [])
AllChecked-append [] e h k = (k, tt)
AllChecked-append (x ∷ es) e h k = (h.0, AllChecked-append es e h.1 k)

-- What has been told so far.
record Told (start : TimelineEvent) (events : List LoopEvent) (b : Builder) : Type 0 where
  middle : List TimelineEvent
  begun : b.timeline ≡ start ∷ middle
  counted : b.seq ≡ suc (length middle)
  numbered : Numbered 1 middle
  checked : AllChecked middle
  told : turns middle ≡ events

-- The action succeeds, in such a state.
abbrev Tells : TimelineEvent → List LoopEvent → Result Builder → Type 0
Tells start events r = (b : Builder) × (r ≡ ok b) × Told start events b

emit-Tells :
    (start : TimelineEvent) (events more : List LoopEvent) (event : ℕ → TimelineEvent) (b : Builder)
    → Told start events b
    → post_init (event b.seq) ≡ ok (event b.seq)
    → (event b.seq).sequence ≡ b.seq
    → turns (event b.seq ∷ []) ≡ more
    → Tells start (events ++ more) (emit event b)
unfolding emit
emit-Tells start events more event b h good n t = (
  record { timeline = b.timeline ++ event b.seq ∷ []; seq = b.seq + 1 },
  rw good refl,
  record {
    middle = h.middle ++ event b.seq ∷ [];
    begun = ap (λ l. l ++ event b.seq ∷ []) h.begun;
    counted = omega (arith, h.counted, length-append h.middle (event b.seq ∷ []));
    numbered = Numbered-append 1 h.middle (event b.seq) h.numbered (omega (arith, h.counted, n));
    checked = AllChecked-append h.middle (event b.seq) h.checked good;
    told =
        turns-append h.middle (event b.seq ∷ [])
        ∙ ap (λ l. l ++ turns (event b.seq ∷ [])) h.told
        ∙ ap (λ l. events ++ l) t;
  },
)

Tells-bind :
    (start : TimelineEvent) (events events' : List LoopEvent) (r : Result Builder)
    (f : Builder → Result Builder)
    → Tells start events r
    → ((b : Builder) → Told start events b → Tells start events' (f b))
    → Tells start events' (and_then r f)
Tells-bind start events events' r f (b, e, h) next = rw e (next b h)

-- A marker that is no `agent_acted` tells of no turn.
marker-Tells :
    (start : TimelineEvent) (events : List LoopEvent) (i : ℕ) (kind : TimelineKind)
    (to_state : Option String) (b : Builder)
    → Told start events b
    → post_init (marker i kind to_state b.seq) ≡ ok (marker i kind to_state b.seq)
    → turns (marker i kind to_state b.seq ∷ []) ≡ []
    → Tells start events (emit (marker i kind to_state) b)
marker-Tells start events i kind to_state b h good silent =
    subst (λ l. Tells start l (emit (marker i kind to_state) b)) (append-nil events)
      (emit-Tells start events [] (marker i kind to_state) b h good refl silent)

end_iteration-Tells :
    (start : TimelineEvent) (events : List LoopEvent) (open_iteration : Option ℕ) (b : Builder)
    → Told start events b
    → Tells start events (end_iteration open_iteration b)
unfolding end_iteration post_init
end_iteration-Tells start events none b h = (b, refl, h)
end_iteration-Tells start events (some i) b h =
    marker-Tells start events i iteration_completed none b h refl refl

begin_iteration-Tells :
    (start : TimelineEvent) (events : List LoopEvent) (open_iteration : Option ℕ) (i : ℕ)
    (b : Builder)
    → Told start events b
    → Tells start events (begin_iteration open_iteration i b)
unfolding begin_iteration post_init
begin_iteration-Tells start events open_iteration i b h =
    elim (Bool-cases (is_other open_iteration i)) [
      | inl other ↦ rw other (
          Tells-bind start events events (end_iteration open_iteration b)
            (emit (marker i iteration_started none))
            (end_iteration-Tells start events open_iteration b h)
            (λ b' h'. marker-Tells start events i iteration_started none b' h' refl refl))
      | inr same ↦ rw same (b, refl, h)
    ]

action-good : (e : LoopEvent) (n : ℕ) → post_init (action e n) ≡ ok (action e n)
unfolding post_init
action-good e n = ground arith

narrate-Told :
    (start : TimelineEvent) (before events : List LoopEvent) (open_iteration : Option ℕ)
    (b : Builder)
    → Told start before b
    → (o : Option ℕ) × (b' : Builder) × (narrate open_iteration events b ≡ ok (o, b'))
      × Told start (before ++ events) b'
unfolding narrate
narrate-Told start before [] open_iteration b h =
    (open_iteration, b, refl, subst (λ l. Told start l b) (sym (append-nil before)) h)
narrate-Told start before (e ∷ events) open_iteration b h =
    let (b1, eq1, h1) = begin_iteration-Tells start before open_iteration e.iteration b h in
    let (b2, eq2, h2) =
      emit-Tells start before (e ∷ []) (action e) b1 h1 (action-good e b1.seq) refl refl in
    let (o, b3, eq3, h3) = narrate-Told start (before ++ e ∷ []) events (some e.iteration) b2 h2 in
    rw eq1
      (rw eq2 (o, b3, eq3, subst (λ l. Told start l b3) (append_assoc before (e ∷ []) events) h3))

-- The timeline of a result: from the start marker to the terminal one, numbered from 0 on, and with
-- the events of the result, in order, as the agents' turns between the two.
pub record Narrates (r : LoopResult) (terminal : TimelineKind) (timeline : List TimelineEvent)
    : Type 0 where
  pub start : TimelineEvent
  pub middle : List TimelineEvent
  pub finish : TimelineEvent
  pub whole : timeline ≡ start ∷ middle ++ finish ∷ []
  pub opens : (start.kind ≡ run_started) × (start.to_state ≡ some (initial_state r r.events))
  pub closes : (finish.kind ≡ terminal) × (finish.to_state ≡ some r.final_state)
  pub numbered : Numbered 0 timeline
  pub checked : AllChecked timeline
  pub told : turns middle ≡ r.events

opening : LoopResult → TimelineEvent
opening r = marker (first_iteration r.events) run_started (some (initial_state r r.events)) 0

build-Narrates :
    (terminal : TimelineKind) (r : LoopResult)
    → ((i : ℕ) (s : Option String) (n : ℕ)
        → post_init (marker i terminal s n) ≡ ok (marker i terminal s n))
    → (timeline : List TimelineEvent) × (build terminal r ≡ ok timeline)
      × Narrates r terminal timeline
unfolding build emit post_init opening
build-Narrates terminal r good =
    let begun : Told (opening r) [] (record { timeline = opening r ∷ []; seq = 1 }) = record {
      middle = [];
      begun = refl;
      counted = refl;
      numbered = tt;
      checked = tt;
      told = refl;
    } in
    let (o, b1, eq1, h1) = narrate-Told (opening r) [] r.events none _ begun in
    let (b2, eq2, h2) = end_iteration-Tells (opening r) r.events o b1 h1 in
    let last =
      marker (or_first o (first_iteration r.events)) terminal (some r.final_state) b2.seq in
    (
      b2.timeline ++ last ∷ [],
      rw eq1 (
          rw eq2
            (rw (good (or_first o (first_iteration r.events)) (some r.final_state) b2.seq) refl)),
      record {
        start = opening r;
        middle = h2.middle;
        finish = last;
        whole = ap (λ l. l ++ last ∷ []) h2.begun;
        opens = (refl, refl);
        closes = (refl, refl);
        numbered =
            rw h2.begun
              (refl, Numbered-append 1 h2.middle last h2.numbered (omega (arith, h2.counted)));
        checked = rw h2.begun (
          refl,
          AllChecked-append h2.middle last h2.checked
              (good (or_first o (first_iteration r.events)) (some r.final_state) b2.seq),
        );
        told = h2.told;
      },
    )

-- The terminal marker for a status.
abbrev pub terminal_of : String → TimelineKind
terminal_of status = if text_equal status completed then run_completed else run_failed

failed_test :
    (status : String)
    → (status ≡ completed) ⊎ (status ≡ failed)
    → text_equal status completed ≡ false
    → text_equal status failed ≡ true
failed_test status (inl e) h = ground arith
failed_test status (inr e) h = ground arith

-- A completed or failed result always has a timeline: no event of it is refused. The timeline
-- begins with the start marker, ends with the one terminal marker that the status asks for, is
-- numbered from 0 without a gap, passes the checks of its events, and tells the events of the result, in order.
pub build_timeline-Narrates :
    (r : LoopResult)
    → (r.status ≡ completed) ⊎ (r.status ≡ failed)
    → (timeline : List TimelineEvent) × (build_timeline (some r) ≡ ok timeline)
      × Narrates r (terminal_of r.status) timeline
unfolding build_timeline post_init
build_timeline-Narrates r status = elim (Bool-cases (text_equal r.status completed)) [
  | inl done ↦ rw done (build-Narrates run_completed r (λ i s n. refl))
  | inr other ↦
      rw other
        (rw (failed_test r.status status other) (build-Narrates run_failed r (λ i s n. refl)))
]
