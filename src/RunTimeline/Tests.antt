-- ===== src/RunTimeline/Tests.antt =====
-- Runs of digital_fte/run_timeline.py.
use digital_fte_agent.Prelude.{◌≡◌, refl, inr, some, List, [], ◌∷◌, map}
use digital_fte_agent.Prelude.Values.{value_error, Result, ok, raise, String-discrete}
use digital_fte_agent.Loop.{LoopResult}
use digital_fte_agent.RunTimeline.{
  TimelineKind, run_started, iteration_started, agent_acted, iteration_completed, run_failed,
  TimelineEvent, post_init, build_timeline,
}
use digital_fte_agent.RunTimeline.Narration.{Narrates, terminal_of, build_timeline-Narrates}

abbrev two_rounds : LoopResult
two_rounds = record {
  task_id = "t";
  status = "failed";
  iterations = 2;
  steps = [];
  events =
      record { agent = "writer"; iteration = 1; input_state = "idea"; output_state = "draft" }
      ∷ record { agent = "critic"; iteration = 1; input_state = "draft"; output_state = "draft" }
      ∷ record { agent = "writer"; iteration = 2; input_state = "draft"; output_state = "text" }
      ∷ [];
  final_state = "text";
}

abbrev kinds : Result (List TimelineEvent) → List TimelineKind
kinds (ok l) = map (λ e. e.kind) l
kinds (raise e) = []

kinds-build_timeline :
    kinds (build_timeline (some two_rounds))
    ≡ run_started ∷ iteration_started ∷ agent_acted ∷ agent_acted ∷ iteration_completed
      ∷ iteration_started ∷ agent_acted ∷ iteration_completed ∷ run_failed ∷ []
unfolding build_timeline String-discrete post_init
kinds-build_timeline = refl

build_timeline_other_status :
    build_timeline (some (record two_rounds { status = "running" })) ≡ raise value_error
unfolding build_timeline String-discrete
build_timeline_other_status = refl

build_timeline-Narrates_example :
    (timeline : List TimelineEvent) × (build_timeline (some two_rounds) ≡ ok timeline)
    × Narrates two_rounds (terminal_of "failed") timeline
build_timeline-Narrates_example = build_timeline-Narrates two_rounds (inr refl)
