-- ===== src/Worker/Safety/History.antt =====
-- The events and the dead letters of the queue are only added to:
-- packages/worker/src/index.ts.
use bek.Common.{ℕ, ◌≡◌, some, [], ◌∷◌, get_elem?, get_elem?-append}
use bek.Worker.Types.{WorkerEvent, WorkerDeadLetterRecord}
use bek.Worker.State.{Queue, put, push_record, push_dead_letter, draw_id}
use bek.Worker.Evolution.{Evolves, same, drawn, logged, changed, pushed, buried}

pub Evolves-event :
    {q p : Queue} (i : ℕ) (e : WorkerEvent)
    → Evolves q p
    → get_elem? q.events i ≡ some e
    → get_elem? p.events i ≡ some e
unfolding put push_record push_dead_letter draw_id
Evolves-event i e same at = at
Evolves-event i e (drawn v) at = Evolves-event i e v at
Evolves-event i e (logged {q' = p} v n s) at =
    get_elem?-append p.events (n ∷ []) i (Evolves-event i e v at)
Evolves-event i e (changed v j r r' there c) at = Evolves-event i e v at
Evolves-event i e (pushed v r s t u) at = Evolves-event i e v at
Evolves-event i e (buried v d s) at = Evolves-event i e v at

pub Evolves-letter :
    {q p : Queue} (i : ℕ) (d : WorkerDeadLetterRecord)
    → Evolves q p
    → get_elem? q.dead_letters i ≡ some d
    → get_elem? p.dead_letters i ≡ some d
unfolding put push_record push_dead_letter draw_id
Evolves-letter i d same at = at
Evolves-letter i d (drawn v) at = Evolves-letter i d v at
Evolves-letter i d (logged v n s) at = Evolves-letter i d v at
Evolves-letter i d (changed v j r r' there c) at = Evolves-letter i d v at
Evolves-letter i d (pushed v r s t u) at = Evolves-letter i d v at
Evolves-letter i d (buried {q' = p} v n s) at =
    get_elem?-append p.dead_letters (n ∷ []) i (Evolves-letter i d v at)
