-- ===== src/Core/Producer/Tests.antt =====
-- Two calls for one topic that both find no writer.
use seta_training.Prelude.{[], ◌∷◌, refl, find}
use seta_training.Core.Producer.{
  Writer, Phase, looking, missed, has, sent, Call, Producer, writer_of, take_writer, look_up, take,
  write, call, Reach, here, next,
}
use seta_training.Core.Producer.Shared.{IsShared, Reach-IsShared}

abbrev at : Phase → Call
at f = record { topic = "team.activity"; phase = f }

abbrev first : Writer
first = record { topic = "team.activity"; number = 0 }

-- The second call takes the writer that the first has made.
abbrev raced : Producer
raced = record { writers = first ∷ []; calls = at (sent first) ∷ at (has first) ∷ [] }

raced-Reach : Reach raced
unfolding take_writer writer_of find
raced-Reach =
    next
      (next
        (next
          (next
            (next (next (next here (call "team.activity")) (call "team.activity"))
              (look_up [] (at looking ∷ []) (at looking) refl refl))
            (look_up (at missed ∷ []) [] (at looking) refl refl))
          (take [] (at missed ∷ []) (at missed) refl refl))
        (take (at (has first) ∷ []) [] (at missed) refl refl))
      (write [] (at (has first) ∷ []) (at (has first)) first refl refl)

Reach-IsShared_example : IsShared raced
Reach-IsShared_example = Reach-IsShared raced-Reach
